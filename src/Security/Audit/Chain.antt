-- ===== src/Security/Audit/Chain.antt =====
-- What `AuditTrail.verify` of vyomel/security/audit.py answers, and how it splits at a row.
use vyomel.Prelude.{
  ℕ, ◌≡◌, ◌≢◌, refl, true, false, Option, none, some, List, [], ◌∷◌, ◌++◌, Text, codes, text_beq,
  text_beq_iff, length, arith, ◌⊎◌, inl, inr, ◌↔◌, Bool-cases,
}
use vyomel.Security.Audit.{Hashing, AuditLog, ChainReport, digest, by_id, same_hash, walk, verify}

pub same_hash_iff : (a b : Option Text) → (same_hash a b ≡ true) ↔ (a ≡ b)
same_hash_iff none none = ground arith
same_hash_iff none (some b) = ground arith
same_hash_iff (some a) none = ground arith
same_hash_iff (some a) (some b) = ground (arith, text_beq_iff a b)

-- The hash that the row after these must carry.
abbrev pub end_of : Option Text → List AuditLog → Option Text
end_of prev [] = prev
end_of prev (r ∷ rows) = end_of (some r.hash) rows

module _ (h : Hashing) where
  -- A row that follows a hash and signs its own contents.
  abbrev pub Follows : Option Text → AuditLog → Type 0
  Follows prev r = (r.prev_hash ≡ prev) × (digest h r ≡ r.hash)

  -- A chain from a hash on.
  abbrev pub Linked : Option Text → List AuditLog → Type 0
  Linked prev [] = Unit
  Linked prev (r ∷ rows) = Follows prev r × Linked (some r.hash) rows

  abbrev passed : ℕ → ChainReport
  passed n = record { ok = true; rows = n; first_divergence_id = none; detail = none }

  -- Where a row breaks the chain, and what is said of it.
  abbrev Broken : ℕ → Option Text → AuditLog → ChainReport → Type 0
  Broken n prev r report =
      ((r.prev_hash ≢ prev)
        × (report ≡ record {
          ok = false;
          rows = n;
          first_divergence_id = some r.id;
          detail = some (codes "prev_hash does not match the preceding row");
        }))
      ⊎ ((r.prev_hash ≡ prev)
          × (digest h r ≢ r.hash)
          × (report ≡ record {
            ok = false;
            rows = n;
            first_divergence_id = some r.id;
            detail = some (codes "row contents do not match the recorded hash");
          }))

  abbrev pub Verdict : ℕ → Option Text → List AuditLog → ChainReport → Type 0
  Verdict n prev rows report =
      (Linked prev rows × (report ≡ passed n))
      ⊎ ((good : List AuditLog) × (r : AuditLog) × (rest : List AuditLog) × (rows
            ≡ good ++ r ∷ rest)
          × Linked prev good
          × Broken n (end_of prev good) r report)

  later-Verdict :
      (n : ℕ) (prev : Option Text) (r : AuditLog) (rows : List AuditLog) (report : ChainReport)
      → Follows prev r
      → Verdict n (some r.hash) rows report
      → Verdict n prev (r ∷ rows) report
  later-Verdict n prev r rows report f (inl (l, e)) = inl ((f, l), e)
  later-Verdict n prev r rows report f (inr (good, q, rest, e, l, b)) =
      inr (r ∷ good, q, rest, rw (e) refl, (f, l), b)

  walk_exact :
      (n : ℕ) (prev : Option Text) (rows : List AuditLog) → Verdict n prev rows (walk h n prev rows)
  walk_exact n prev [] = inl (tt, refl)
  walk_exact n prev (r ∷ rows) = elim (Bool-cases (same_hash r.prev_hash prev)) [
    | inl e ↦ elim (Bool-cases (text_beq (digest h r) r.hash)) [
      | inl k ↦ rw (e) (
          rw (k) (
            later-Verdict n prev r rows (walk h n (some r.hash) rows)
              ((same_hash_iff r.prev_hash prev).0 e, (text_beq_iff (digest h r) r.hash).0 k)
              (walk_exact n (some r.hash) rows)))
      | inr k ↦ rw (e) (
          rw (k) (
            inr (
              [],
              r,
              rows,
              refl,
              tt,
              inr (
                (same_hash_iff r.prev_hash prev).0 e,
                ground (arith, text_beq_iff (digest h r) r.hash, k),
                refl,
              ),
            )))
    ]
    | inr e ↦
        rw (e) (
          inr
            ([], r, rows, refl, tt, inl (ground (arith, same_hash_iff r.prev_hash prev, e), refl)))
  ]

  -- `verify` over the whole table answers that all is well exactly where the rows, in the order of
  -- their numbers, form a chain from nothing: each carries the hash of the one before and signs its own
  -- contents. Otherwise it names the first row that does not, and which of the two fails there.
  pub verify_exact :
      (table : List AuditLog) → Verdict (length table) none (by_id table) (verify h none table)
  unfolding verify
  verify_exact table = walk_exact (length table) none (by_id table)

  -- The answer, as a test of the chain alone.
  pub walk_ok :
      (n : ℕ) (prev : Option Text) (rows : List AuditLog)
      → ((walk h n prev rows).ok ≡ true) ↔ Linked prev rows
  walk_ok n prev [] = (λ e. tt, λ l. refl)
  walk_ok n prev (r ∷ rows) =
      let (f, g) = walk_ok n (some r.hash) rows in
      ground (arith, f, g, same_hash_iff r.prev_hash prev, text_beq_iff (digest h r) r.hash)

  pub Linked-append :
      (prev : Option Text) (xs ys : List AuditLog)
      → Linked prev (xs ++ ys) ↔ (Linked prev xs × Linked (end_of prev xs) ys)
  Linked-append prev [] ys = (λ l. (tt, l), λ l. l.1)
  Linked-append prev (x ∷ xs) ys =
      let (f, g) = Linked-append (some x.hash) xs ys in
      (λ l. let (a, b) = f l.1 in ((l.0, a), b), λ l. (l.0.0, g (l.0.1, l.1)))
