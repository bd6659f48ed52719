-- ===== src/Security/Audit/Tamper.antt =====
-- What the last hash of a trail of vyomel/security/audit.py commits to.
use vyomel.Prelude.{
  ◌≡◌, refl, ap, Option, none, some, List, [], ◌∷◌, Text, length, All, All-map, arith, true,
}
use vyomel.Core.Types.{Capability}
use vyomel.Security.Audit.{
  Hashing, AuditLog, or_blank, text_value, level_text, level_value, body, signed, digest, by_id,
  last_hash, verify,
}
use vyomel.Security.Audit.Chain.{end_of, Linked, walk_ok}
use vyomel.Security.Audit.Append.{last_hash-end_of}

-- All of two rows that a digest signs.
abbrev pub SameContents : AuditLog → AuditLog → Type 0
SameContents r q =
    (r.id ≡ q.id)
    × (r.occurred_at ≡ q.occurred_at)
    × (r.actor ≡ q.actor)
    × (r.event_type ≡ q.event_type)
    × (r.task_id ≡ q.task_id)
    × (r.action_id ≡ q.action_id)
    × (r.capability_level ≡ q.capability_level)
    × (r.payload ≡ q.payload)
    × (or_blank r.prev_hash ≡ or_blank q.prev_hash)

same_row : (x y : AuditLog) → SameContents x y → x.prev_hash ≡ y.prev_hash → x.hash ≡ y.hash → x ≡ y
same_row x y s p q = ground (arith, s, p, q)

text_value-inj : (a b : Option Text) → text_value a ≡ text_value b → a ≡ b
text_value-inj none none e = refl
text_value-inj (some a) (some b) e = ground (arith, e)
text_value-inj none (some b) e = cc
text_value-inj (some a) none e = cc

level_text-inj : (a b : Capability) → level_text a ≡ level_text b → a ≡ b
level_text-inj a b e = ground (arith, e)

level_value-inj : (a b : Option Capability) → level_value a ≡ level_value b → a ≡ b
level_value-inj none none e = refl
level_value-inj (some a) (some b) e = ap some (level_text-inj a b (ground (arith, e)))
level_value-inj none (some b) e = cc
level_value-inj (some a) none e = cc

module _ (h : Hashing) where
  -- What is asked of SHA-256, of `json.dumps` and of `isoformat` for two rows: that they tell apart the values
  -- and moments that they are given for the two.
  abbrev pub ToldApart : AuditLog → AuditLog → Type 0
  ToldApart r q =
      (h.sha256 (h.dumps (signed h r)) ≡ h.sha256 (h.dumps (signed h q))
        → h.dumps (signed h r) ≡ h.dumps (signed h q))
      × (h.dumps (signed h r) ≡ h.dumps (signed h q) → signed h r ≡ signed h q)
      × (h.dumps (body h r) ≡ h.dumps (body h q) → body h r ≡ body h q)
      × (h.isoformat r.occurred_at ≡ h.isoformat q.occurred_at → r.occurred_at ≡ q.occurred_at)

  abbrev pub AllToldApart : List AuditLog → List AuditLog → Type 0
  AllToldApart xs ys = All (λ r. All (ToldApart r) ys) xs

  AllToldApart-tail :
      (xs : List AuditLog) (x y : AuditLog) (ys : List AuditLog)
      → AllToldApart (x ∷ xs) (y ∷ ys)
      → AllToldApart xs ys
  AllToldApart-tail xs x y ys c =
      All-map (λ r. All (ToldApart r) (y ∷ ys)) (λ r. All (ToldApart r) ys) xs (λ r k. k.1) c.1

  -- A body holds every field beside the hashes.
  same_body :
      (r q : AuditLog)
      → (h.isoformat r.occurred_at ≡ h.isoformat q.occurred_at → r.occurred_at ≡ q.occurred_at)
      → or_blank r.prev_hash ≡ or_blank q.prev_hash
      → body h r ≡ body h q
      → SameContents r q
  same_body r q at p e =
      let i : r.id ≡ q.id = ground (arith, e) in
      let t : h.isoformat r.occurred_at ≡ h.isoformat q.occurred_at = ground (arith, e) in
      let a : r.actor ≡ q.actor = ground (arith, e) in
      let v : r.event_type ≡ q.event_type = ground (arith, e) in
      let k : text_value r.task_id ≡ text_value q.task_id = ground (arith, e) in
      let n : text_value r.action_id ≡ text_value q.action_id = ground (arith, e) in
      let l : level_value r.capability_level ≡ level_value q.capability_level = ground (arith, e) in
      let d : r.payload ≡ q.payload = ground (arith, e) in
      (
        i,
        at t,
        a,
        v,
        text_value-inj r.task_id q.task_id k,
        text_value-inj r.action_id q.action_id n,
        level_value-inj r.capability_level q.capability_level l,
        d,
        p,
      )

  -- The digest of two rows that are told apart signs all their contents.
  digest-SameContents :
      (r q : AuditLog) → ToldApart r q → digest h r ≡ digest h q → SameContents r q
  unfolding digest
  digest-SameContents r q (sha, arr, obj, at) e =
      let s : signed h r ≡ signed h q = arr (sha e) in
      let p : or_blank r.prev_hash ≡ or_blank q.prev_hash = ground (arith, s) in
      let b : h.dumps (body h r) ≡ h.dumps (body h q) = ground (arith, s) in
      same_body r q at p (obj b)

  -- Two chains of one length behind hashes, with one last hash.
  unique_behind :
      (a b : Text) (xs ys : List AuditLog)
      → Linked h (some a) xs
      → Linked h (some b) ys
      → length xs ≡ length ys
      → AllToldApart xs ys
      → end_of (some a) xs ≡ end_of (some b) ys
      → (a ≡ b) × (xs ≡ ys)
  unique_behind a b [] [] l m n c e = ground arith
  unique_behind a b [] (y ∷ ys) l m n c e = ground arith
  unique_behind a b (x ∷ xs) [] l m n c e = ground arith
  unique_behind a b (x ∷ xs) (y ∷ ys) l m n c e =
      let (hs, ts) =
        unique_behind x.hash y.hash xs ys l.1 m.1 (omega (arith, n)) (AllToldApart-tail xs x y ys c)
          e in
      let d : digest h x ≡ digest h y = rw (l.0.1, m.0.1) hs in
      let k = digest-SameContents x y c.0.0 d in
      let p : a ≡ b = (rw (l.0.0, m.0.0) at k.8) in
      let q : x.prev_hash ≡ y.prev_hash = rw (l.0.0, m.0.0) (rw (p) refl) in
      let r : x ≡ y = same_row x y k q hs in (p, rw (r, ts) refl)

  unique :
      (xs ys : List AuditLog)
      → Linked h none xs
      → Linked h none ys
      → length xs ≡ length ys
      → AllToldApart xs ys
      → end_of none xs ≡ end_of none ys
      → xs ≡ ys
  unique [] [] l m n c e = refl
  unique [] (y ∷ ys) l m n c e = ground arith
  unique (x ∷ xs) [] l m n c e = ground arith
  unique (x ∷ xs) (y ∷ ys) l m n c e =
      let (hs, ts) =
        unique_behind x.hash y.hash xs ys l.1 m.1 (omega (arith, n)) (AllToldApart-tail xs x y ys c)
          e in
      let d : digest h x ≡ digest h y = rw (l.0.1, m.0.1) hs in
      let q : x.prev_hash ≡ y.prev_hash = rw (l.0.0, m.0.0) refl in
      let r : x ≡ y = same_row x y (digest-SameContents x y c.0.0 d) q hs in rw (r, ts) refl

  -- Two tables that verify, have as many rows and the same last hash hold the same rows in the order of
  -- their numbers, in every field, where SHA-256, json.dumps and isoformat tell apart what verify gives
  -- them for the rows of the two.
  pub last_hash_commits :
      (t u : List AuditLog)
      → (verify h none t).ok ≡ true
      → (verify h none u).ok ≡ true
      → length (by_id t) ≡ length (by_id u)
      → last_hash (by_id t) ≡ last_hash (by_id u)
      → AllToldApart (by_id t) (by_id u)
      → by_id t ≡ by_id u
  unfolding verify
  last_hash_commits t u v w n e c =
      unique (by_id t) (by_id u) ((walk_ok h (length t) none (by_id t)).0 v)
        ((walk_ok h (length u) none (by_id u)).0 w) n c
        (rw (← last_hash-end_of (by_id t), ← last_hash-end_of (by_id u)) e)
