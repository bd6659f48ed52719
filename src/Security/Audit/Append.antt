-- ===== src/Security/Audit/Append.antt =====
-- The order that the queries of vyomel/security/audit.py ask for, and `AuditTrail.append`.
use vyomel.Prelude.{
  ℕ, suc, ◌≤◌, ◌<◌, ◌≡◌, ◌≢◌, refl, true, false, Option, none, some, List, [], ◌∷◌, ◌++◌, Text, ltb,
  leb, length, select, All, All-map, arith, inl, inr, ◌↔◌, Bool-cases,
}
use vyomel.Security.Audit.{
  Hashing, AuditLog, Trail, digest, insert_asc, by_id, last_hash, or_none, walk, verify, append,
}
use vyomel.Core.Types.{Capability}
use vyomel.Core.Json.{Fields}
use vyomel.Core.Redact.{Scrubbing}
use vyomel.Core.Redact.Clean.{CleanFields, fields_clean}
use vyomel.Security.Audit.Chain.{end_of, Linked, Linked-append, walk_ok}

module _ (P : AuditLog → Type 0) where
  All-insert :
      (r : AuditLog) (rows : List AuditLog) → All P (insert_asc r rows) ↔ (P r × All P rows)
  All-insert r [] = ground arith
  All-insert r (q ∷ rows) = elim (Bool-cases (ltb q.id r.id)) [
    | inl e ↦ rw (e) (
        let (f, g) = All-insert r rows in
        (λ h. let k = f h.1 in (k.0, (h.0, k.1)), λ h. (h.1.0, g (h.0, h.1.1))))
    | inr e ↦ rw (e) (λ h. h, λ h. h)
  ]

  pub All-by_id : (rows : List AuditLog) → All P (by_id rows) ↔ All P rows
  All-by_id [] = (λ h. h, λ h. h)
  All-by_id (r ∷ rows) =
      let (f, g) = All-insert r (by_id rows) in
      let (u, v) = All-by_id rows in (λ h. let k = f h in (k.0, u k.1), λ h. g (h.0, v h.1))

-- A new row stands behind all rows with smaller numbers and before all with greater ones.
insert_behind :
    (r : AuditLog) (xs ys : List AuditLog)
    → All (λ q. q.id < r.id) xs
    → insert_asc r (xs ++ ys) ≡ xs ++ insert_asc r ys
insert_behind r [] ys h = refl
insert_behind r (x ∷ xs) ys h = ground (arith, h.0, insert_behind r xs ys h.1)

insert_before :
    (r : AuditLog) (xs ys : List AuditLog)
    → All (λ q. r.id ≤ q.id) ys
    → insert_asc r (xs ++ ys) ≡ insert_asc r xs ++ ys
insert_before r [] [] h = refl
insert_before r [] (y ∷ ys) h = ground (arith, h.0)
insert_before r (x ∷ xs) ys h = ground (arith, insert_before r xs ys h)

abbrev pub before : ℕ → List AuditLog → List AuditLog
before start table = select (λ r. ltb r.id start) table

abbrev pub since : ℕ → List AuditLog → List AuditLog
since start table = select (λ r. leb start r.id) table

All-before : (start : ℕ) (table : List AuditLog) → All (λ r. r.id < start) (before start table)
All-before start [] = tt
All-before start (r ∷ table) = elim (Bool-cases (ltb r.id start)) [
  | inl e ↦ rw (e) (ground (arith, e), All-before start table)
  | inr e ↦ rw (e) (All-before start table)
]

All-since : (start : ℕ) (table : List AuditLog) → All (λ r. start ≤ r.id) (since start table)
All-since start [] = tt
All-since start (r ∷ table) = elim (Bool-cases (leb start r.id)) [
  | inl e ↦ rw (e) (ground (arith, e), All-since start table)
  | inr e ↦ rw (e) (All-since start table)
]

by_id_split :
    (start : ℕ) (table : List AuditLog)
    → by_id table ≡ by_id (before start table) ++ by_id (since start table)
by_id_split start [] = refl
by_id_split start (r ∷ table) = elim (Bool-cases (ltb r.id start)) [
  | inl e ↦
      let k : leb start r.id ≡ false = ground (arith, e) in
      let m =
        All-map (λ q. start ≤ q.id) (λ q. r.id ≤ q.id) (by_id (since start table))
          (λ q j. ground (arith, e))
          ((All-by_id (λ q. start ≤ q.id) (since start table)).1 (All-since start table)) in
      rw (e, k, by_id_split start table)
        (insert_before r (by_id (before start table)) (by_id (since start table)) m)
  | inr e ↦
      let k : leb start r.id ≡ true = ground (arith, e) in
      let m =
        All-map (λ q. q.id < start) (λ q. q.id < r.id) (by_id (before start table))
          (λ q j. ground (arith, e))
          ((All-by_id (λ q. q.id < start) (before start table)).1 (All-before start table)) in
      rw (e, k, by_id_split start table)
        (insert_behind r (by_id (before start table)) (by_id (since start table)) m)
]

pub last_hash-end_of : (rows : List AuditLog) → last_hash rows ≡ end_of none rows
last_hash-end_of [] = refl
last_hash-end_of (r ∷ []) = refl
last_hash-end_of (r ∷ q ∷ rows) = last_hash-end_of (q ∷ rows)

module _ (h : Hashing) where
  -- The table verifies as a whole exactly where the rows before a number verify on their own and the
  -- rows from that number on verify as a suffix, seeded by the row before them. In particular a table
  -- that lost all rows from a number on still verifies.
  pub verify_split :
      (start : ℕ) (table : List AuditLog)
      → ((verify h none table).ok ≡ true) ↔ (
          ((verify h none (before start table)).ok ≡ true)
          × ((verify h (some start) table).ok ≡ true))
  unfolding verify
  verify_split start table =
      let a = by_id (before start table) in
      let b = by_id (since start table) in
      let (f, g) = walk_ok h (length table) none (by_id table) in
      let (f1, g1) = walk_ok h (length (before start table)) none a in
      let (f2, g2) = walk_ok h (length b) (last_hash a) b in
      let (u, v) = Linked-append h none a b in
      (
        λ e.
            let (x, y) = u (rw (by_id_split start table) at (f e)) in
            (g1 x, g2 (rw (last_hash-end_of a) y)),
        λ e. g (rw (by_id_split start table) (v (f1 e.0, rw (last_hash-end_of a) at (f2 e.1)))),
      )

insert_last :
    (r : AuditLog) (rows : List AuditLog)
    → All (λ q. q.id < r.id) rows
    → insert_asc r rows ≡ rows ++ r ∷ []
insert_last r [] k = refl
insert_last r (q ∷ rows) k = ground (arith, k.0, insert_last r rows k.1)

or_none-some : (s : Text) → s ≢ [] → or_none (some s) ≡ some s
or_none-some [] k = ground (arith, k)
or_none-some (c ∷ s) k = refl

module _ (h : Hashing) (nonblank : (s : Text) → h.sha256 s ≢ []) where
  -- In a chain of hashes, `or None` changes nothing.
  or_none-last_hash :
      (prev : Option Text) (rows : List AuditLog)
      → Linked h prev rows
      → or_none (last_hash rows) ≡ last_hash rows
  unfolding digest
  or_none-last_hash prev [] l = refl
  or_none-last_hash prev (r ∷ []) l = or_none-some r.hash (rw (← l.0.1) (nonblank _))
  or_none-last_hash prev (r ∷ q ∷ rows) l = or_none-last_hash (some r.hash) (q ∷ rows) l.1

  Linked-behind :
      (n : ℕ) (r : AuditLog) (rows : List AuditLog)
      → Linked h none rows
      → All (λ q. q.id < r.id) rows
      → r.prev_hash ≡ or_none (last_hash rows)
      → digest h r ≡ r.hash
      → (walk h n none (insert_asc r rows)).ok ≡ true
  Linked-behind n r rows l below p d =
      let q : r.prev_hash ≡ end_of none rows =
        rw (p, or_none-last_hash none rows l) (last_hash-end_of rows) in
      rw (insert_last r rows below) (
        (walk_ok h n none (rows ++ r ∷ [])).1
          ((Linked-append h none rows (r ∷ [])).1 (l, ((q, d), tt))))

  -- Where SHA-256 never gives the empty text: a record that is appended to a trail that verifies, whose
  -- rows have smaller numbers than the sequence gives next, leaves a trail that verifies, with all its
  -- numbers below the next; and what is written holds no value under a secret's key down to the eighth
  -- level.
  pub append_verifies :
      (s : Scrubbing) (known : List Text) (now : ℕ) (actor event_type : Text)
      (task_id action_id : Option Text) (level : Option Capability) (payload : Fields) (t : Trail)
      → (verify h none t.table).ok ≡ true
      → All (λ q. q.id < t.next) t.table
      → let (r, u) = append h s known now actor event_type task_id action_id level payload t in
        ((verify h none u.table).ok ≡ true)
        × All (λ q. q.id < u.next) u.table
        × CleanFields s known 1 r.payload
  unfolding append verify digest
  append_verifies s known now actor event_type task_id action_id level payload t ok below =
      let (r, u) = append h s known now actor event_type task_id action_id level payload t in
      let rows = by_id t.table in
      let l = (walk_ok h (length t.table) none rows).0 ok in
      let k = (All-by_id (λ q. q.id < t.next) t.table).1 below in
      (
        Linked-behind (suc (length t.table)) r rows l k refl refl,
        (
          omega arith,
          All-map (λ q. q.id < t.next) (λ q. q.id < suc t.next) t.table (λ q j. omega arith) below,
        ),
        fields_clean s known 1 payload,
      )
