-- ===== src/Security/Audit/Reading.antt =====
-- What `AuditTrail.records` of vyomel/security/audit.py answers.
use vyomel.Prelude.{
  ℕ, zero, suc, ◌≤◌, ◌≡◌, true, List, [], ◌∷◌, ◌++◌, select, length, All, arith, Bool-cases, inl,
  inr,
}
use vyomel.Security.Audit.{AuditLog, Filter, passes, by_id, newest_first, limited, records}
use vyomel.Security.Audit.Append.{All-by_id}

length-limited : (n : ℕ) (rows : List AuditLog) → length (limited n rows) ≤ n
length-limited zero rows = omega arith
length-limited (suc n) [] = omega arith
length-limited (suc n) (r ∷ rows) = omega (arith, length-limited n rows)

module _ (P : AuditLog → Type 0) where
  All-limited : (n : ℕ) (rows : List AuditLog) → All P rows → All P (limited n rows)
  All-limited zero rows h = tt
  All-limited (suc n) [] h = tt
  All-limited (suc n) (r ∷ rows) h = (h.0, All-limited n rows h.1)

  All-behind : (rows : List AuditLog) (r : AuditLog) → All P rows → P r → All P (rows ++ r ∷ [])
  All-behind [] r h k = (k, tt)
  All-behind (q ∷ rows) r h k = (h.0, All-behind rows r h.1 k)

  All-newest_first : (rows : List AuditLog) → All P rows → All P (newest_first rows)
  All-newest_first [] h = tt
  All-newest_first (r ∷ rows) h = All-behind (newest_first rows) r (All-newest_first rows h.1) h.0

All-passes :
    (f : Filter) (table : List AuditLog) → All (λ r. passes f r ≡ true) (select (passes f) table)
All-passes f [] = tt
All-passes f (r ∷ table) = elim (Bool-cases (passes f r)) [
  | inl e ↦ rw (e) (e, All-passes f table)
  | inr e ↦ rw (e) (All-passes f table)
]

-- `records` gives no more rows than the limit, and only rows that pass every part of the filter.
pub records-bounded :
    (f : Filter) (limit : ℕ) (table : List AuditLog)
    → (length (records f limit table) ≤ limit)
      × All (λ r. passes f r ≡ true) (records f limit table)
unfolding records
records-bounded f limit table =
    let rows = select (passes f) table in
    let k = (All-by_id (λ r. passes f r ≡ true) rows).1 (All-passes f table) in
    (
      length-limited limit (newest_first (by_id rows)),
      All-limited (λ r. passes f r ≡ true) limit (newest_first (by_id rows))
          (All-newest_first (λ r. passes f r ≡ true) (by_id rows) k),
    )
