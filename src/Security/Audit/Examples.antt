-- ===== src/Security/Audit/Examples.antt =====
-- The audit trail at concrete inputs.
use vyomel.Prelude.{
  ℕ, ◌<◌, ◌≡◌, ◌≢◌, refl, true, Option, none, some, List, [], ◌∷◌, ◌++◌, Text, codes, All, length,
  arith,
}
use vyomel.Core.Types.{l1}
use vyomel.Core.Json.{ℤ, Value, Items, Fields}
use vyomel.Core.Redact.{Scrubbing}
use vyomel.Core.Redact.Clean.{CleanFields}
use vyomel.Security.Audit.{Filter, records, Hashing, AuditLog, Trail, digest, by_id, verify, append}
use vyomel.Security.Audit.Chain.{Verdict, verify_exact}
use vyomel.Security.Audit.Append.{append_verifies}
use vyomel.Security.Audit.Tamper.{AllToldApart, last_hash_commits}

abbrev plain_scrubbing : Scrubbing
plain_scrubbing = record { replace = λ old new t. t; re_sub = λ pattern new t. t; lower = λ t. t }

-- An encoding of the values that a digest is made of, for a run: a body by its number, and what is signed by
-- that and the hash before it.
abbrev encoded : Value → Text
encoded (Value.obj (Fields.field k (Value.int (ℤ.pos n)) fs)) = n ∷ []
encoded (Value.arr (Items.cons (Value.str s) (Items.cons (Value.str t) vs))) = t ++ s
encoded v = codes "body"

abbrev plain_hashing : Hashing
plain_hashing = record { dumps = encoded; sha256 = λ s. 35 ∷ s; isoformat = λ n. n ∷ [] }

sha256_nonblank : (s : Text) → plain_hashing.sha256 s ≢ []
sha256_nonblank s e = cc

abbrev row : ℕ → Option Text → Text → AuditLog
row id prev hash = record {
  id = id;
  occurred_at = 5;
  actor = codes "u";
  event_type = codes "task.created";
  task_id = none;
  action_id = none;
  capability_level = some l1;
  payload = Fields.end;
  prev_hash = prev;
  hash = hash;
}

abbrev first : Text
first = 35 ∷ 2 ∷ []

abbrev second : Text
second = 35 ∷ 4 ∷ 35 ∷ 2 ∷ []

abbrev trail : Trail
trail = record { table = row 4 (some first) second ∷ row 2 none first ∷ []; next = 7 }

verifies : (verify plain_hashing none trail.table).ok ≡ true
unfolding verify digest
verifies = refl

verify_exact_example :
    Verdict plain_hashing
      (length trail.table)
      none
      (by_id trail.table)
      (verify plain_hashing none trail.table)
verify_exact_example = verify_exact plain_hashing trail.table

append_verifies_example :
    let (r, u) =
      append plain_hashing plain_scrubbing [] 9
        (codes "u")
        (codes "task.cancelled")
        none
        none
        none
        Fields.end
        trail in
    ((verify plain_hashing none u.table).ok ≡ true)
    × All (λ q. q.id < u.next) u.table
    × CleanFields plain_scrubbing [] 1 r.payload
append_verifies_example =
    append_verifies plain_hashing sha256_nonblank plain_scrubbing [] 9 (codes "u")
      (codes "task.cancelled") none none none Fields.end trail verifies (ground arith)

-- The same rows in another order of the table.
abbrev other_way : List AuditLog
other_way = row 2 none first ∷ row 4 (some first) second ∷ []

other_verifies : (verify plain_hashing none other_way).ok ≡ true
unfolding verify digest
other_verifies = refl

told_apart : AllToldApart plain_hashing (by_id trail.table) (by_id other_way)
told_apart = ground arith

last_hash_commits_example : by_id trail.table ≡ by_id other_way
last_hash_commits_example =
    last_hash_commits plain_hashing trail.table other_way verifies other_verifies refl refl
      told_apart

abbrev by_u : Filter
by_u = record {
  task_id = none;
  action_id = none;
  event_type = some (codes "task.created");
  since = some 3;
}

-- The newer row of the two.
records_test : records by_u 1 trail.table ≡ row 4 (some first) second ∷ []
unfolding records
records_test = refl
