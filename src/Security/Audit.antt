-- ===== src/Security/Audit.antt =====
-- vyomel/security/audit.py: the hash-chained audit trail. `json.dumps`, SHA-256 and the form of a
-- moment are parameters; the table is a list of rows in no order, and the sequence that numbers them
-- a counter beside it.
pub mod Chain
pub mod Append
pub mod Tamper
pub mod Reading
mod Examples
use vyomel.Prelude.{
  zero, ◌++◌, ℕ, suc, ◌+◌, Bool, true, false, ◌&&◌, Option, none, some, List, [], ◌∷◌, Text, codes,
  text_beq, ltb, leb, length, select, if◌then◌else◌,
}
use vyomel.Core.Types.{Capability, l0, l1, l2, l3, l4}
use vyomel.Core.Json.{ℤ, Value, Items, Fields}
use vyomel.Core.Redact.{Scrubbing, redact_fields}

pub record Hashing : Type 0 where
  -- `json.dumps(value, sort_keys=True, separators=(",", ":"), default=str)`
  pub dumps : Value → Text
  -- `hashlib.sha256(s.encode("utf-8")).hexdigest()`
  pub sha256 : Text → Text
  -- `moment.astimezone(UTC).isoformat(timespec="microseconds")`
  pub isoformat : ℕ → Text

pub record AuditLog : Type 0 where
  pub id : ℕ
  pub occurred_at : ℕ
  pub actor : Text
  pub event_type : Text
  pub task_id : Option Text
  pub action_id : Option Text
  pub capability_level : Option Capability
  pub payload : Fields
  pub prev_hash : Option Text
  pub hash : Text

pub record ChainReport : Type 0 where
  pub ok : Bool
  pub rows : ℕ
  pub first_divergence_id : Option ℕ
  pub detail : Option Text

-- The table and the next value of its sequence.
pub record Trail : Type 0 where
  pub table : List AuditLog
  pub next : ℕ

-- the enumeration's value
abbrev pub level_text : Capability → Text
level_text l0 = codes "L0"
level_text l1 = codes "L1"
level_text l2 = codes "L2"
level_text l3 = codes "L3"
level_text l4 = codes "L4"

abbrev pub level_value : Option Capability → Value
level_value none = Value.null
level_value (some l) = Value.str (level_text l)

abbrev pub text_value : Option Text → Value
text_value none = Value.null
text_value (some s) = Value.str s

-- `prev_hash or ""`
abbrev pub or_blank : Option Text → Text
or_blank none = []
or_blank (some s) = s

-- `text or None`
abbrev pub or_none : Option Text → Option Text
or_none none = none
or_none (some []) = none
or_none (some (c ∷ s)) = some (c ∷ s)

-- `!=`, the other way round
abbrev pub same_hash : Option Text → Option Text → Bool
same_hash none none = true
same_hash (some a) (some b) = text_beq a b
same_hash _ _ = false

module _ (h : Hashing) where
  abbrev pub content_hash : Value → Text
  content_hash v = h.sha256 (h.dumps v)

  -- what the digest signs beside the hash before it
  abbrev pub body : AuditLog → Value
  body r = Value.obj (
      Fields.field (codes "id") (Value.int (ℤ.pos r.id)) (
        Fields.field (codes "occurred_at") (Value.str (h.isoformat r.occurred_at)) (
          Fields.field (codes "actor") (Value.str r.actor) (
            Fields.field (codes "event_type") (Value.str r.event_type) (
              Fields.field (codes "task_id") (text_value r.task_id) (
                Fields.field (codes "action_id") (text_value r.action_id) (
                  Fields.field (codes "capability_level") (level_value r.capability_level)
                    (Fields.field (codes "payload") (Value.obj r.payload) Fields.end))))))))

  -- `[prev_hash or "", canonical body]`
  abbrev pub signed : AuditLog → Value
  signed r = Value.arr (
      Items.cons (Value.str (or_blank r.prev_hash))
        (Items.cons (Value.str (h.dumps (body r))) Items.nil))

  -- `_digest`, of all of a row but its own hash
  unfoldable pub digest : AuditLog → Text
  digest r = content_hash (signed r)

-- `order_by(AuditLog.id)`
abbrev insert_asc : AuditLog → List AuditLog → List AuditLog
insert_asc r [] = r ∷ []
insert_asc r (q ∷ rows) = if ltb q.id r.id then q ∷ insert_asc r rows else r ∷ q ∷ rows

abbrev pub by_id : List AuditLog → List AuditLog
by_id [] = []
by_id (r ∷ rows) = insert_asc r (by_id rows)

-- the hash of the last of the rows in order: `order_by(AuditLog.id.desc()).limit(1)`
abbrev pub last_hash : List AuditLog → Option Text
last_hash [] = none
last_hash (r ∷ []) = some r.hash
last_hash (r ∷ q ∷ rows) = last_hash (q ∷ rows)

module _ (h : Hashing) where
  -- the loop of `verify`, with what it takes to come before
  abbrev pub walk : ℕ → Option Text → List AuditLog → ChainReport
  walk n prev [] = record { ok = true; rows = n; first_divergence_id = none; detail = none }
  walk n prev (r ∷ rest) =
      let later = walk n (some r.hash) rest in
      if same_hash r.prev_hash prev
      then (if text_beq (digest h r) r.hash then later else record {
        ok = false;
        rows = n;
        first_divergence_id = some r.id;
        detail = some (codes "row contents do not match the recorded hash");
      })
      else record {
        ok = false;
        rows = n;
        first_divergence_id = some r.id;
        detail = some (codes "prev_hash does not match the preceding row");
      }

  unfoldable pub verify : Option ℕ → List AuditLog → ChainReport
  verify none table = walk (length table) none (by_id table)
  verify (some start) table =
      let rows = by_id (select (λ r. leb start r.id) table) in
      walk (length rows) (last_hash (by_id (select (λ r. ltb r.id start) table))) rows

  -- `append`, at a moment
  unfoldable pub append :
      Scrubbing
      → List Text
      → ℕ
      → Text
      → Text
      → Option Text
      → Option Text
      → Option Capability
      → Fields
      → Trail
      → AuditLog × Trail
  append s known now actor event_type task_id action_id level payload t =
      let draft : AuditLog = record {
        id = t.next;
        occurred_at = now;
        actor = actor;
        event_type = event_type;
        task_id = task_id;
        action_id = action_id;
        capability_level = level;
        payload = redact_fields s known 1 payload;
        prev_hash = or_none (last_hash (by_id t.table));
        hash = [];
      } in
      let r : AuditLog = record draft { hash = digest h draft } in
      (r, record { table = r ∷ t.table; next = suc t.next })

-- What `records` is asked for: each part narrows the answer where it is given.
pub record Filter : Type 0 where
  pub task_id : Option Text
  pub action_id : Option Text
  pub event_type : Option Text
  pub since : Option ℕ

-- `column == value`, where a value is asked for; an empty column equals nothing
abbrev pub asks : Option Text → Option Text → Bool
asks none column = true
asks (some a) none = false
asks (some a) (some b) = text_beq b a

abbrev pub passes : Filter → AuditLog → Bool
passes f r =
    asks f.task_id r.task_id
    && asks f.action_id r.action_id
    && asks f.event_type (some r.event_type)
    && (elim f.since [ none ↦ true | some moment ↦ leb moment r.occurred_at ])

-- `order_by(AuditLog.id.desc())`
abbrev pub newest_first : List AuditLog → List AuditLog
newest_first [] = []
newest_first (r ∷ rows) = newest_first rows ++ r ∷ []

-- `limit(n)`
abbrev pub limited : ℕ → List AuditLog → List AuditLog
limited zero rows = []
limited (suc n) [] = []
limited (suc n) (r ∷ rows) = r ∷ limited n rows

unfoldable pub records : Filter → ℕ → List AuditLog → List AuditLog
records f limit table = limited limit (newest_first (by_id (select (passes f) table)))
