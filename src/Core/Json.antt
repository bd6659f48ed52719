-- ===== src/Core/Json.antt =====
-- The values that `json` and `yaml.safe_load` produce, as the program reads them. Mappings have text
-- keys, each once; a number that is no integer, and any other scalar, is `other`, with 0 for the number 0.0.
use vyomel.Prelude.{ℕ, Bool, Text, List, [], ◌∷◌, text_eq, ◌==◌, if◌then◌else◌}

pub data ℤ : Type 0 where
  pos : ℕ → ℤ
  negsuc : ℕ → ℤ

mutual
  pub data Value : Type 0 where
    null : Value
    bool : Bool → Value
    int : ℤ → Value
    str : Text → Value
    -- a date, by its day number, and a moment, by the day it falls on
    date : ℕ → Value
    datetime : ℕ → Value
    other : ℕ → Value
    arr : Items → Value
    obj : Fields → Value

  pub data Items : Type 0 where
    nil : Items
    cons : Value → Items → Items

  pub data Fields : Type 0 where
    end : Fields
    field : Text → Value → Fields → Fields

-- `mapping.get(key, default)`
abbrev pub get_default : Fields → Text → Value → Value
get_default end k d = d
get_default (field j v fs) k d = if j == k then v else get_default fs k d

-- `mapping.get(key)`: Python's `None` for a missing key
abbrev pub get : Fields → Text → Value
get fs k = get_default fs k null

abbrev pub items : Items → List Value
items nil = []
items (cons v vs) = v ∷ items vs

abbrev pub entries : Fields → List (Text × Value)
entries end = []
entries (field k v fs) = (k, v) ∷ entries fs
