-- ===== src/Core/Redact.antt =====
-- vyomel/core/logging.py: what is kept out of every log record and audit payload. The calls of `re`
-- and of `str` are parameters.
pub mod Clean
use vyomel.Prelude.{
  ℕ, zero, suc, ◌+◌, ◌≤◌, ◌≡◌, refl, Bool, true, false, ◌&&◌, Option, none, some, List, [], ◌∷◌,
  Text, codes, text_eq, ◌==◌, contains, ltb, leb, length, arith, if◌then◌else◌,
}
use vyomel.Core.Json.{Value, Items, Fields}

pub record Scrubbing : Type 0 where
  -- `s.replace(old, new)`
  pub replace : Text → Text → Text → Text
  -- `re.compile(pattern).sub(new, s)`
  pub re_sub : Text → Text → Text → Text
  -- `str.lower`
  pub lower : Text → Text

abbrev pub redacted : Text
redacted = codes "***REDACTED***"

abbrev secret_patterns : List Text
secret_patterns =
    codes "sk-[A-Za-z0-9_\\-]{20,}"
    ∷ codes "sk-ant-[A-Za-z0-9_\\-]{20,}"
    ∷ codes "gh[pousr]_[A-Za-z0-9]{20,}"
    ∷ codes "-----BEGIN [A-Z ]*PRIVATE KEY-----[\\s\\S]*?-----END [A-Z ]*PRIVATE KEY-----"
    ∷ codes "eyJ[A-Za-z0-9_\\-]{10,}\\.[A-Za-z0-9_\\-]{10,}\\.[A-Za-z0-9_\\-]{10,}"
    ∷ codes "(?i)\\b(?:postgres(?:ql)?|redis|mysql)://[^:\\s]+:[^@\\s]+@"
    ∷ []

abbrev pub secret_keys : List Text
secret_keys =
    codes "password"
    ∷ codes "passwd"
    ∷ codes "secret"
    ∷ codes "token"
    ∷ codes "api_key"
    ∷ codes "apikey"
    ∷ codes "authorization"
    ∷ codes "cookie"
    ∷ codes "session"
    ∷ codes "credential"
    ∷ codes "credentials"
    ∷ codes "private_key"
    ∷ codes "access_token"
    ∷ codes "refresh_token"
    ∷ []

-- `register_secret`: the values that are known to be secret; a set
unfoldable pub register_secret : Text → List Text → List Text
register_secret value known =
    if leb 8 (length value) then (if contains value known then known else value ∷ known) else known

module _ (s : Scrubbing) (known : List Text) where
  replace_all : List Text → Text → Text
  replace_all [] t = t
  replace_all (v ∷ vs) t = replace_all vs (s.replace v redacted t)

  sub_all : List Text → Text → Text
  sub_all [] t = t
  sub_all (p ∷ ps) t = sub_all ps (s.re_sub p redacted t)

  unfoldable pub redact_text : Text → Text
  unfolding replace_all sub_all
  redact_text t = sub_all secret_patterns (replace_all known t)

  abbrev pub is_secret : Text → Bool
  is_secret key = contains (s.lower key) secret_keys

  unfoldable mutual
    pub redact : ℕ → Value → Value
    redact depth (Value.str t) = if ltb 8 depth then Value.str t else Value.str (redact_text t)
    redact depth (Value.obj fs) =
        if ltb 8 depth then Value.obj fs else Value.obj (redact_fields (suc depth) fs)
    redact depth (Value.arr vs) =
        if ltb 8 depth then Value.arr vs else Value.arr (redact_items (suc depth) vs)
    redact depth v = v

    pub redact_fields : ℕ → Fields → Fields
    redact_fields depth Fields.end = Fields.end
    redact_fields depth (Fields.field k v fs) =
        Fields.field k (if is_secret k then Value.str redacted else redact depth v)
          (redact_fields depth fs)

    pub redact_items : ℕ → Items → Items
    redact_items depth Items.nil = Items.nil
    redact_items depth (Items.cons v vs) = Items.cons (redact depth v) (redact_items depth vs)
