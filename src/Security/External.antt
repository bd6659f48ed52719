-- ===== src/Security/External.antt =====
-- What the security layer calls of Python's standard library and does not implement.
use vyomel.Prelude.{ℕ, Bool, Text, Option}
use vyomel.Core.Errors.{Result}
use vyomel.Core.Json.{Value}

pub record External : Type 0 where
  -- `str.casefold`
  pub casefold : Text → Text
  -- `re.compile(regex, re.DOTALL).match(subject) is not None`; `re.error` on a bad expression
  pub re_match : Text → Text → Result Bool
  -- `urlsplit(value).hostname`; `ValueError` on a malformed address
  pub hostname : Text → Result (Option Text)
  -- `value.strip().upper()` and `value.strip()`
  pub strip_upper : Text → Text
  pub strip : Text → Text
  -- `dt.date.fromisoformat`, as a day number
  pub from_iso : Text → Option ℕ
  -- `s.replace(old, new)`
  pub replace : Text → Text → Text → Text
  -- `yaml.safe_load`; `none` for a `YAMLError`; another exception, such as the `ValueError` of a date that
  -- does not exist, is raised
  pub yaml_load : Text → Result (Option Value)
  -- SHA-256 of a text's canonical JSON, in hexadecimal
  pub content_hash : Text → Text
