-- ===== src/Security/Fixture.antt =====
-- A concrete environment, for the runs of the security layer.
use vyomel.Prelude.{none}
use vyomel.Core.Errors.{ok}
use vyomel.Prelude.{true}
use vyomel.Security.External.{External}

-- An environment whose texts are already folded and whose expressions match everything.
abbrev pub plain_external : External
plain_external = record {
  casefold = λ s. s;
  re_match = λ regex subject. ok true;
  hostname = λ value. ok none;
  strip_upper = λ s. s;
  strip = λ s. s;
  from_iso = λ s. none;
  replace = λ old new s. s;
  yaml_load = λ s. ok none;
  content_hash = λ s. s;
}
