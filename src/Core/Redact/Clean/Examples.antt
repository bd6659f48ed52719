-- ===== src/Core/Redact/Clean/Examples.antt =====
-- Redaction at concrete inputs.
use vyomel.Prelude.{◌≡◌, refl, [], codes}
use vyomel.Core.Json.{Value, Fields}
use vyomel.Core.Redact.{Scrubbing, redacted, redact, redact_text}
use vyomel.Core.Redact.Clean.{Clean, redact-Clean}

abbrev plain_scrubbing : Scrubbing
plain_scrubbing = record { replace = λ old new t. t; re_sub = λ pattern new t. t; lower = λ t. t }

abbrev login : Value
login = Value.obj (
    Fields.field (codes "user") (Value.str (codes "u")) (
      Fields.field (codes "auth")
        (Value.obj (Fields.field (codes "token") (Value.str (codes "t")) Fields.end)) Fields.end))

redact-Clean_example : Clean plain_scrubbing [] 0 (redact plain_scrubbing [] 0 login)
redact-Clean_example = redact-Clean plain_scrubbing [] 0 login

token_hidden :
    redact plain_scrubbing [] 0 login
    ≡ Value.obj (
        Fields.field (codes "user") (Value.str (codes "u")) (
          Fields.field
            (codes "auth")
            (Value.obj (Fields.field (codes "token") (Value.str redacted) Fields.end))
            Fields.end))
unfolding redact redact_text
token_hidden = refl
