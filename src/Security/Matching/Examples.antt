-- ===== src/Security/Matching/Examples.antt =====
-- Globs and hosts at concrete inputs.
use vyomel.Prelude.{◌≡◌, ◌↔◌, refl, true, Text, ◌++◌, codes}
use vyomel.Security.Fixture.{plain_external}
use vyomel.Security.Matching.{translate, domain_match}
use vyomel.Security.Matching.Laws.{domain_wildcard}

translate_env : translate (codes "**/[!a]*.env") ≡ codes "^(?:.*/)?[^a][^/]*\\.env$"
unfolding translate
translate_env = refl

domain_wildcard_example :
    (domain_match plain_external (codes "a.example.com") (codes "*.example.com") ≡ true)
    ↔ ((x : Text) × (codes "a.example.com" ≡ x ++ codes ".example.com"))
domain_wildcard_example =
    domain_wildcard plain_external (codes "a.example.com") (codes "*.example.com")
      (codes "example.com") refl
