-- ===== src/Security/Matching/Laws.antt =====
-- What security/matching.py matches.
use vyomel.Prelude.{
  ℕ, ◌≡◌, ◌∙◌, codes, ◌↔◌, refl, sym, ap, Bool, true, false, not, [], ◌∷◌, ◌++◌, Text, text_eq,
  ends_with, ends_with_iff, rstrip, length, length-append, arith, All, Bool-cases, inl, inr,
  text_beq, text_beq_iff, eqb, has_char,
}
use vyomel.Security.External.{External}
use vyomel.Security.Matching.{token, translate, translate_from, covers, domain_match}

append-ne-tail : (x : Text) (c : ℕ) (d : Text) → x ++ c ∷ d ≡ d → ⊥
append-ne-tail x c d e = omega (arith, length-append x (c ∷ d), ap length e)

covers_wildcard :
    (h d : Text) → (covers h (b'*' ∷ b'.' ∷ d) ≡ true) ↔ ((x : Text) × (h ≡ x ++ b'.' ∷ d))
unfolding covers
covers_wildcard h d = (
  λ m. (ends_with_iff h (b'.' ∷ d)).0 (ground arith),
  λ (x, q).
      let e : ends_with h (b'.' ∷ d) ≡ true = (ends_with_iff h (b'.' ∷ d)).1 (x, q) in
      let f : text_beq h d ≡ false = elim (Bool-cases (text_beq h d)) [
        | inl t ↦ absurd (append-ne-tail x b'.' d (sym q ∙ (text_beq_iff h d).0 t))
        | inr n ↦ n
      ] in
      ground arith,
)

-- A pattern `*.d` matches exactly the hosts that end in `.d`, whatever stands before; `d` itself
-- is no match. Both sides are compared casefolded and without trailing dots.
pub domain_wildcard :
    (ext : External) (host pattern d : Text)
    → rstrip b'.' (ext.casefold pattern) ≡ b'*' ∷ b'.' ∷ d
    → (domain_match ext host pattern ≡ true)
      ↔ ((x : Text) × (rstrip b'.' (ext.casefold host) ≡ x ++ b'.' ∷ d))
unfolding domain_match
domain_wildcard ext host pattern d e = rw e (covers_wildcard _ d)

-- A character that means itself: no wildcard, no bracket, no sign of a regular expression.
abbrev pub is_plain : ℕ → Bool
is_plain c = not (has_char c (codes "*?[.^$+{}()|\\"))

plain_token : (c : ℕ) (s : Text) → is_plain c ≡ true → token c s ≡ (c ∷ [], 0)
unfolding token
plain_token c s h = ground arith

plain_prefix :
    (s t : Text)
    → All (λ c. is_plain c ≡ true) s
    → translate_from (s ++ t) 0 ≡ s ++ translate_from t 0
unfolding translate_from
plain_prefix [] t h = refl
plain_prefix (c ∷ s) t h = rw (plain_token c (s ++ t) h.0) (ap (λ r. c ∷ r) (plain_prefix s t h.1))

plain_rest : (s : Text) → All (λ c. is_plain c ≡ true) s → translate_from s 0 ≡ s ++ b'$' ∷ []
unfolding translate_from
plain_rest [] h = refl
plain_rest (c ∷ s) h = rw (plain_token c s h.0) (ap (λ r. c ∷ r) (plain_rest s h.1))

-- the wildcards, and the expression that each becomes
pub data Wildcard : Type 0 where
  any_dirs one_char : Wildcard

abbrev pub glob_of : Wildcard → Text
glob_of any_dirs = codes "**/"
glob_of one_char = codes "?"

abbrev pub regex_of : Wildcard → Text
regex_of any_dirs = codes "(?:.*/)?"
regex_of one_char = codes "[^/]"

-- Between plain texts, `**/` becomes an optional run of directories and `?` one character that is no
-- separator; the plain texts are copied, and the whole is anchored at both ends.
pub translate_wildcard :
    (a b : Text) (w : Wildcard)
    → All (λ c. is_plain c ≡ true) a
    → All (λ c. is_plain c ≡ true) b
    → translate (a ++ (glob_of w ++ b)) ≡ b'^' ∷ (a ++ (regex_of w ++ (b ++ b'$' ∷ [])))
unfolding translate token
translate_wildcard a b any_dirs ha hb =
    rw (plain_prefix a (codes "**/" ++ b) ha)
      (ap (λ r. b'^' ∷ (a ++ (codes "(?:.*/)?" ++ r))) (plain_rest b hb))
translate_wildcard a b one_char ha hb =
    rw (plain_prefix a (codes "?" ++ b) ha)
      (ap (λ r. b'^' ∷ (a ++ (codes "[^/]" ++ r))) (plain_rest b hb))

-- A single `*` between plain texts crosses no separator.
pub translate_star :
    (a b : Text)
    → All (λ c. is_plain c ≡ true) a
    → All (λ c. is_plain c ≡ true) b
    → translate (a ++ b'*' ∷ b) ≡ b'^' ∷ (a ++ (codes "[^/]*" ++ (b ++ b'$' ∷ [])))
unfolding translate token
translate_star a [] ha hb = rw (plain_prefix a (b'*' ∷ []) ha)
translate_star a (c ∷ b) ha hb =
    let e : eqb c b'*' ≡ false = ground arith in
    rw (plain_prefix a (b'*' ∷ c ∷ b) ha)
      (rw e (ap (λ r. b'^' ∷ (a ++ (codes "[^/]*" ++ r))) (plain_rest (c ∷ b) hb)))
