-- ===== src/Security/Matching.antt =====
-- vyomel/security/matching.py: globs become regular expressions; hosts are matched directly.
pub mod Laws
mod Examples
use vyomel.Prelude.{
  ℕ, zero, suc, ◌+◌, Bool, true, false, not, ◌&&◌, ◌||◌, ◌≢◌, Option, none, some, List, [], ◌∷◌,
  ◌++◌, Text, text_eq, codes, ◌==◌, starts_with, ends_with, replace_char, has_char, last_part,
  rstrip, cut, length, drop, if◌then◌else◌, eqb,
}
use vyomel.Core.Errors.{Result, ok, ◌>>=◌}
use vyomel.Core.Json.{Value, Items}
use vyomel.Security.External.{External}

-- `_SPECIAL`
abbrev specials : Text
specials = codes ".^$+{}()|"

-- `body.replace("\\", "\\\\")`
double_backslash : Text → Text
double_backslash [] = []
double_backslash (c ∷ s) =
    let rest = double_backslash s in if eqb c b'\\' then b'\\' ∷ b'\\' ∷ rest else c ∷ rest

-- A class's body, with a leading `!` written `^`.
class_body : Text → Text
class_body [] = []
class_body (c ∷ s) = if eqb c b'!' then b'^' ∷ s else c ∷ s

-- What the loop of `_translate` appends at a character, and how many more characters it passes.
unfoldable pub token : ℕ → Text → Text × ℕ
unfolding double_backslash class_body
token c s =
    if eqb c b'*'
    then (if starts_with s (b'*' ∷ b'/' ∷ [])
        then (codes "(?:.*/)?", 2)
        else if starts_with s (b'*' ∷ [])
        then (codes ".*", 1)
        else (codes "[^/]*", 0))
    else if eqb c b'?'
    then (codes "[^/]", 0)
    else if eqb c b'['
    then elim (cut b']' s) [
      | none ↦ (codes "\\[", 0)
      | some (body, behind) ↦
          (b'[' ∷ (class_body (double_backslash body) ++ b']' ∷ []), length body + 1)
    ]
    else if has_char c specials || eqb c b'\\'
    then (b'\\' ∷ c ∷ [], 0)
    else (c ∷ [], 0)

-- The loop from `i`, as the text from there on; the number counts characters already passed.
unfoldable pub translate_from : Text → ℕ → Text
translate_from [] k = b'$' ∷ []
translate_from (c ∷ s) zero = let (out, k) = token c s in out ++ translate_from s k
translate_from (c ∷ s) (suc k) = translate_from s k

unfoldable pub translate : Text → Text
unfolding translate_from token
translate pattern = b'^' ∷ translate_from pattern 0

-- `domain_match` behind its first two lines
unfoldable pub covers : Text → Text → Bool
covers host pattern =
    if starts_with pattern (b'*' ∷ b'.' ∷ [])
    then ends_with host (drop 1 pattern) && not (host == drop 2 pattern)
    else host == pattern

module _ (ext : External) where
  unfoldable pub normalize : Text → Text
  normalize value = ext.casefold (replace_char b'\\' b'/' value)

  -- `_compiled(pattern).match(subject) is not None`
  unfoldable pub compiled_match : Text → Text → Result Bool
  compiled_match pattern subject = ext.re_match (translate (normalize pattern)) subject

  unfoldable pub glob_match : Text → Text → Result Bool
  unfolding compiled_match
  glob_match value pattern = do
    let subject = normalize value
    whole ← compiled_match pattern subject
    if whole
        then ok true
        else if has_char b'/' (normalize pattern)
        then ok false
        else compiled_match pattern (last_part b'/' subject)

  -- `any_match` on a list of patterns
  unfoldable pub any_globs : Text → List Text → Result Bool
  any_globs value [] = ok false
  any_globs value (p ∷ ps) = do
    hit ← glob_match value p
    if hit then ok true else any_globs value ps

  -- `any(isinstance(p, str) and glob_match(value, p) for p in patterns)`
  unfoldable pub any_items : Text → Items → Result Bool
  any_items value Items.nil = ok false
  any_items value (Items.cons (Value.str p) ps) = do
    hit ← glob_match value p
    if hit then ok true else any_items value ps
  any_items value (Items.cons _ ps) = any_items value ps

  unfoldable pub any_match : Text → Value → Result Bool
  unfolding any_items
  any_match value (Value.str p) = glob_match value p
  any_match value (Value.arr ps) = any_items value ps
  any_match value _ = ok false

  unfoldable pub domain_match : Text → Text → Bool
  unfolding covers
  domain_match host pattern =
      covers (rstrip b'.' (ext.casefold host)) (rstrip b'.' (ext.casefold pattern))
