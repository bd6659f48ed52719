-- ===== src/Prelude/Texts.antt =====
-- Text as a list of code points, with the methods of Python's `str` that the program calls.
use Prim.Native.Nat.{ℕ, zero, suc, ◌-◌, ◌≤◌}
use Prim.Native.Char.{code}
use Prim.Native.String.{String}
use mathlib.Core.Path.{◌≡◌, refl, ap}
use mathlib.Core.Logic.{◌↔◌}
use mathlib.Core.List.{List, [], ◌∷◌, ◌++◌}
use mathlib.Core.Option.{Option, none, some}
use mathlib.Core.Bool.{Bool, true, false, ◌&&◌, ◌||◌}
use native.Mathlib.Omega.{arith}
use vyomel.Prelude.Tests.{if◌then◌else◌, Eq, eqb, leb}
use vyomel.Prelude.Lists.{length, drop, length-append}

abbrev pub Text : Type 0
Text = List ℕ

abbrev pub codes : String → Text
codes String.[] = []
codes (String.◌∷◌ c s) = code c ∷ codes s

abbrev pub text_beq : Text → Text → Bool
text_beq [] [] = true
text_beq [] (b ∷ t) = false
text_beq (a ∷ r) [] = false
text_beq (a ∷ r) (b ∷ t) = eqb a b && text_beq r t

text_beq_sound : (a b : Text) → text_beq a b ≡ true → a ≡ b
text_beq_sound [] [] h = refl
text_beq_sound [] (b ∷ t) h = cc
text_beq_sound (a ∷ r) [] h = cc
text_beq_sound (a ∷ r) (b ∷ t) h = ground (arith, text_beq_sound r t)

text_beq_refl : (a : Text) → text_beq a a ≡ true
text_beq_refl [] = refl
text_beq_refl (a ∷ r) = ground (arith, text_beq_refl r)

pub text_beq_iff : (a b : Text) → (text_beq a b ≡ true) ↔ (a ≡ b)
text_beq_iff a b = (text_beq_sound a b, λ e. rw e (text_beq_refl b))

instance abbrev pub text_eq : Eq Text
text_eq = record { beq = text_beq; beq_iff = text_beq_iff }

-- `s.startswith(p)`
abbrev pub starts_with : Text → Text → Bool
starts_with s [] = true
starts_with [] (b ∷ p) = false
starts_with (a ∷ s) (b ∷ p) = eqb a b && starts_with s p

-- `s.endswith(p)`
abbrev pub ends_with : Text → Text → Bool
ends_with s p = leb (length p) (length s) && text_beq (drop (length s - length p) s) p

-- `s.replace(old, new)` for single characters
abbrev pub replace_char : ℕ → ℕ → Text → Text
replace_char old new [] = []
replace_char old new (c ∷ s) = (if eqb c old then new else c) ∷ replace_char old new s

-- `c in s`
abbrev pub has_char : ℕ → Text → Bool
has_char c [] = false
has_char c (a ∷ s) = eqb a c || has_char c s

-- `s.rsplit(c, 1)[-1]`: what follows the last `c`
abbrev pub last_part : ℕ → Text → Text
last_part c [] = []
last_part c (a ∷ s) =
    let rest = last_part c s in if has_char c s then rest else if eqb a c then s else a ∷ s

-- `s.rstrip(c)`
abbrev pub rstrip : ℕ → Text → Text
rstrip c [] = []
rstrip c (a ∷ s) = let rest = rstrip c s in if eqb a c && text_beq rest [] then [] else a ∷ rest

-- `"://" in s`
abbrev pub has_scheme : Text → Bool
has_scheme [] = false
has_scheme (a ∷ s) = starts_with (a ∷ s) (58 ∷ 47 ∷ 47 ∷ []) || has_scheme s

-- `s.find(c)` from the start: what stands before the first `c`, and behind it
abbrev pub cut : ℕ → Text → Option (Text × Text)
cut c [] = none
cut c (a ∷ s) =
    if eqb a c
    then some ([], s)
    else elim (cut c s) [ none ↦ none | some (before, behind) ↦ some (a ∷ before, behind) ]

drop-length-append : (a b : Text) → drop (length (a ++ b) - length b) (a ++ b) ≡ b
drop-length-append [] b = let e : length b - length b ≡ 0 = omega arith in rw e
drop-length-append (x ∷ a) b =
    let e : suc (length (a ++ b)) - length b ≡ suc (length (a ++ b) - length b) =
      omega (arith, length-append a b) in
    rw e (drop-length-append a b)

take_drop : (n : ℕ) (s : Text) → n ≤ length s → (x : Text) × (s ≡ x ++ drop n s)
take_drop zero s h = ([], refl)
take_drop (suc n) [] h = absurd (omega arith)
take_drop (suc n) (a ∷ s) h = let (x, e) = take_drop n s (omega arith) in (a ∷ x, ap (λ t. a ∷ t) e)

-- A text ends with another exactly when something stands before it.
pub ends_with_iff : (s p : Text) → (ends_with s p ≡ true) ↔ ((x : Text) × (s ≡ x ++ p))
ends_with_iff s p = (
  λ h.
      let (x, e) = take_drop (length s - length p) s (omega arith) in
      (x, rw (text_beq_sound (drop (length s - length p) s) p (ground arith)) at e),
  λ (x, e). rw e (ground (arith, length-append x p, drop-length-append x p, text_beq_refl p)),
)
