-- ===== src/Core/Redact/Clean.antt =====
-- What `redact` of vyomel/core/logging.py leaves of a value.
mod Examples
use vyomel.Prelude.{
  ℕ, suc, ◌≤◌, ◌<◌, ◌≡◌, refl, Bool, true, false, List, Text, ltb, arith, if◌then◌else◌, Bool-cases,
  inl, inr, ◌⊎◌,
}
use vyomel.Core.Json.{Value, Items, Fields}
use vyomel.Core.Redact.{
  Scrubbing, redacted, redact_text, is_secret, redact, redact_fields, redact_items,
}

too_deep : (depth : ℕ) → ltb 8 depth ≡ true → 8 < depth
too_deep depth e = ground arith

hidden :
    (b : Bool) (v : Value)
    → (b ≡ false) ⊎ ((if b then Value.str redacted else v) ≡ Value.str redacted)
hidden true v = inr refl
hidden false v = inl refl

module _ (s : Scrubbing) (known : List Text) where
  -- To eight levels down, no field whose key names a secret holds anything but the placeholder.
  unfoldable mutual
    pub Clean : ℕ → Value → Type 0
    Clean depth (Value.obj fs) = (8 < depth) ⊎ CleanFields (suc depth) fs
    Clean depth (Value.arr vs) = (8 < depth) ⊎ CleanItems (suc depth) vs
    Clean depth v = Unit

    pub CleanFields : ℕ → Fields → Type 0
    CleanFields depth Fields.end = Unit
    CleanFields depth (Fields.field k v fs) =
        ((is_secret s known k ≡ false) ⊎ (v ≡ Value.str redacted))
        × Clean depth v
        × CleanFields depth fs

    pub CleanItems : ℕ → Items → Type 0
    CleanItems depth Items.nil = Unit
    CleanItems depth (Items.cons v vs) = Clean depth v × CleanItems depth vs

  Clean-redacted :
      (depth : ℕ) (b : Bool) (v w : Value)
      → Clean depth v
      → Clean depth w
      → Clean depth (if b then v else w)
  Clean-redacted depth true v w h k = h
  Clean-redacted depth false v w h k = k

  obj-Clean :
      (depth : ℕ) (fs gs : Fields)
      → CleanFields (suc depth) gs
      → Clean depth (if ltb 8 depth then Value.obj fs else Value.obj gs)
  unfolding Clean
  obj-Clean depth fs gs h = elim (Bool-cases (ltb 8 depth)) [
    | inl e ↦ rw (e) (inl (too_deep depth e))
    | inr e ↦ rw (e) (inr h)
  ]

  arr-Clean :
      (depth : ℕ) (vs ws : Items)
      → CleanItems (suc depth) ws
      → Clean depth (if ltb 8 depth then Value.arr vs else Value.arr ws)
  unfolding Clean
  arr-Clean depth vs ws h = elim (Bool-cases (ltb 8 depth)) [
    | inl e ↦ rw (e) (inl (too_deep depth e))
    | inr e ↦ rw (e) (inr h)
  ]

  str-Clean :
      (depth : ℕ) (b : Bool) (t u : Text) → Clean depth (if b then Value.str t else Value.str u)
  unfolding Clean
  str-Clean depth true t u = tt
  str-Clean depth false t u = tt

  mutual
    unfolding redact Clean

    -- What `redact` gives, called at the depth it starts at, holds no value under a secret's key down
    -- to the eighth level, whatever `re` and `str` do.
    value-Clean : (depth : ℕ) (v : Value) → Clean depth (redact s known depth v)
    value-Clean depth (Value.obj fs) =
        obj-Clean depth fs (redact_fields s known (suc depth) fs) (fields_clean (suc depth) fs)
    value-Clean depth (Value.arr vs) =
        arr-Clean depth vs (redact_items s known (suc depth) vs) (items_clean (suc depth) vs)
    value-Clean depth (Value.str t) = str-Clean depth (ltb 8 depth) t (redact_text s known t)
    value-Clean depth Value.null = tt
    value-Clean depth (Value.bool b) = tt
    value-Clean depth (Value.int z) = tt
    value-Clean depth (Value.date n) = tt
    value-Clean depth (Value.datetime n) = tt
    value-Clean depth (Value.other n) = tt

    pub fields_clean :
        (depth : ℕ) (fs : Fields) → CleanFields depth (redact_fields s known depth fs)
    fields_clean depth Fields.end = tt
    fields_clean depth (Fields.field k v fs) = (
      hidden (is_secret s known k) (redact s known depth v),
      Clean-redacted depth (is_secret s known k) (Value.str redacted) (redact s known depth v) tt
          (value-Clean depth v),
      fields_clean depth fs,
    )

    items_clean : (depth : ℕ) (vs : Items) → CleanItems depth (redact_items s known depth vs)
    items_clean depth Items.nil = tt
    items_clean depth (Items.cons v vs) = (value-Clean depth v, items_clean depth vs)

  -- What `redact` gives, at whatever depth it is called, holds no value under a secret's key down to
  -- the eighth level, whatever `re` and `str` do.
  pub redact-Clean : (depth : ℕ) (v : Value) → Clean depth (redact s known depth v)
  redact-Clean = value-Clean
