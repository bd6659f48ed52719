-- ===== src/Security/Capability/Laws.antt =====
-- What classification promises: levels only rise, and every rise has its reason.
use vyomel.Prelude.{ℕ, ◌≤◌, ◌<◌, ◌≡◌, ◌↔◌, Bool, true, some, [], ◌∷◌, arith, length, length-append}
use vyomel.Core.Types.{Capability, Trust, l4, rank, tool_untrusted, raised_by}
use vyomel.Core.Errors.{ok, >>=-eq-ok}
use vyomel.Security.External.{External}
use vyomel.Security.Capability.{
  EscalationRules, Invocation, Classification, Reason, sensitive_resource, vision_step, taint_step,
  bulk_step, sensitive_step, classify, touches_sensitive_resource,
}

raised_by-rank :
    (c : Capability) (n : ℕ) → (rank c ≤ rank (raised_by c n)) × (rank (raised_by c n) ≤ 4)
unfolding raised_by
raised_by-rank c n = ground arith

-- A step keeps the level or raises it, and adds a reason exactly when it raises it.
record Raises (c d : Classification) : Type 0 where
  up : rank c.level ≤ rank d.level
  because : rank c.level < rank d.level → length c.reasons < length d.reasons
  only : length c.reasons < length d.reasons → rank c.level < rank d.level
  grows : length c.reasons ≤ length d.reasons

vision-Raises :
    (rules : EscalationRules) (tier : ℕ) (c : Classification) → Raises c (vision_step rules tier c)
unfolding vision_step
vision-Raises rules tier c = ground (arith, length-append c.reasons (Reason.vision_tier ∷ []))

taint-Raises :
    (rules : EscalationRules) (c : Classification) (inv : Invocation)
    → Raises c (taint_step rules inv.trust c)
unfolding taint_step
taint-Raises rules c inv = ground (arith, length-append c.reasons (Reason.untrusted_taint ∷ []))

bulk-Raises :
    (rules : EscalationRules) (n : ℕ) (c : Classification) → Raises c (bulk_step rules n c)
unfolding bulk_step
bulk-Raises rules n c = ground (arith, length-append c.reasons (Reason.bulk ∷ []))

sensitive-Raises : (touched : Bool) (c : Classification) → Raises c (sensitive_step touched c)
unfolding sensitive_step
sensitive-Raises touched c = ground (arith, length-append c.reasons (sensitive_resource ∷ []))

raised_by_mono :
    (a b : Capability) (n : ℕ) → rank a ≤ rank b → rank (raised_by a n) ≤ rank (raised_by b n)
unfolding raised_by
raised_by_mono a b n h = ground arith

vision_floor :
    (rules : EscalationRules) (tier : ℕ) (c : Classification)
    → 4 ≤ tier
    → rank rules.vision_tier_minimum ≤ rank (vision_step rules tier c).level
unfolding vision_step
vision_floor rules tier c h = ground arith

taint_floor :
    (rules : EscalationRules) (trust : Trust) (c : Classification)
    → trust ≡ tool_untrusted
    → (rank rules.untrusted_taint_minimum ≤ rank (taint_step rules trust c).level)
      × (rank (raised_by c.level rules.untrusted_taint_levels)
          ≤ rank (taint_step rules trust c).level)
unfolding taint_step
taint_floor rules trust c h = ground arith

bulk_floor :
    (rules : EscalationRules) (n : ℕ) (c : Classification)
    → rules.bulk_threshold < n
    → rank (raised_by c.level rules.bulk_levels) ≤ rank (bulk_step rules n c).level
unfolding bulk_step
bulk_floor rules n c h = ground arith

sensitive_top :
    (touched : Bool) (c : Classification) → touched ≡ true → (sensitive_step touched c).level ≡ l4
unfolding sensitive_step
sensitive_top touched c h = ground arith

Raises-trans : {a b c : Classification} → Raises a b → Raises b c → Raises a c
Raises-trans h k = grind arith

abbrev start : Capability → Classification
start base = record { level = base; reasons = [] }

module _ (ext : External) (rules : EscalationRules) (inv : Invocation) where
  abbrev seen : Capability → Classification
  seen base =
      bulk_step rules inv.affected_count
        (taint_step rules inv.trust (vision_step rules inv.actuation_tier (start base)))

  -- What a successful classification of a known tool is.
  classify-eq-ok :
      {base : Capability} {c : Classification}
      → inv.base ≡ some base
      → classify ext inv rules ≡ ok c
      → (touched : Bool) × (touches_sensitive_resource ext inv.parameters rules ≡ ok touched)
        × (sensitive_step touched (seen base) ≡ c)
  unfolding classify
  classify-eq-ok {base} {c} known h =
      let (touched, t, rest) =
        >>=-eq-ok (touches_sensitive_resource ext inv.parameters rules)
          (λ touched. ok (sensitive_step touched (seen base))) (rw known at h) in
      (touched, t, ground arith)

  seen-Raises : (base : Capability) → Raises (start base) (seen base)
  seen-Raises base =
      Raises-trans
        (Raises-trans (vision-Raises rules inv.actuation_tier (start base))
          (taint-Raises rules _ inv))
        (bulk-Raises rules inv.affected_count _)

  -- A known tool's level is never below the one that it declares, and it is above it exactly when a
  -- reason is given.
  pub classify_never_lowers :
      (base : Capability) (c : Classification)
      → inv.base ≡ some base
      → classify ext inv rules ≡ ok c
      → (rank base ≤ rank c.level) × ((rank base < rank c.level) ↔ (0 < length c.reasons))
  classify_never_lowers base c known h =
      let (touched, t, e) = classify-eq-ok known h in
      let r = Raises-trans (seen-Raises base) (sensitive-Raises touched (seen base)) in
      rw (← e) (r.up, (r.because, r.only))

  -- The floors: content from an untrusted tool, a click by coordinates, a bulk of targets, and a
  -- sensitive resource each leave the level at or above what the rules say.
  pub classify_floors :
      (base : Capability) (c : Classification)
      → inv.base ≡ some base
      → classify ext inv rules ≡ ok c
      → (inv.trust ≡ tool_untrusted
          → (rank rules.untrusted_taint_minimum ≤ rank c.level)
            × (rank (raised_by base rules.untrusted_taint_levels) ≤ rank c.level))
        × (4 ≤ inv.actuation_tier → rank rules.vision_tier_minimum ≤ rank c.level)
        × (rules.bulk_threshold < inv.affected_count
            → rank (raised_by base rules.bulk_levels) ≤ rank c.level)
        × (touches_sensitive_resource ext inv.parameters rules ≡ ok true → c.level ≡ l4)
  classify_floors base c known h =
      let (touched, t, e) = classify-eq-ok known h in
      let v = vision_step rules inv.actuation_tier (start base) in
      let u = taint_step rules inv.trust v in
      let hv = vision-Raises rules inv.actuation_tier (start base) in
      let ht = taint-Raises rules v inv in
      let hb = bulk-Raises rules inv.affected_count u in
      let hs = sensitive-Raises touched (seen base) in
      rw (← e) (
        λ w.
            let f = taint_floor rules inv.trust v w in
            let m = raised_by_mono base v.level rules.untrusted_taint_levels hv.up in
            (omega (arith, f.0, hb.up, hs.up), omega (arith, f.1, m, hb.up, hs.up)),
        λ w.
            omega
              (arith, vision_floor rules inv.actuation_tier (start base) w, ht.up, hb.up, hs.up),
        λ w.
            let m = raised_by_mono base u.level rules.bulk_levels (omega (arith, hv.up, ht.up)) in
            omega (arith, bulk_floor rules inv.affected_count u w, m, hs.up),
        λ w. sensitive_top touched (seen base) (ground (arith, w, t)),
      )

  -- A known tool whose parameters come from an untrusted tool is at or above the rules' minimum for
  -- that, and at least as many levels above its declared one as the rules say, up to the highest.
  pub untrusted_floor :
      (base : Capability) (c : Classification)
      → inv.base ≡ some base
      → classify ext inv rules ≡ ok c
      → inv.trust ≡ tool_untrusted
      → (rank rules.untrusted_taint_minimum ≤ rank c.level)
        × (rank (raised_by base rules.untrusted_taint_levels) ≤ rank c.level)
  untrusted_floor base c known h w = (classify_floors base c known h).0 w

  -- A known tool whose parameters touch a sensitive path or host is at the highest level.
  pub sensitive_floor :
      (base : Capability) (c : Classification)
      → inv.base ≡ some base
      → classify ext inv rules ≡ ok c
      → touches_sensitive_resource ext inv.parameters rules ≡ ok true
      → c.level ≡ l4
  sensitive_floor base c known h w = (classify_floors base c known h).3 w
