-- ===== src/Security/Approvals/Usable.antt =====
-- Which approval a dispatch may use: `usable_for` of vyomel/security/approvals.py.
use vyomel.Prelude.{
  All-any, ℕ, ◌≤◌, ◌<◌, ◌≡◌, refl, Bool, true, false, ◌&&◌, none, some, List, [], ◌∷◌, Text,
  text_beq_iff, ltb, select, find_first, find_first-some, find_first-none, arith, ◌⊎◌, inl, inr,
  Bool-cases, Option-cases, All, All-map, ◌↔◌,
}
use vyomel.Core.Types.{Capability, rank}
use vyomel.Security.Approvals.{
  Approval, is_granted, insert_desc, sort_desc, is_candidate, covers, usable_for,
}

-- A row of a table.
pub data InTable (a : Approval) : List Approval → Type 0 where
  here : (rows : List Approval) → InTable a (a ∷ rows)
  later : {rows : List Approval} (b : Approval) → InTable a rows → InTable a (b ∷ rows)

pub All-InTable : (rows : List Approval) → All (λ a. InTable a rows) rows
All-InTable [] = tt
All-InTable (a ∷ rows) = (
  here rows,
  All-map (λ b. InTable b rows) (λ b. InTable b (a ∷ rows)) rows (λ b m. later a m)
      (All-InTable rows),
)

pub InTable-All {κ} :
    (P : Approval → Type κ) {a : Approval} {rows : List Approval}
    → InTable a rows
    → All P rows
    → P a
InTable-All P (here rows) h = h.0
InTable-All P (later b m) h = InTable-All P m h.1

-- A row that gives leave: decided for this action with these parameters, at this level or a higher
-- one, not spent and not past its time.
pub record Qualifies (action_id : ℕ) (params_hash : Text) (level : Capability) (now : ℕ)
    (a : Approval) : Type 0 where
  pub action : a.action_id ≡ action_id
  pub granted : is_granted a.status ≡ true
  pub unspent : a.consumed_at ≡ none
  pub hash : a.parameter_hash ≡ params_hash
  pub level_reached : rank level ≤ rank a.capability_level
  pub in_time : now < a.expires_at

module _ (P : Approval → Type 0) where
  All-insert :
      (b : Approval) (rows : List Approval) → All P (insert_desc b rows) ↔ (P b × All P rows)
  All-insert b [] = ground arith
  All-insert b (c ∷ rows) = elim (Bool-cases (ltb b.id c.id)) [
    | inl e ↦ rw (e) (
        let (f, g) = All-insert b rows in
        (λ h. let k = f h.1 in (k.0, (h.0, k.1)), λ h. (h.1.0, g (h.0, h.1.1))))
    | inr e ↦ rw (e) (λ h. h, λ h. h)
  ]

  All-sort : (rows : List Approval) → All P (sort_desc rows) ↔ All P rows
  All-sort [] = (λ h. h, λ h. h)
  All-sort (b ∷ rows) =
      let (f, g) = All-insert b (sort_desc rows) in
      let (u, v) = All-sort rows in (λ h. let k = f h in (k.0, u k.1), λ h. g (h.0, v h.1))

  All-select :
      (q : Approval → Bool) (rows : List Approval)
      → All P (select q rows) ↔ All (λ b. q b ≡ true → P b) rows
  All-select q [] = (λ h. h, λ h. h)
  All-select q (b ∷ rows) =
      let (f, g) = All-select q rows in
      elim (Bool-cases (q b)) [
        | inl e ↦ rw (e) (λ h. (λ k. h.0, f h.1), λ h. (h.0 refl, g h.1))
        | inr e ↦ rw (e) (λ h. (λ k. cc, f h), λ h. g h.1)
      ]

  All-find :
      (p : Approval → Bool) (rows : List Approval) (a : Approval)
      → All P rows
      → find_first p rows ≡ some a
      → P a
  All-find p [] a h e = ground arith
  All-find p (b ∷ rows) a h e = elim (Bool-cases (p b)) [
    | inl k ↦ let j : b ≡ a = ground (arith, e, k) in rw (← j) h.0
    | inr k ↦ All-find p rows a h.1 (ground (arith, k))
  ]

-- Newest first.
Desc : List Approval → Type 0
Desc [] = Unit
Desc (a ∷ rows) = All (λ b. b.id ≤ a.id) rows × Desc rows

Desc-insert : (a : Approval) (rows : List Approval) → Desc rows → Desc (insert_desc a rows)
unfolding Desc
Desc-insert a [] h = (tt, tt)
Desc-insert a (b ∷ rows) h = elim (Bool-cases (ltb a.id b.id)) [
  | inl e ↦
      rw (e)
        ((All-insert (λ c. c.id ≤ b.id) a rows).1 (ground (arith, e), h.0), Desc-insert a rows h.1)
  | inr e ↦ rw (e) (
    (
      ground (arith, e),
      All-map (λ c. c.id ≤ b.id) (λ c. c.id ≤ a.id) rows (λ c k. ground (arith, e)) h.0,
    ),
    h,
  )
]

Desc-sort : (rows : List Approval) → Desc (sort_desc rows)
unfolding Desc
Desc-sort [] = tt
Desc-sort (a ∷ rows) = Desc-insert a (sort_desc rows) (Desc-sort rows)

find_newest :
    (p : Approval → Bool) (rows : List Approval) (a : Approval)
    → Desc rows
    → find_first p rows ≡ some a
    → All (λ b. p b ≡ true → b.id ≤ a.id) rows
unfolding Desc
find_newest p [] a d e = tt
find_newest p (b ∷ rows) a d e = elim (Bool-cases (p b)) [
  | inl k ↦
      let j : b.id ≡ a.id = ground (arith, e, k) in
      (
        λ q. omega arith,
        All-map (λ c. c.id ≤ b.id) (λ c. p c ≡ true → c.id ≤ a.id) rows (λ c x y. omega arith) d.0,
      )
  | inr k ↦ (λ j. cc, find_newest p rows a d.1 (ground (arith, k)))
]

-- What the loop and its query ask for is what gives leave.
Qualifies-iff :
    (action_id : ℕ) (params_hash : Text) (level : Capability) (now : ℕ) (a : Approval)
    → (is_candidate action_id a && covers params_hash level now a) ≡ true
      ↔ Qualifies action_id params_hash level now a
Qualifies-iff action_id params_hash level now a = (
  λ h. record {
    action = ground arith;
    granted = ground arith;
    unspent = ground arith;
    hash = (text_beq_iff a.parameter_hash params_hash).0 (ground arith);
    level_reached = ground arith;
    in_time = ground arith;
  },
  λ q.
      let h = (text_beq_iff a.parameter_hash params_hash).1 q.hash in
      ground (arith, q.action, q.granted, q.unspent, h, q.level_reached, q.in_time),
)

Qualifies-iff_back :
    (action_id : ℕ) (params_hash : Text) (level : Capability) (now : ℕ) (a : Approval)
    → Qualifies action_id params_hash level now a
    → (is_candidate action_id a ≡ true) × (covers params_hash level now a ≡ true)
Qualifies-iff_back action_id params_hash level now a q =
    ground (arith, (Qualifies-iff action_id params_hash level now a).1 q)

-- The newest row that gives leave, or the proof that none does.
usable_for_cases :
    (action_id : ℕ) (params_hash : Text) (level : Capability) (now : ℕ) (rows : List Approval)
    → ((a : Approval) × (usable_for action_id params_hash level now rows ≡ some a)
        × InTable a rows
        × Qualifies action_id params_hash level now a
        × ((b : Approval)
            → InTable b rows
            → Qualifies action_id params_hash level now b
            → b.id ≤ a.id))
      ⊎ ((usable_for action_id params_hash level now rows ≡ none)
          × ((b : Approval) → InTable b rows → Qualifies action_id params_hash level now b → ⊥))
unfolding usable_for
usable_for_cases action_id params_hash level now rows =
    let c : List Approval = select (is_candidate action_id) rows in
    let p : Approval → Bool = covers params_hash level now in
    elim (Option-cases (find_first p (sort_desc c))) [
      | inl e ↦ inr (
        e,
        λ b m q.
            let k = Qualifies-iff_back action_id params_hash level now b q in
            let f = (All-select (λ x. p x ≡ false) (is_candidate action_id) rows).0 (
              (All-sort (λ x. p x ≡ false) c).0
                (All-any p (sort_desc c) (find_first-none p (sort_desc c) e))) in
            let g = InTable-All (λ x. is_candidate action_id x ≡ true → p x ≡ false) m f k.0 in
            ground (arith, k.1, g),
      )
      | inr (a, e) ↦
          let z : All (λ x. InTable x rows × (is_candidate action_id x ≡ true)) c =
            (All-select (λ x. InTable x rows × (is_candidate action_id x ≡ true))
                (is_candidate action_id) rows).1
              (All-map (λ x. InTable x rows)
                (λ x.
                  is_candidate action_id x ≡ true
                  → InTable x rows × (is_candidate action_id x ≡ true))
                rows (λ x m k. (m, k)) (All-InTable rows)) in
          let (m, k) =
            All-find (λ x. InTable x rows × (is_candidate action_id x ≡ true)) p (sort_desc c) a
              ((All-sort (λ x. InTable x rows × (is_candidate action_id x ≡ true)) c).1 z) e in
          let n = (All-select (λ x. p x ≡ true → x.id ≤ a.id) (is_candidate action_id) rows).0 (
            (All-sort (λ x. p x ≡ true → x.id ≤ a.id) c).0
              (find_newest p (sort_desc c) a (Desc-sort c) e)) in
          inl (
            a,
            e,
            m,
            (Qualifies-iff action_id params_hash level now a).0
                (ground (arith, k, find_first-some p (sort_desc c) a e)),
            λ b m' q.
                let k' = Qualifies-iff_back action_id params_hash level now b q in
                InTable-All (λ x. is_candidate action_id x ≡ true → p x ≡ true → x.id ≤ a.id) m' n
                  k'.0 k'.1,
          )
    ]

-- What `usable_for` returns stands in the table and gives leave: it was granted for this action with
-- these parameters at this level or a higher one, and is neither spent nor past its time.
pub usable_for_sound :
    (action_id : ℕ) (params_hash : Text) (level : Capability) (now : ℕ) (rows : List Approval)
    (a : Approval)
    → usable_for action_id params_hash level now rows ≡ some a
    → InTable a rows × Qualifies action_id params_hash level now a
usable_for_sound action_id params_hash level now rows a h =
    elim (usable_for_cases action_id params_hash level now rows) [
      | inl (b, e, m, q, newest) ↦ let j : b ≡ a = ground (arith, e, h) in rw (← j) (m, q)
      | inr (e, none_does) ↦ ground (arith, e, h)
    ]

-- Where some row of the table gives leave, `usable_for` returns one that does, and none older than it.
pub usable_for_complete :
    (action_id : ℕ) (params_hash : Text) (level : Capability) (now : ℕ) (rows : List Approval)
    (b : Approval)
    → InTable b rows
    → Qualifies action_id params_hash level now b
    → (a : Approval) × (usable_for action_id params_hash level now rows ≡ some a)
      × Qualifies action_id params_hash level now a
      × (b.id ≤ a.id)
usable_for_complete action_id params_hash level now rows b m q =
    elim (usable_for_cases action_id params_hash level now rows) [
      | inl (a, e, k, w, newest) ↦ (a, e, w, newest b m q)
      | inr (e, none_does) ↦ elim (none_does b m q) [ ]
    ]
