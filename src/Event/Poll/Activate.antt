-- ===== src/Event/Poll/Activate.antt =====
-- event_map_active activates the events of a slot, whatever descriptor they have.
use miscellaneous_repo.Prelude.{
  ℕ, zero, suc, ◌<◌, ◌≡◌, refl, sym, ap, ◌∙◌, subst, inl, inr, true, false, not, ◌&&◌, some, List,
  [], ◌∷◌, ◌++◌, append_assoc, arith, ◌==◌, Bool-cases, if◌then◌else◌, length,
}
use miscellaneous_repo.Prelude.Int.{pos}
use miscellaneous_repo.Event.Members.{member, head?, Distinct, Distinct-before, Distinct-behind}
use miscellaneous_repo.Event.{Mask, mask_and, mask_any, Evt, World, Os, ListLib, TreeLib}
use miscellaneous_repo.Event.Ops.{add_active, map_get_slot, slot_of}
use miscellaneous_repo.Event.Ops.Inv.{Inv, in_slot}
use miscellaneous_repo.Event.Ops.Inv.Active.{add_active-Inv}
use miscellaneous_repo.Event.Ops.Deleted.{evts-add_active, slots-add_active, add_active-again}
use miscellaneous_repo.Event.Poll.{activate_from, map_active}

-- An event that is not active and waits for one of these is activated with those it waits for.
abbrev pub activated : Mask → Evt → Evt
activated events e =
    if mask_any (mask_and e.events events) && not e.flags.active
    then record e { res = mask_and e.events events; flags = record (e.flags) { active = true } }
    else e

-- The first entry of a walk, and then the rest.
changed-first :
    (change : Evt → Evt) (x j : ℕ) (xs : List ℕ) (before after : ℕ → Evt)
    → member x xs ≡ false
    → after j ≡ (if x == j then change (before x) else before j)
    → (if member j xs then change (after j) else after j)
      ≡ (if member j (x ∷ xs) then change (before j) else before j)
changed-first change x j xs before after out h = elim (Bool-cases (x == j)) [
  | inl same ↦
      let is_x : x ≡ j = ground arith in
      let no_more : member j xs ≡ false = subst (λ y. member y xs ≡ false) is_x out in
      let now : after j ≡ change (before x) = h ∙ rw same refl in
      rw (same, no_more) (now ∙ ap (λ y. change (before y)) is_x)
  | inr other ↦
      let now : after j ≡ before j = h ∙ rw other refl in
      rw other (ap (λ y. if member j xs then change y else y) now)
]

module _ {E C : Type 0} (os : Os E C) (ll : ListLib C) (tl : TreeLib) (events : Mask) where
  -- The body of the loop.
  abbrev body : ℕ → World E C → World E C
  body p w =
      if mask_any (mask_and (w.evts p).events events)
      then add_active os ll tl p (mask_and (w.evts p).events events) w
      else w

  body-Inv : (p : ℕ) (w : World E C) → Inv ll w → Inv ll (body p w)
  body-Inv p w v = elim (Bool-cases (mask_any (mask_and (w.evts p).events events))) [
    | inl h ↦ rw h (add_active-Inv os ll tl p w v (mask_and (w.evts p).events events))
    | inr h ↦ rw h v
  ]

  slots-body : (p : ℕ) (w : World E C) → (body p w).base.slots ≡ w.base.slots
  slots-body p w = elim (Bool-cases (mask_any (mask_and (w.evts p).events events))) [
    | inl h ↦ rw h (slots-add_active os ll tl p (mask_and (w.evts p).events events) w)
    | inr h ↦ rw h refl
  ]

  evts-body :
      (p : ℕ) (w : World E C) (j : ℕ)
      → (body p w).evts j ≡ (if p == j then activated events (w.evts p) else w.evts j)
  evts-body p w j = elim (Bool-cases (mask_any (mask_and (w.evts p).events events))) [
    | inl h ↦ elim (Bool-cases (w.evts p).flags.active) [
      | inl on ↦
          rw (h, on)
            (ap (λ x. x.evts j)
                (add_active-again os ll tl p (mask_and (w.evts p).events events) w on)
              ∙ ground arith)
      | inr off ↦
          rw (h, off) (evts-add_active os ll tl p (mask_and (w.evts p).events events) w j off)
    ]
    | inr h ↦ rw h (ground arith)
  ]

  -- The slot after the walk over the entries `xs`.
  pub record Activated (xs : List ℕ) (w w' : World E C) : Type 0 where
    pub inv : Inv ll w'
    pub evts : (j : ℕ) → w'.evts j ≡ (if member j xs then activated events (w.evts j) else w.evts j)

  activate_from-Activated :
      (pre xs : List ℕ) (f k : ℕ) (w : World E C)
      → Inv ll w
      → ll.items (w.base.slots k) ≡ pre ++ xs
      → length xs < f
      → Activated xs w (activate_from os ll tl f k (head? xs) events w)
  unfolding activate_from
  activate_from-Activated pre xs zero k w v is h = absurd (omega arith)
  activate_from-Activated pre [] (suc f) k w v is h = record { inv = v; evts = λ j. refl }
  activate_from-Activated pre (x ∷ xs) (suc f) k w v is h =
      let w' = body x w in
      let d = subst Distinct is (v.map.listed k).distinct in
      let same : w'.base.slots k ≡ w.base.slots k = ap (λ s. s k) (slots-body x w) in
      let is' : ll.items (w'.base.slots k) ≡ pre ++ (x ∷ xs) = ap ll.items same ∙ is in
      let next : ll.next (w'.base.slots k) (some x) ≡ head? xs =
        ll.next-entry (w'.base.slots k) pre xs x is' (Distinct-before x pre xs d) in
      let rest =
        activate_from-Activated (pre ++ (x ∷ [])) xs f k w' (body-Inv x w v)
          (is' ∙ sym (append_assoc pre (x ∷ []) xs)) (omega arith) in
      let out = Distinct-behind x pre xs d in
      rw next (record {
        inv = rest.inv;
        evts = λ j.
            rest.evts j
            ∙ changed-first (activated events) x j xs w.evts w'.evts out (evts-body x w j);
      })

  -- event_map_active of a descriptor `n`: of the registered events in the slot of `n`, those that wait for
  -- something that is reported, and are not active, become active, with that as their result. The events
  -- of other descriptors in the slot are activated as well; all else stays, and the invariant holds.
  pub map_active-slot :
      (n : ℕ) (w : World E C)
      → Inv ll w
      → let w' = map_active os ll tl (pos n) events w in
        Inv ll w'
        × ((j : ℕ)
            → w'.evts j ≡ (
                if in_slot w.base.sizemask (slot_of (pos n) w.base.sizemask) (w.evts j)
                then activated events (w.evts j)
                else w.evts j))
  unfolding map_active map_get_slot
  map_active-slot n w v =
      let k = slot_of (pos n) w.base.sizemask in
      let xs = ll.items (w.base.slots k) in
      let a = activate_from-Activated [] xs (suc (length xs)) k w v refl (omega arith) in
      rw (ll.next-head (w.base.slots k)) (
        a.inv,
        λ j.
            a.evts j
            ∙ ap (λ b. if b then activated events (w.evts j) else w.evts j)
                ((v.map.listed k).has j),
      )
