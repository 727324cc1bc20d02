-- ===== src/Event/Life/NewBase.antt =====
-- wba_evtbase_new makes a well-formed base.
use Prim.Native.Nat.{bit_and}
use miscellaneous_repo.Prelude.{
  ℕ, zero, suc, ◌%◌, ◌^◌, ◌≤◌, ◌<◌, ◌≡◌, refl, sym, ap, ◌∙◌, inl, inr, Bool, true, false, some,
  List, [], arith, ◌==◌, Bool-cases, ltb, length,
}
use miscellaneous_repo.Event.Members.{Members}
use miscellaneous_repo.Event.{Evt, inorder, Base, Os, ListLib, TreeLib}
use miscellaneous_repo.Event.Ops.Bits.{bit_and-below, bit_and-31}
use miscellaneous_repo.Event.Ops.Inv.{Inv, total, in_slot}
use miscellaneous_repo.Event.Life.{map_size, init_slots, evtbase_new}
use miscellaneous_repo.Event.Life.Laws.{IsIdle}

module _ {E C : Type 0} (os : Os E C) (ll : ListLib C) (tl : TreeLib) where
  -- A head behind the first `n` is what it was.
  init_slots-behind : (n : ℕ) (raw : ℕ → C) (k : ℕ) → n ≤ k → init_slots os ll tl n raw k ≡ raw k
  unfolding init_slots
  init_slots-behind zero raw k h = refl
  init_slots-behind (suc n) raw k h =
      let other : (n == k) ≡ false = ground arith in
      rw other (init_slots-behind n raw k (omega (arith, h)))

  init_slots-below : (n : ℕ) (raw : ℕ → C) (k : ℕ) → k < n → init_slots os ll tl n raw k ≡ ll.init
  unfolding init_slots
  init_slots-below zero raw k h = absurd (omega (arith, h))
  init_slots-below (suc n) raw k h = elim (Bool-cases (n == k)) [
    | inl here ↦ rw here refl
    | inr other ↦ rw other (init_slots-below n raw k (ground (arith, h, other)))
  ]

  init_slots-empty :
      (n : ℕ) (raw : ℕ → C)
      → ((k : ℕ) → n ≤ k → ll.items (raw k) ≡ [])
      → (k : ℕ) → ll.items (init_slots os ll tl n raw k) ≡ []
  init_slots-empty n raw outside k = elim (Bool-cases (ltb k n)) [
    | inl below ↦ ap ll.items (init_slots-below n raw k (ground (arith, below))) ∙ ll.items-init
    | inr behind ↦
        let h : n ≤ k = ground (arith, behind) in
        ap ll.items (init_slots-behind n raw k h) ∙ outside k h
  ]

  total-empty :
      (slots : ℕ → C)
      → ((k : ℕ) → ll.items (slots k) ≡ [])
      → (n : ℕ) → total (λ k. length (ll.items (slots k))) n ≡ 0
  total-empty slots empty zero = refl
  total-empty slots empty (suc n) = rw (empty n) (ground (arith, total-empty slots empty n))

  empty_Members :
      (l : List ℕ) (flag : ℕ → Bool) → l ≡ [] → ((j : ℕ) → flag j ≡ false) → Members l flag
  empty_Members l flag empty off = rw empty (record { has = λ j. sym (off j); distinct = tt })

  -- wba_evtbase_new, where nothing fails, with whatever the array of the list heads holds: for events that
  -- are in no list and no tree, it makes a base that keeps the invariant, with an array of 32 heads, where
  -- the descriptor n belongs to the head n modulo 32.
  pub evtbase_new-Inv :
      (raw : ℕ → C) (env : E) (evts : ℕ → Evt)
      → ((k : ℕ) → 32 ≤ k → ll.items (raw k) ≡ [])
      → ((j : ℕ) → IsIdle (evts j))
      → (b : Base C) × (evtbase_new os ll tl true true true true raw ≡ some b)
        × (b.size ≡ 32)
        × ((n : ℕ) → bit_and n b.sizemask ≡ n % 32)
        × Inv ll (record { env = env; evts = evts; base = b })
  unfolding evtbase_new
  evtbase_new-Inv raw env evts outside idle =
      let empty = init_slots-empty map_size raw outside in
      (
        _,
        refl,
        refl,
        bit_and-31,
        record {
          active = record {
            listed =
                empty_Members (ll.items ll.init) (λ j. (evts j).flags.active) ll.items-init
                  (λ j. (idle j).inactive);
            counted = rw ll.items-init refl;
          };
          time = record {
            listed = unfold inorder in record { has = λ j. sym (idle j).untimed; distinct = tt };
            sorted = unfold inorder in tt;
            registered = λ j h. absurd (ground (arith, h, (idle j).untimed));
          };
          map = record {
            listed = λ k.
                empty_Members (ll.items (init_slots os ll tl map_size raw k))
                  (λ j. in_slot 31 k (evts j)) (empty k) (λ j. rw ((idle j).unreg));
          };
          count = record {
            counted = unfold inorder in refl;
            linked =
                ap (λ n. n % 2 ^ 32)
                  (sym (total-empty (init_slots os ll tl map_size raw) empty map_size));
            fits = λ n. omega (arith, bit_and-below n 31);
          };
        },
      )
