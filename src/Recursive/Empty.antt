-- ===== src/Recursive/Empty.antt =====
-- What skiplist.r.c does with a list that holds no key.
use miscellaneous_repo.Prelude.{
  ℕ, zero, suc, ◌-◌, ◌≤◌, ◌<◌, ◌≡◌, refl, ap, ◌∙◌, true, false, none, some, arith, ◌==◌, get_elem?,
}
use miscellaneous_repo.Prelude.Int.{ℤ, pos, ◌-ℤ◌}
use miscellaneous_repo.Prelude.{◌>>=◌}
use miscellaneous_repo.Recursive.{
  Node, Store, link_at, ends_or, hits, delete_node, sklist_delete, search_node, sklist_search,
  same_key,
}

module _ (s : Store) (n : Node) (here : s.nodes s.head ≡ some n) where
  delete_node-none :
      (key : ℤ) (l f : ℕ)
      → l < f
      → ((i : ℕ) → i ≤ l → get_elem? n.link i ≡ some none)
      → delete_node f s.head key (suc l) s ≡ some s
  unfolding delete_node link_at ends_or hits
  delete_node-none key l zero lt h = absurd (omega arith)
  delete_node-none key zero (suc f) lt h = rw (here, h 0 (omega arith)) refl
  delete_node-none key (suc l) (suc f) lt h =
      let more : (suc (suc l) == 1) ≡ false = ground arith in
      let less : suc (suc l) - 1 ≡ suc l = omega arith in
      rw (here, h (suc l) (omega arith), more, less)
        (delete_node-none key l f (omega arith) (λ i le. h i (omega arith)))

  -- sklist_delete, for a list of at least one level whose head has no node behind it: nothing is deleted,
  -- and yet `size` goes down by one.
  pub sklist_delete-none :
      (fuel : ℕ) (key : ℤ)
      → 1 ≤ s.level
      → s.level < fuel
      → ((i : ℕ) → i < s.level → get_elem? n.link i ≡ some none)
      → sklist_delete fuel s key ≡ some (record s { size = s.size -ℤ pos 1 })
  unfolding sklist_delete
  sklist_delete-none fuel key one lt h =
      let l = s.level - 1 in
      let e : s.level ≡ suc l = omega arith in
      let done : delete_node fuel s.head key s.level s ≡ some s =
        ap (λ k. delete_node fuel s.head key k s) e
        ∙ delete_node-none key l fuel (omega arith) (λ i le. h i (omega arith)) in
      rw done refl

  same_key_refl : (k : ℤ) → same_key k k ≡ true
  same_key_refl k = ground arith

  -- sklist_search for the key of the head, which is -1 in a new list, finds the head, which holds no
  -- entry, whatever the list holds.
  pub sklist_search-head : (fuel : ℕ) → 0 < fuel → sklist_search fuel s n.key ≡ some (some s.head)
  unfolding sklist_search search_node
  sklist_search-head zero lt = absurd (omega arith)
  sklist_search-head (suc f) lt = rw here (rw (same_key_refl n.key, ◌>>=◌) refl)
