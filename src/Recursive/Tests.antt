-- ===== src/Recursive/Tests.antt =====
-- A list of two levels without entries.
use miscellaneous_repo.Prelude.{
  ℕ, zero, suc, ◌≡◌, refl, arith, true, Option, none, some, List, [], ◌∷◌, get_elem?, length, inl,
  inr, ◌<◌, ◌==◌, if◌then◌else◌,
}
use miscellaneous_repo.Prelude.Int.{ℤ, pos, negsuc, ◌-ℤ◌}
use miscellaneous_repo.Prelude.{◌>>=◌}
use miscellaneous_repo.Skiplist.Api.{rand_steps}
use miscellaneous_repo.Recursive.{
  Node, Store, sklist_search, sklist_delete, sklist_insert, search_node, insert_node, delete_node,
  rand_level, new_node, link_new, link_at, set_link, ends_or, hits, unlink, destroy_node,
}
use miscellaneous_repo.Skiplist.{Ptr}
use miscellaneous_repo.Recursive.Nodes.{Leads, AreNodes}
use miscellaneous_repo.Recursive.Search.{Answers, sklist_search-Answers}
use miscellaneous_repo.Recursive.Empty.{sklist_delete-none, sklist_search-head}

abbrev head_node : Node
head_node = record { link = none ∷ none ∷ []; level = 2; key = negsuc 0 }

abbrev bare : Store
bare = record {
  head = 0;
  max_level = 2;
  level = 2;
  size = pos 0;
  nodes = λ j. if 0 == j then some head_node else none;
}

two_links : (i : ℕ) → i < 2 → get_elem? head_node.link i ≡ some none
two_links zero h = refl
two_links (suc zero) h = refl
two_links (suc (suc i)) h = absurd (omega arith)

sklist_delete-none_example :
    sklist_delete 5 bare (pos 7) ≡ some (record bare { size = pos 0 -ℤ pos 1 })
sklist_delete-none_example =
    sklist_delete-none bare head_node refl 5 (pos 7) (omega arith) (omega arith) two_links

sklist_search-head_example : sklist_search 3 bare (negsuc 0) ≡ some (some 0)
sklist_search-head_example = sklist_search-head bare head_node refl 3 (omega arith)

-- An entry that is inserted is found, and not after it is deleted.
added : Option Store
added = sklist_insert 9 100 10 (some 4) true bare (pos 6)

found : (do s ← added; sklist_search 9 s (pos 6)) ≡ some (some 4)
unfolding added sklist_search sklist_insert search_node insert_node rand_level rand_steps new_node
    link_new link_at set_link ends_or
found = refl

gone : (do s ← added; s' ← sklist_delete 9 s (pos 6); sklist_search 9 s' (pos 6)) ≡ some none
unfolding added sklist_search sklist_insert search_node insert_node rand_level rand_steps new_node
    link_new link_at set_link ends_or sklist_delete delete_node hits unlink destroy_node
gone = refl

-- Two entries: 1 with the key 3 on one level, and 2 with the key 5 on both.
abbrev node_of : List Ptr → ℤ → Node
node_of link key = record { link = link; level = length link; key = key }

abbrev two : Store
two = record bare {
  nodes = λ j.
      if 0 == j
      then some (node_of (some 1 ∷ some 2 ∷ []) (negsuc 0))
      else if 1 == j
      then some (node_of (some 2 ∷ []) (pos 3))
      else if 2 == j
      then some (node_of (none ∷ none ∷ []) (pos 5))
      else none;
}

head_links :
    (i : ℕ)
    → i < 2
    → (q : Ptr) × (get_elem? (some 1 ∷ some 2 ∷ []) i ≡ some q) × Leads two i q (1 ∷ 2 ∷ [])
head_links zero h = (some 1, refl, (inl refl, (node_of (some 2 ∷ []) (pos 3), refl, omega arith)))
head_links (suc zero) h =
    (some 2, refl, (inr (inl refl), (node_of (none ∷ none ∷ []) (pos 5), refl, omega arith)))
head_links (suc (suc i)) h = absurd (omega arith)

low_links :
    (i : ℕ) → i < 1 → (q : Ptr) × (get_elem? (some 2 ∷ []) i ≡ some q) × Leads two i q (2 ∷ [])
low_links zero h =
    (some 2, refl, (inl refl, (node_of (none ∷ none ∷ []) (pos 5), refl, omega arith)))
low_links (suc i) h = absurd (omega arith)

last_links :
    (i : ℕ) → i < 2 → (q : Ptr) × (get_elem? (none ∷ none ∷ []) i ≡ some q) × Leads two i q []
last_links zero h = (none, refl, tt)
last_links (suc zero) h = (none, refl, tt)
last_links (suc (suc i)) h = absurd (omega arith)

two-AreNodes : AreNodes two 0 (1 ∷ 2 ∷ [])
two-AreNodes = (
  record {
    node = node_of (some 1 ∷ some 2 ∷ []) (negsuc 0);
    here = refl;
    lowest = refl;
    links = head_links;
  },
  (
    record { node = node_of (some 2 ∷ []) (pos 3); here = refl; lowest = refl; links = low_links },
    record {
      node = node_of (none ∷ none ∷ []) (pos 5);
      here = refl;
      lowest = refl;
      links = last_links;
    },
  ),
)

sklist_search-Answers_example : Answers two (pos 5) (sklist_search 9 two (pos 5)) (0 ∷ 1 ∷ 2 ∷ [])
sklist_search-Answers_example =
    sklist_search-Answers two (pos 5) 9 (1 ∷ 2 ∷ []) (omega arith) two-AreNodes
      ((refl, tt), (tt, tt)) (node_of (some 1 ∷ some 2 ∷ []) (negsuc 0), refl, omega arith)
      (omega arith)
