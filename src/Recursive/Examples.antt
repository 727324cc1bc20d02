-- ===== src/Recursive/Examples.antt =====
-- Two entries, 3 on one level and 5 on both, and calls from a new list on.
use miscellaneous_repo.Prelude.{
  ℕ, zero, suc, ◌≡◌, refl, arith, true, Option, none, some, List, [], ◌∷◌, ◌<◌, ◌>>=◌, ◌==◌,
  if◌then◌else◌, length,
}
use miscellaneous_repo.Prelude.Int.{ℤ, pos, negsuc}
use miscellaneous_repo.Skiplist.{Ptr}
use miscellaneous_repo.Skiplist.Api.{rand_steps}
use miscellaneous_repo.Recursive.{
  Node, Store, sklist_init, sklist_search, sklist_delete, sklist_insert, insert_node, delete_node,
  rand_level, new_node, link_new, link_at, set_link, ends_or, hits, unlink, destroy_node,
}
use miscellaneous_repo.Recursive.Rows.{Entry, row, link_of, key_at, Row}
use miscellaneous_repo.Recursive.Walk.{IsList}
use miscellaneous_repo.Recursive.Insert.{Inserted, sklist_insert-Inserted}
use miscellaneous_repo.Recursive.Delete.{Deleted, sklist_delete-Deleted}
use miscellaneous_repo.Recursive.Lookup.{Answers, sklist_search-Finds}
use miscellaneous_repo.Recursive.Keys.{Op, insert, delete, after, has, is_some}
use miscellaneous_repo.Recursive.Run.{empty, run, all_free, run-has}

abbrev node_of : List Ptr → ℤ → Node
node_of link key = record { link = link; level = length link; key = key }

abbrev two : Store
two = record {
  head = 0;
  max_level = 2;
  level = 2;
  size = pos 2;
  nodes = λ j.
      if 0 == j
      then some (node_of (some 1 ∷ some 2 ∷ []) (negsuc 0))
      else if 1 == j
      then some (node_of (some 2 ∷ []) (pos 3))
      else if 2 == j
      then some (node_of (none ∷ none ∷ []) (pos 5))
      else none;
}

abbrev two_entries : List Entry
two_entries =
    record { block = 1; height = 1; key = pos 3 }
    ∷ record { block = 2; height = 2; key = pos 5 }
    ∷ []

two_rows : (j : ℕ) → j < 2 → Row two.nodes j 0 (row j two_entries)
unfolding link_of key_at
two_rows zero h = (refl, refl, (refl, refl, refl))
two_rows (suc zero) h = (refl, refl, refl)
two_rows (suc (suc j)) h = absurd (omega arith)

two-IsList : IsList two two_entries
unfolding key_at
two-IsList = record {
  rows = two_rows;
  low = omega arith;
  head_key = refl;
  heights = ((omega arith, omega arith), ((omega arith, omega arith), tt));
  ordered = ((refl, tt), (tt, tt));
  distinct = (
    ((λ e. absurd (omega arith)), ((λ e. absurd (omega arith)), tt)),
    (((λ e. absurd (omega arith)), tt), tt),
  );
}

sklist_insert-Inserted_example :
    Inserted two two_entries 7 (pos 4) (sklist_insert 9 100 10 (some 7) true two (pos 4))
sklist_insert-Inserted_example =
    sklist_insert-Inserted 9 100 10 7 two (pos 4) two_entries two-IsList (omega arith) (omega arith)
      refl (omega arith)

sklist_delete-Deleted_example : Deleted two two_entries (pos 5) (sklist_delete 9 two (pos 5))
sklist_delete-Deleted_example =
    sklist_delete-Deleted 9 two (pos 5) two_entries two-IsList (omega arith) (omega arith)

sklist_search-Finds_example : Answers (pos 5) (sklist_search 9 two (pos 5)) two_entries
sklist_search-Finds_example =
    sklist_search-Finds (pos 5) two two_entries two-IsList 9 (omega arith) refl (omega arith)

-- The same key twice, the second one higher; the block 4 is given again after it has been freed.
abbrev ops : List Op
ops = insert 100 4 (pos 6) ∷ insert 10 5 (pos 6) ∷ delete (pos 6) ∷ insert 10 4 (pos 2) ∷ []

abbrev nothing : ℕ → Option Node
nothing j = none

ops_free : all_free 100 20 (insert 10 3 (pos 9) ∷ ops) (empty 0 nothing 3) ≡ true
unfolding sklist_insert insert_node rand_level rand_steps new_node link_new link_at set_link ends_or
    sklist_delete delete_node hits unlink destroy_node
ops_free = refl

run-has_example :
    (r : Ptr) × ((do
      s ← sklist_init true (some 0) true nothing 3
      s' ← run 100 20 (insert 10 3 (pos 9) ∷ ops) s
      sklist_search 20 s' (pos 6))
      ≡ some r)
    × (is_some r ≡ has (pos 6) (after (insert 10 3 (pos 9) ∷ ops) []))
run-has_example =
    run-has 100 20 3 (omega arith) (omega arith) 0 nothing 10 3 (pos 9) ops (pos 6) ops_free refl
      (omega arith)
