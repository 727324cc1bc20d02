-- ===== src/Slist/Tests.antt =====
-- A list of one text, and one more.
use miscellaneous_repo.Prelude.{ℕ, ◌≡◌, refl, none, some, [], ◌∷◌}
use miscellaneous_repo.Prelude.{◌>>=◌}
use miscellaneous_repo.Slist.{Snode, Slist, token_list, new_node, add_node, texts}
use miscellaneous_repo.Slist.Append.{IsList, contents, texts-IsList, add_node-appends}

abbrev one : Slist
one = record { size = 1; head = some 3; tail = some 3 }

abbrev one_node : ℕ → Snode
one_node j = record { data_ = b'a' ∷ b'a' ∷ []; next = none }

one-IsList : IsList one one_node (3 ∷ [])
one-IsList = record {
  size = refl;
  head = refl;
  tail = refl;
  linked = (refl, tt);
  distinct = (refl, tt);
}

texts-IsList_example : texts 2 (some 3) one_node ≡ (b'a' ∷ b'a' ∷ []) ∷ []
texts-IsList_example = texts-IsList one one_node (3 ∷ []) one-IsList

add_node-appends_example :
    (l' : Slist) × (nodes' : ℕ → Snode) × (add_node one 4 (new_node 4 (b'b' ∷ []) one_node)
      ≡ some (l', nodes'))
    × IsList l' nodes' (3 ∷ 4 ∷ [])
    × (contents nodes' (3 ∷ 4 ∷ []) ≡ (b'a' ∷ b'a' ∷ []) ∷ (b'b' ∷ []) ∷ [])
add_node-appends_example = add_node-appends one one_node (3 ∷ []) 4 (b'b' ∷ []) one-IsList refl

-- The first two calls of main.
two_texts :
    (do
      a ← add_node token_list 1 (new_node 1 (b'a' ∷ []) one_node)
      b ← add_node (a.0) 2 (new_node 2 (b'b' ∷ []) (a.1))
      some (texts (b.0.size) (b.0.head) (b.1)))
    ≡ some ((b'a' ∷ []) ∷ (b'b' ∷ []) ∷ [])
unfolding add_node new_node texts
two_texts = refl
