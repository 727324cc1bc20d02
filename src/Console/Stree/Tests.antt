-- ===== src/Console/Stree/Tests.antt =====
-- The tree of main.cpp, with the text of a node left out.
use miscellaneous_repo.Prelude.{
  ℕ, suc, ◌≡◌, refl, none, some, ◌>>=◌, List, [], ◌∷◌, arith, ◌==◌, if◌then◌else◌,
}
use miscellaneous_repo.Console.Stree.{
  Helper, Stree, set_key, find, pos_from, helper_add_node, add_nodes, add_pos_info, new_stree,
  new_node, get_node, set_node, last_sibling, add_last, add_child, add_node, build_from, build,
  push_children, move_back, depth_loop, depth_traversal, queue_children, breadth_loop,
  breadth_traversal,
}
use miscellaneous_repo.Console.Stree.Forest.{Forest, leaf, tree, Shape}
use miscellaneous_repo.Console.Stree.Depth.{depth_traversal-preorder}
use miscellaneous_repo.Console.Stree.Breadth.{breadth_traversal-levels}
use miscellaneous_repo.Console.Stree.Children.{node, Children, add_node-Children}

-- The children of the root of a small tree: 1 with the child 3, and 2.
abbrev small : Stree ℕ
small = record {
  root = some 0;
  nodes = λ k.
      if k == 0
      then some (record new_node { left_child = some 1 })
      else if k == 1
      then some (record new_node { parent = some 0; left_child = some 3; right_sibling = some 2 })
      else if k == 2
      then some (record new_node { parent = some 0 })
      else if k == 3
      then some (record new_node { parent = some 1 })
      else none;
}

abbrev forest : Forest
forest = tree 1 (tree 3 leaf leaf) (tree 2 leaf leaf)

forest-Shape : Shape small.nodes (some 1) forest
forest-Shape = (refl, (refl, refl, refl), (refl, refl, refl))

depth_traversal-preorder_example :
    depth_traversal 5 small ≡ some ((0, 0) ∷ (1, 1) ∷ (2, 3) ∷ (1, 2) ∷ [])
depth_traversal-preorder_example =
    depth_traversal-preorder small 0 forest 5 refl forest-Shape (omega arith)

breadth_traversal-levels_example :
    breadth_traversal 5 small ≡ some ((0, 0) ∷ (1, 1) ∷ (1, 2) ∷ (2, 3) ∷ [])
breadth_traversal-levels_example =
    breadth_traversal-levels small 0 forest 2 5 refl forest-Shape ((tt, tt), (tt, tt)) (omega arith)

add_node-Children_example :
    (t' : Stree ℕ) × (add_node 3 (record { parent = some 0; left = none; right = none }) 7 70 small
      ≡ some t')
    × Children t' 0 (1 ∷ 2 ∷ 7 ∷ [])
    × ((node t' 7).parent ≡ some 0)
    × ((node t' 7).value ≡ some 70)
add_node-Children_example =
    add_node-Children small 0 7 3 70 (1 ∷ 2 ∷ []) (refl, (refl, refl)) (omega arith)
      (refl, (refl, tt)) refl

-- main's calls of add_pos_info.
abbrev numbered : ℕ → List ℕ → List (ℕ × ℕ)
numbered i [] = []
numbered i (x ∷ xs) = (i, x) ∷ numbered (suc i) xs

abbrev texts : List (ℕ × ℕ)
texts = numbered 0 (0 ∷ 1 ∷ 2 ∷ 3 ∷ 4 ∷ 5 ∷ 6 ∷ 7 ∷ 8 ∷ 9 ∷ 10 ∷ 11 ∷ 12 ∷ 13 ∷ 14 ∷ 15 ∷ [])

abbrev helper : Helper ℕ
helper = add_pos_info 11 (12 ∷ 13 ∷ 14 ∷ []) (
    add_pos_info 8 (9 ∷ 10 ∷ 11 ∷ []) (
      add_pos_info 5 (6 ∷ 7 ∷ 8 ∷ []) (
        add_pos_info 2 (3 ∷ 4 ∷ []) (
          add_pos_info 0 (1 ∷ 2 ∷ 5 ∷ 15 ∷ [])
            (add_nodes texts (record { node_pos = []; node_data = [] }))))))

main_depth :
    (build 20 helper new_stree >>= depth_traversal 20)
    ≡ some (
        (0, 0)
        ∷ (1, 1)
        ∷ (1, 2)
        ∷ (2, 3)
        ∷ (2, 4)
        ∷ (1, 5)
        ∷ (2, 6)
        ∷ (2, 7)
        ∷ (2, 8)
        ∷ (3, 9)
        ∷ (3, 10)
        ∷ (3, 11)
        ∷ (4, 12)
        ∷ (4, 13)
        ∷ (4, 14)
        ∷ (1, 15)
        ∷ [])
unfolding build build_from add_node add_child add_last last_sibling get_node set_node find set_key
    pos_from helper_add_node add_nodes add_pos_info depth_traversal depth_loop push_children
    move_back
main_depth = refl

main_breadth :
    (build 20 helper new_stree >>= breadth_traversal 20)
    ≡ some (
        (0, 0)
        ∷ (1, 1)
        ∷ (1, 2)
        ∷ (1, 5)
        ∷ (1, 15)
        ∷ (2, 3)
        ∷ (2, 4)
        ∷ (2, 6)
        ∷ (2, 7)
        ∷ (2, 8)
        ∷ (3, 9)
        ∷ (3, 10)
        ∷ (3, 11)
        ∷ (4, 12)
        ∷ (4, 13)
        ∷ (4, 14)
        ∷ [])
unfolding build build_from add_node add_child add_last last_sibling get_node set_node find set_key
    pos_from helper_add_node add_nodes add_pos_info breadth_traversal breadth_loop queue_children
main_breadth = refl
