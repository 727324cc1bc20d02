-- ===== src/Console/Stree/Depth.antt =====
-- depth_traversal.
use miscellaneous_repo.Prelude.{
  ℕ, zero, suc, ◌+◌, ◌-◌, ◌<◌, ◌≤◌, ◌≡◌, refl, sym, ap, ◌∙◌, Option, some, ◌>>=◌, List, [], ◌∷◌,
  ◌++◌, append-nil, append_assoc, arith,
}
use miscellaneous_repo.Console.Stree.{
  Stree, node_or_new, push_children, move_back, depth_loop, depth_traversal,
}
use miscellaneous_repo.Console.Stree.Forest.{Forest, leaf, tree, size, siblings, preorder, Shape}

move_back-move_back :
    (xs ys zs : List (ℕ × ℕ)) → move_back (move_back xs ys) zs ≡ move_back ys (xs ++ zs)
unfolding move_back
move_back-move_back [] ys zs = refl
move_back-move_back (x ∷ xs) ys zs = move_back-move_back xs (x ∷ ys) zs

module _ {D : Type 0} (t : Stree D) where
  -- The children are gathered from left to right.
  push_children-siblings :
      (F : Forest) (fuel : ℕ) (o : Option ℕ) (d : ℕ) (vec : List (ℕ × ℕ))
      → Shape t.nodes o F
      → size F < fuel
      → push_children fuel o d vec t ≡ some (move_back (siblings d F) vec)
  unfolding push_children move_back
  push_children-siblings F zero o d vec s h = absurd (omega arith)
  push_children-siblings leaf (suc f) o d vec s h = rw (s, push_children) refl
  push_children-siblings (tree k cs ss) (suc f) o d vec s h =
      rw (s.0, push_children) (push_children-siblings ss f _ d ((d, k) ∷ vec) s.2 (omega arith))

  -- A round takes a node to the result, and puts its children on the stack.
  depth_loop-children :
      (d k : ℕ) (cs : Forest) (f fuel : ℕ) (stack result : List (ℕ × ℕ))
      → Shape t.nodes (node_or_new (t.nodes k)).left_child cs
      → size cs < fuel
      → depth_loop (suc f) fuel ((d, k) ∷ stack) result t
        ≡ depth_loop f fuel (siblings (d + 1) cs ++ stack) (result ++ ((d, k) ∷ [])) t
  unfolding depth_loop move_back
  depth_loop-children d k cs f fuel stack result s h =
      ap (λ v. v >>= λ vec. depth_loop f fuel (move_back vec stack) (result ++ ((d, k) ∷ [])) t)
        (push_children-siblings cs fuel _ (d + 1) [] s h)
      ∙ ap (λ st. depth_loop f fuel st (result ++ ((d, k) ∷ [])) t)
          (move_back-move_back (siblings (d + 1) cs) [] stack)

  depth_loop-preorder :
      (F : Forest) (f fuel : ℕ) (o : Option ℕ) (d : ℕ) (stack result : List (ℕ × ℕ))
      → Shape t.nodes o F
      → size F < fuel
      → depth_loop (size F + f) fuel (siblings d F ++ stack) result t
        ≡ depth_loop f fuel stack (result ++ preorder d F) t
  depth_loop-preorder leaf f fuel o d stack result s h =
      ap (λ n. depth_loop n fuel stack result t) (omega arith)
      ∙ ap (λ r. depth_loop f fuel stack r t) (sym (append-nil result))
  depth_loop-preorder (tree k cs ss) f fuel o d stack result s h =
      let here = (d, k) ∷ [] in
      let below = preorder (d + 1) cs in
      let rounds : size (tree k cs ss) + f ≡ suc (size cs + (size ss + f)) = omega arith in
      ap (λ n. depth_loop n fuel ((d, k) ∷ siblings d ss ++ stack) result t) rounds
      ∙ depth_loop-children d k cs (size cs + (size ss + f)) fuel (siblings d ss ++ stack) result
          s.1 (omega arith)
      ∙ depth_loop-preorder cs (size ss + f) fuel _ (d + 1) (siblings d ss ++ stack)
          (result ++ here) s.1 (omega arith)
      ∙ depth_loop-preorder ss f fuel _ d stack ((result ++ here) ++ below) s.2 (omega arith)
      ∙ ap (λ r. depth_loop f fuel stack r t)
          (append_assoc (result ++ here) below (preorder d ss)
            ∙ append_assoc result here (below ++ preorder d ss))

  -- When the pointers from the root hold a forest `cs` of children, depth_traversal gives the root and then
  -- the nodes in preorder, each with its depth. It ends within two rounds more than there are nodes below
  -- the root.
  pub depth_traversal-preorder :
      (r : ℕ) (cs : Forest) (fuel : ℕ)
      → t.root ≡ some r
      → Shape t.nodes (node_or_new (t.nodes r)).left_child cs
      → size cs + 2 ≤ fuel
      → depth_traversal fuel t ≡ some ((0, r) ∷ preorder 1 cs)
  unfolding depth_traversal depth_loop
  depth_traversal-preorder r cs fuel root s h =
      let f = fuel - (size cs + 2) in
      let rounds : fuel ≡ suc (size cs + suc f) = omega arith in
      ap (λ o. o >>= λ r'. depth_loop fuel fuel ((0, r') ∷ []) [] t) root
      ∙ ap (λ n. depth_loop n fuel ((0, r) ∷ []) [] t) rounds
      ∙ depth_loop-children 0 r cs (size cs + suc f) fuel [] [] s (omega arith)
      ∙ depth_loop-preorder cs (suc f) fuel _ 1 [] ((0, r) ∷ []) s (omega arith)
