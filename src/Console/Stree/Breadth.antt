-- ===== src/Console/Stree/Breadth.antt =====
-- breadth_traversal.
mod Levels
use miscellaneous_repo.Prelude.{
  ℕ, zero, suc, ◌+◌, ◌-◌, ◌<◌, ◌≤◌, ◌≡◌, refl, sym, ap, ◌∙◌, Option, none, some, ◌>>=◌, List, [],
  ◌∷◌, ◌++◌, append-nil, append_assoc, arith,
}
use miscellaneous_repo.Console.Stree.{
  Stree, Node, node_or_new, queue_children, breadth_loop, breadth_traversal,
}
use miscellaneous_repo.Console.Stree.Forest.{
  Forest, leaf, tree, size, siblings, level, levels, AtMost, Shape,
}
use Levels.{
  beside, under, width, size-under, level-siblings, levels-under, levels-leaf, AtMost-under,
  siblings-beside,
}

module _ {D : Type 0} (t : Stree D) where
  -- The children are queued from left to right.
  queue_children-siblings :
      (F : Forest) (fuel : ℕ) (o : Option ℕ) (d : ℕ) (que : List (ℕ × ℕ))
      → Shape t.nodes o F
      → size F < fuel
      → queue_children fuel o d que t ≡ some (que ++ siblings d F)
  unfolding queue_children
  queue_children-siblings F zero o d que s h = absurd (omega arith)
  queue_children-siblings leaf (suc f) o d que s h = rw (s, queue_children, append-nil que) refl
  queue_children-siblings (tree k cs ss) (suc f) o d que s h =
      rw (s.0, queue_children)
        (queue_children-siblings ss f _ d (que ++ ((d, k) ∷ [])) s.2 (omega arith)
          ∙ ap some (append_assoc que ((d, k) ∷ []) (siblings d ss)))

  -- The left_child of each of the siblings holds its children.
  abbrev Below : ℕ → Forest → Type 0
  Below fuel leaf = Unit {0}
  Below fuel (tree k cs ss) =
      Shape t.nodes (node_or_new (t.nodes k)).left_child cs × (size cs < fuel) × Below fuel ss

  Shape-Below :
      (F : Forest) (o : Option ℕ) (fuel : ℕ) → Shape t.nodes o F → size F < fuel → Below fuel F
  Shape-Below leaf o fuel s h = tt
  Shape-Below (tree k cs ss) o fuel s h =
      (s.1, omega arith, Shape-Below ss _ fuel s.2 (omega arith))

  Below-beside : (F G : Forest) (fuel : ℕ) → Below fuel F → Below fuel G → Below fuel (beside F G)
  Below-beside leaf G fuel b c = c
  Below-beside (tree k cs ss) G fuel b c = (b.0, b.1, Below-beside ss G fuel b.2 c)

  Below-under : (F : Forest) (fuel : ℕ) → Below fuel F → Below fuel (under F)
  Below-under leaf fuel b = tt
  Below-under (tree k cs ss) fuel b =
      Below-beside cs (under ss) fuel (Shape-Below cs _ fuel b.0 b.1) (Below-under ss fuel b.2)

  -- The siblings go from the head of the queue to the result, and their children behind the rest.
  breadth_loop-siblings :
      (F : Forest) (f fuel d : ℕ) (que result : List (ℕ × ℕ))
      → Below fuel F
      → breadth_loop (width F + f) fuel (siblings d F ++ que) result t
        ≡ breadth_loop f fuel (que ++ siblings (d + 1) (under F)) (result ++ siblings d F) t
  unfolding breadth_loop
  breadth_loop-siblings leaf f fuel d que result b =
      ap (λ n. breadth_loop n fuel que result t) (omega arith)
      ∙ ap (λ q. breadth_loop f fuel q result t) (sym (append-nil que))
      ∙ ap (λ r. breadth_loop f fuel (que ++ []) r t) (sym (append-nil result))
  breadth_loop-siblings (tree k cs ss) f fuel d que result b =
      let here = (d, k) ∷ [] in
      let rounds : width (tree k cs ss) + f ≡ suc (width ss + f) = omega arith in
      ap (λ n. breadth_loop n fuel ((d, k) ∷ siblings d ss ++ que) result t) rounds
      ∙ ap (λ v. v >>= λ que'. breadth_loop (width ss + f) fuel que' (result ++ here) t)
          (queue_children-siblings cs fuel _ (d + 1) (siblings d ss ++ que) b.0 b.1)
      ∙ ap (λ q. breadth_loop (width ss + f) fuel q (result ++ here) t)
          (append_assoc (siblings d ss) que (siblings (d + 1) cs))
      ∙ breadth_loop-siblings ss f fuel d (que ++ siblings (d + 1) cs) (result ++ here) b.2
      ∙ ap (λ q. breadth_loop f fuel q ((result ++ here) ++ siblings d ss) t)
          (append_assoc que (siblings (d + 1) cs) (siblings (d + 1) (under ss))
            ∙ ap (λ q. que ++ q) (sym (siblings-beside (d + 1) cs (under ss))))
      ∙ ap (λ r. breadth_loop f fuel (que ++ siblings (d + 1) (beside cs (under ss))) r t)
          (append_assoc result here (siblings d ss))

  breadth_loop-levels :
      (h : ℕ) (F : Forest) (f fuel d : ℕ) (result : List (ℕ × ℕ))
      → Below fuel F
      → AtMost h F
      → breadth_loop (size F + suc f) fuel (siblings d F) result t ≡ some (result ++ levels h d 0 F)
  unfolding breadth_loop
  breadth_loop-levels h leaf f fuel d result b a =
      let rounds : size leaf + suc f ≡ suc f = omega arith in
      ap (λ n. breadth_loop n fuel [] result t) rounds
      ∙ ap some (sym (append-nil result) ∙ ap (λ xs. result ++ xs) (sym (levels-leaf h d 0)))
  breadth_loop-levels zero (tree k cs ss) f fuel d result b a = absurd a
  breadth_loop-levels (suc h) F f fuel d result b a =
      let rounds : size F + suc f ≡ width F + (size (under F) + suc f) =
        omega (arith, size-under F) in
      ap (λ n. breadth_loop n fuel (siblings d F) result t) rounds
      ∙ ap (λ q. breadth_loop (width F + (size (under F) + suc f)) fuel q result t)
          (sym (append-nil (siblings d F)))
      ∙ breadth_loop-siblings F (size (under F) + suc f) fuel d [] result b
      ∙ breadth_loop-levels h (under F) f fuel (d + 1) (result ++ siblings d F)
          (Below-under F fuel b) (AtMost-under h F a)
      ∙ ap some (
          append_assoc result (siblings d F) (levels h (d + 1) 0 (under F))
          ∙ ap (λ xs. result ++ (xs ++ levels h (d + 1) 0 (under F))) (sym (level-siblings d F))
          ∙ ap (λ xs. result ++ (level d 0 F ++ xs)) (sym (levels-under h (d + 1) 0 F)))

  -- When the pointers from the root hold a forest `cs` of children, of at most `h` levels, breadth_traversal
  -- gives the root and then the nodes level by level, each level from left to right, each node with its
  -- depth. It ends within two rounds more than there are nodes below the root.
  pub breadth_traversal-levels :
      (r : ℕ) (cs : Forest) (h fuel : ℕ)
      → t.root ≡ some r
      → Shape t.nodes (node_or_new (t.nodes r)).left_child cs
      → AtMost h cs
      → size cs + 2 ≤ fuel
      → breadth_traversal fuel t ≡ some ((0, r) ∷ levels h 1 0 cs)
  unfolding breadth_traversal breadth_loop
  breadth_traversal-levels r cs h fuel root s a b =
      let f = fuel - (size cs + 2) in
      let rounds : fuel ≡ suc (size cs + suc f) = omega arith in
      ap (λ o. o >>= λ r'. breadth_loop fuel fuel ((0, r') ∷ []) [] t) root
      ∙ ap (λ n. breadth_loop n fuel ((0, r) ∷ []) [] t) rounds
      ∙ ap (λ v. v >>= λ que. breadth_loop (size cs + suc f) fuel que ((0, r) ∷ []) t)
          (queue_children-siblings cs fuel _ 1 [] s (omega arith))
      ∙ breadth_loop-levels h cs f fuel 1 ((0, r) ∷ []) (Shape-Below cs _ fuel s (omega arith)) a
