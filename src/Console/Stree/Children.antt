-- ===== src/Console/Stree/Children.antt =====
-- add_node for a key that names only its parent.
use miscellaneous_repo.Prelude.{
  ℕ, zero, suc, ◌<◌, ◌≡◌, refl, sym, ap, ◌∙◌, inl, inr, true, false, Option, none, some, List, [],
  ◌∷◌, ◌++◌, arith, ◌==◌, ==_iff, subst, Bool-cases, length,
}
use miscellaneous_repo.Console.Stree.{
  Node, Stree, node_or_new, change, get_node, set_node, set_sibling, set_parent, set_left_child,
  last_sibling, add_last, add_child, add_node,
}

abbrev pub Absent : ℕ → List ℕ → Type 0
Absent n [] = Unit {0}
Absent n (x ∷ xs) = ((n == x) ≡ false) × Absent n xs

module _ {D : Type 0} where
  abbrev pub node : Stree D → ℕ → Node D
  node t k = node_or_new (t.nodes k)

  -- The siblings from `o` on are these keys.
  abbrev pub Row : Stree D → Option ℕ → List ℕ → Type 0
  Row t o [] = o ≡ none
  Row t o (x ∷ xs) = (o ≡ some x) × Row t (node t x).right_sibling xs

  -- The children of `p`.
  abbrev pub Children : Stree D → ℕ → List ℕ → Type 0
  Children t p xs = Row t (node t p).left_child xs

  -- A change of one node: at the node, elsewhere, and of a field it keeps.
  node-change_self :
      (f : Node D → Node D) (k : ℕ) (t : Stree D) → node (change f k t) k ≡ f (node t k)
  node-change_self f k t = let self : (k == k) ≡ true = ground arith in rw self refl

  node-change_ne :
      (f : Node D → Node D) (k j : ℕ) (t : Stree D)
      → (k == j) ≡ false
      → node (change f k t) j ≡ node t j
  node-change_ne f k j t e = rw e refl

  node-change_field :
      {B : Type 0} (g : Node D → B) (f : Node D → Node D) (k j : ℕ) (t : Stree D)
      → ((n : Node D) → g (f n) ≡ g n)
      → g (node (change f k t) j) ≡ g (node t j)
  node-change_field g f k j t keeps = elim (Bool-cases (k == j)) [
    | inr e ↦ ap g (node-change_ne f k j t e)
    | inl e ↦ rw e (keeps (node t k) ∙ ap (λ i. g (node t i)) ((==_iff k j).0 e))
  ]

  parent-field :
      {B : Type 0} (g : Node D → B) (t : Stree D) (k p j : ℕ)
      → ((n : Node D) → g (record n { parent = some p }) ≡ g n)
      → g (node (set_parent k p t) j) ≡ g (node t j)
  parent-field g t k p j keeps = node-change_field g (λ n. record n { parent = some p }) k j t keeps

  -- A step that keeps the right_sibling of every node keeps the rows.
  Row-same :
      (t t' : Stree D) (xs : List ℕ) (o : Option ℕ)
      → ((k : ℕ) → (node t' k).right_sibling ≡ (node t k).right_sibling)
      → Row t o xs
      → Row t' o xs
  Row-same t t' [] o same r = r
  Row-same t t' (x ∷ xs) o same r =
      (r.0, Row-same t t' xs _ same (subst (λ o'. Row t o' xs) (sym (same x)) r.1))

  last_sibling-Row :
      (t : Stree D) (x : ℕ) (xs : List ℕ) (fuel n : ℕ)
      → Row t (node t x).right_sibling xs
      → length xs < fuel
      → Absent n (x ∷ xs)
      → (node t n).right_sibling ≡ none
      → (rc : ℕ) × (last_sibling fuel x t ≡ some rc)
        × ((node t rc).right_sibling ≡ none)
        × Row
            (set_sibling rc (some n) t)
            (node (set_sibling rc (some n) t) x).right_sibling
            (xs ++ (n ∷ []))
  unfolding last_sibling
  last_sibling-Row t x xs zero n r h a e = absurd (omega arith)
  last_sibling-Row t x [] (suc f) n r h a e =
      let other : (x == n) ≡ false = ground (arith, a.0) in
      (
        x,
        rw (r, last_sibling) refl,
        r,
        (
          ap (λ m. m.right_sibling)
              (node-change_self (λ m. record m { right_sibling = some n }) x t),
          ap (λ m. m.right_sibling)
                (node-change_ne (λ m. record m { right_sibling = some n }) x n t other)
              ∙ e,
        ),
      )
  last_sibling-Row t x (y ∷ ys) (suc f) n r h a e =
      let (rc, found, last, row) = last_sibling-Row t y ys f n r.1 (omega arith) a.1 e in
      let here : (node t x).right_sibling ≡ some y = r.0 in
      let other : (rc == x) ≡ false = elim (Bool-cases (rc == x)) [
        | inr ne ↦ ne
        | inl eq ↦
            let same : none ≡ some y =
              sym last ∙ ap (λ i. (node t i).right_sibling) ((==_iff rc x).0 eq) ∙ here in
            ground arith
      ] in
      (
        rc,
        rw (here, last_sibling) found,
        last,
        (
          ap (λ m. m.right_sibling)
                (node-change_ne (λ m. record m { right_sibling = some n }) rc x t other)
              ∙ here,
          row,
        ),
      )

  add_last-Children :
      (t : Stree D) (p k fuel : ℕ) (xs : List ℕ)
      → Children t p xs
      → length xs < fuel
      → Absent k xs
      → (node t k).right_sibling ≡ none
      → (t' : Stree D) × (add_last fuel p k t ≡ some t')
        × Children t' p (xs ++ (k ∷ []))
        × ((node t' k).parent ≡ some p)
        × ((node t' k).value ≡ (node t k).value)
  unfolding add_last
  add_last-Children t p k fuel [] c h a e =
      let u = set_left_child p k t in
      (
        set_parent k p u,
        rw (c, add_last) refl,
        (
          parent-field (λ m. m.left_child) u k p p (λ m. refl)
              ∙ ap (λ m. m.left_child)
                  (node-change_self (λ m. record m { left_child = some k }) p t),
          parent-field (λ m. m.right_sibling) u k p k (λ m. refl)
              ∙ node-change_field (λ m. m.right_sibling) (λ m. record m { left_child = some k }) p k
                  t (λ m. refl)
              ∙ e,
        ),
        ap (λ m. m.parent) (node-change_self (λ m. record m { parent = some p }) k u),
        parent-field (λ m. m.value) u k p k (λ m. refl)
            ∙ node-change_field (λ m. m.value) (λ m. record m { left_child = some k }) p k t
                (λ m. refl),
      )
  add_last-Children t p k fuel (x ∷ xs) c h a e =
      let (rc, found, last, row) = last_sibling-Row t x xs fuel k c.1 (omega arith) a e in
      let u = set_sibling rc (some k) t in
      (
        set_parent k p u,
        rw (c.0, add_last) (rw found refl),
        (
          parent-field (λ m. m.left_child) u k p p (λ m. refl)
              ∙ node-change_field (λ m. m.left_child) (λ m. record m { right_sibling = some k }) rc
                  p t (λ m. refl)
              ∙ c.0,
          Row-same u (set_parent k p u) (xs ++ (k ∷ [])) _
              (λ j. parent-field (λ m. m.right_sibling) u k p j (λ m. refl))
              (subst (λ o. Row u o (xs ++ (k ∷ [])))
                (sym (parent-field (λ m. m.right_sibling) u k p x (λ m. refl))) row),
        ),
        ap (λ m. m.parent) (node-change_self (λ m. record m { parent = some p }) k u),
        parent-field (λ m. m.value) u k p k (λ m. refl)
            ∙ node-change_field (λ m. m.value) (λ m. record m { right_sibling = some k }) rc k t
                (λ m. refl),
      )

  kept :
      {B : Type 0} (g : Node D → B) (t : Stree D) (k p : ℕ) (d : D) (j : ℕ)
      → ((n : Node D) → g (record n { value = some d }) ≡ g n)
      → g (node (get_node (some p) (set_node k d t)) j) ≡ g (node t j)
  unfolding get_node set_node
  kept g t k p d j keeps =
      node-change_field g (λ n. n) p j (set_node k d t) (λ n. refl)
      ∙ node-change_field g (λ n. record n { value = some d }) k j t keeps

  -- A new key `k` that names only its parent becomes the last of its children: behind the others, which
  -- keep their order, with its parent set and its data stored. The walk to the last child needs one round
  -- for each.
  pub add_node-Children :
      (t : Stree D) (p k fuel : ℕ) (d : D) (xs : List ℕ)
      → Children t p xs
      → length xs < fuel
      → Absent k xs
      → (node t k).right_sibling ≡ none
      → (t' : Stree D) × (add_node fuel
            (record { parent = some p; left = none; right = none })
            k
            d
            t
          ≡ some t')
        × Children t' p (xs ++ (k ∷ []))
        × ((node t' k).parent ≡ some p)
        × ((node t' k).value ≡ some d)
  unfolding add_node add_child get_node set_node
  add_node-Children t p k fuel d xs c h a e =
      let u = set_node k d t in
      let t₁ = get_node (some p) u in
      let same : (j : ℕ) → (node t₁ j).right_sibling ≡ (node t j).right_sibling =
        λ j. kept (λ m. m.right_sibling) t k p d j (λ m. refl) in
      let children : Children t₁ p xs =
        Row-same t t₁ xs _ same
          (subst (λ o. Row t o xs) (sym (kept (λ m. m.left_child) t k p d p (λ m. refl))) c) in
      let (t', done, row, par, val) = add_last-Children t₁ p k fuel xs children h a (same k ∙ e) in
      (
        t',
        done,
        row,
        par,
        val
            ∙ node-change_field (λ m. m.value) (λ m. m) p k u (λ m. refl)
            ∙ ap (λ m. m.value) (node-change_self (λ m. record m { value = some d }) k t),
      )
