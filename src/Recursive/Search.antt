-- ===== src/Recursive/Search.antt =====
-- sklist_search of skiplist.r.c finds a key exactly where there is one.
use miscellaneous_repo.Prelude.{
  ℕ, zero, suc, ◌+◌, ◌-◌, ◌≤◌, ◌<◌, ◌≡◌, refl, sym, ap, ◌∙◌, subst, ◌⊎◌, inl, inr, true, false,
  Option, none, some, ◌>>=◌, List, [], ◌∷◌, arith, ◌==◌, get_elem?, length, Bool-cases,
}
use mathlib.Core.Option.{some-injective}
use miscellaneous_repo.Prelude.Int.{ℤ, ltb_ℤ}
use miscellaneous_repo.Skiplist.{Ptr}
use miscellaneous_repo.Recursive.{
  Node, Store, link_at, ends_or, search_node, sklist_search, same_key,
}
use miscellaneous_repo.Recursive.Nodes.{
  Mem, first, key_in, key_of, Tall, Leads, IsNode, AreNodes, NotAbove, Ordered, first-IsNode,
  NotAbove-Mem,
}

module _ (s : Store) (key : ℤ) where
  abbrev pub Absent : List ℕ → Type 0
  Absent [] = Unit {0}
  Absent (y ∷ ys) = (same_key (key_of s y) key ≡ false) × Absent ys

  -- A node with the key that is one of `ps`, or none where none has it.
  abbrev pub Says : Ptr → List ℕ → Type 0
  Says none ps = Absent ps
  Says (some q) ps = Mem q ps × (same_key (key_of s q) key ≡ true)

  below_trans : (a b : ℤ) → ltb_ℤ b a ≡ false → ltb_ℤ b key ≡ true → same_key a key ≡ false
  below_trans a b h k = ground arith

  above_trans : (a b : ℤ) → ltb_ℤ b a ≡ false → ltb_ℤ key a ≡ true → same_key b key ≡ false
  above_trans a b h k = ground arith

  not_same_below : (b : ℤ) → ltb_ℤ key b ≡ false → same_key b key ≡ false → ltb_ℤ b key ≡ true
  not_same_below b h k = ground arith

  not_below_self : (b : ℤ) → ltb_ℤ b b ≡ false
  not_below_self b = ground arith

  -- What lies behind a node `q` of `ys`.
  record Jump (q : ℕ) (ys : List ℕ) : Type 0 where
    pub rest : List ℕ
    pub nodes : AreNodes s q rest
    pub ordered : Ordered s rest
    pub shorter : length rest < length ys
    pub covers : ltb_ℤ (key_of s q) key ≡ true → Absent rest → Absent ys
    pub inside : (r : ℕ) → Mem r (q ∷ rest) → Mem r ys

  jump : (p q : ℕ) (ys : List ℕ) → AreNodes s p ys → Ordered s ys → Mem q ys → Jump q ys
  jump p q [] a o m = absurd m
  jump p q (y ∷ ys) a o (inl e) = record {
    rest = ys;
    nodes = subst (λ r. AreNodes s r ys) (sym e) a.1;
    ordered = o.1;
    shorter = omega arith;
    covers =
        λ k b. (below_trans (key_of s y) (key_of s q) (rw e (not_below_self (key_of s y))) k, b);
    inside = λ r. inside_self r;
  }
    where
      inside_self : (r : ℕ) → Mem r (q ∷ ys) → Mem r (y ∷ ys)
      inside_self r (inl same) = inl (same ∙ e)
      inside_self r (inr m) = inr m
  jump p q (y ∷ ys) a o (inr m) =
      let j = jump y q ys a.1 o.1 m in
      record {
        rest = j.rest;
        nodes = j.nodes;
        ordered = j.ordered;
        shorter = omega (arith, j.shorter);
        covers = λ k b.
            (below_trans (key_of s y) (key_of s q) (NotAbove-Mem s y q ys o.0 m) k, j.covers k b);
        inside = λ r m'. inr (j.inside r m');
      }

  above-Absent : (y : ℕ) (ys : List ℕ) → NotAbove s y ys → ltb_ℤ key (key_of s y) ≡ true → Absent ys
  above-Absent y [] b k = tt
  above-Absent y (z ∷ zs) b k =
      (above_trans (key_of s y) (key_of s z) b.0 k, above-Absent y zs b.1 k)

  abbrev Above : Ptr → Type 0
  Above none = Unit {0}
  Above (some q) = ltb_ℤ key (key_of s q) ≡ true

  above_self : (b : ℤ) → ltb_ℤ key b ≡ true → same_key b key ≡ false
  above_self b h = ground arith

  first-Absent : (ys : List ℕ) → Ordered s ys → Above (first ys) → Absent ys
  first-Absent [] o h = tt
  first-Absent (y ∷ ys) o h = (above_self (key_of s y) h, above-Absent y ys o.0 h)

  -- The test goes down, or there is a node to the right that is not above the key.
  ends_or-cases :
      (i : ℕ) (q : Ptr) (ys : List ℕ)
      → Leads s i q ys
      → ((ends_or (ltb_ℤ key) q s ≡ some true) × Above q)
        ⊎ ((r : ℕ) × (q ≡ some r)
            × (ends_or (ltb_ℤ key) q s ≡ some false)
            × (ltb_ℤ key (key_of s r) ≡ false)
            × Mem r ys
            × Tall s i r)
  unfolding ends_or
  ends_or-cases i none ys leads = inl (refl, tt)
  ends_or-cases i (some r) ys (m, (n, here, tall)) =
      let is_key : key_of s r ≡ n.key = ap (key_in s) here in
      elim (Bool-cases (ltb_ℤ key n.key)) [
        | inl b ↦ inl (rw (here, ◌>>=◌) (ap some b), ap (ltb_ℤ key) is_key ∙ b)
        | inr b ↦
            inr
              (r, refl, rw (here, ◌>>=◌) (ap some b), ap (ltb_ℤ key) is_key ∙ b, m, (n, here, tall))
      ]

  module _ (p i : ℕ) (n : Node) (q : Ptr) (f : ℕ) (here : s.nodes p ≡ some n)
      (other : same_key n.key key ≡ false) (link : get_elem? n.link i ≡ some q) where
    search_node-down :
        ends_or (ltb_ℤ key) q s ≡ some true
        → search_node (suc f) (some p) key (suc i) s ≡ (elim (suc i == 1) [
          | true ↦ some none
          | false ↦ search_node f (some p) key (suc i - 1) s
        ])
    unfolding search_node link_at
    search_node-down e = rw here (rw (other, ◌>>=◌) (rw (link, ◌>>=◌) (rw (e, ◌>>=◌) refl)))

    search_node-right :
        ends_or (ltb_ℤ key) q s ≡ some false
        → search_node (suc f) (some p) key (suc i) s ≡ search_node f q key (suc i) s
    unfolding search_node link_at
    search_node-right e = rw here (rw (other, ◌>>=◌) (rw (link, ◌>>=◌) (rw (e, ◌>>=◌) refl)))

  search_node-here :
      (p l f : ℕ) (n : Node)
      → s.nodes p ≡ some n
      → same_key n.key key ≡ true
      → search_node (suc f) (some p) key l s ≡ some (some p)
  unfolding search_node
  search_node-here p l f n here e = rw here (rw (e, ◌>>=◌) refl)

  abbrev pub Answers : Option Ptr → List ℕ → Type 0
  Answers o ps = (r : Ptr) × (o ≡ some r) × Says r ps

  lowest-Above :
      (p i : ℕ) (ys : List ℕ) (n : IsNode s p ys) (q : Ptr)
      → get_elem? n.node.link i ≡ some q
      → i ≡ 0
      → Above q
      → Above (first ys)
  lowest-Above p i ys n q at zero_ above =
      subst Above (some-injective _ _ (sym at ∙ ap (get_elem? n.node.link) zero_ ∙ n.lowest)) above

  -- What a search from a node further on says of the nodes from `p` on.
  widen :
      (p r : ℕ) (ys : List ℕ) (j : Jump r ys) (t : Ptr)
      → same_key (key_of s p) key ≡ false
      → ltb_ℤ key (key_of s r) ≡ false
      → Says t (r ∷ j.rest)
      → Says t (p ∷ ys)
  widen p r ys j none e below says = (e, j.covers (not_same_below (key_of s r) below says.0) says.1)
  widen p r ys j (some u) e below says = (inr (j.inside u says.0), says.1)

  search_node-Answers :
      (f i p : ℕ) (ys : List ℕ)
      → AreNodes s p ys
      → Ordered s ys
      → Tall s i p
      → length ys + suc i < f
      → Answers (search_node f (some p) key (suc i) s) (p ∷ ys)
  search_node-Answers zero i p ys a o tall h = absurd (omega arith)
  search_node-Answers (suc f) i p ys a o (m, here, high) h =
      let n = first-IsNode s p ys a in
      let same : m ≡ n.node = some-injective _ _ (sym here ∙ n.here) in
      let (q, at, leads) = n.links i (subst (λ k. i < length k.link) same high) in
      let is_key : key_of s p ≡ n.node.key = ap (key_in s) n.here in
      elim (Bool-cases (same_key n.node.key key)) [
        | inl e ↦ (
          some p,
          search_node-here p (suc i) f n.node n.here e,
          (inl refl, ap (λ k. same_key k key) is_key ∙ e),
        )
        | inr e ↦
            let other : same_key (key_of s p) key ≡ false = ap (λ k. same_key k key) is_key ∙ e in
            elim (ends_or-cases i q ys leads) [
              | inl down ↦
                  let next = search_node-down p i n.node q f n.here e at down.0 in
                  elim (Bool-cases (suc i == 1)) [
                    | inl bottom ↦
                        let above = lowest-Above p i ys n q at (ground arith) down.1 in
                        (none, next ∙ rw bottom refl, (other, first-Absent ys o above))
                    | inr upper ↦
                        let level : suc i - 1 ≡ suc (i - 1) = ground arith in
                        let (t, found, says) =
                          search_node-Answers f (i - 1) p ys a o (m, here, omega arith)
                            (ground arith) in
                        (
                          t,
                          next
                              ∙ rw upper refl
                              ∙ ap (λ l. search_node f (some p) key l s) level
                              ∙ found,
                          says,
                        )
                  ]
              | inr (r, is_r, right, below, mem, tall) ↦
                  let j = jump p r ys a o mem in
                  let (t, found, says) =
                    search_node-Answers f i r j.rest j.nodes j.ordered tall
                      (omega (arith, j.shorter)) in
                  (
                    t,
                    search_node-right p i n.node q f n.here e at right
                        ∙ ap (λ q'. search_node f q' key (suc i) s) is_r
                        ∙ found,
                    widen p r ys j t other below says,
                  )
            ]
      ]

  -- sklist_search, for a list of at least one level, whose nodes `xs` behind the head do not decrease in
  -- their keys, and whose links lead forward to nodes that are as high: with more fuel than there are nodes
  -- and levels it has no fault and an answer, which is a node of the list, or the head, with the key, or
  -- NULL where neither the head nor any node has the key.
  pub sklist_search-Answers :
      (fuel : ℕ) (xs : List ℕ)
      → 1 ≤ s.level
      → AreNodes s s.head xs
      → Ordered s xs
      → Tall s (s.level - 1) s.head
      → length xs + s.level < fuel
      → Answers (sklist_search fuel s key) (s.head ∷ xs)
  unfolding sklist_search
  sklist_search-Answers fuel xs one a o tall h =
      let top : suc (s.level - 1) ≡ s.level = omega arith in
      subst (λ l. Answers (search_node fuel (some s.head) key l s) (s.head ∷ xs)) top
        (search_node-Answers fuel (s.level - 1) s.head xs a o tall (omega arith))
