-- ===== src/Recursive/Nodes.antt =====
-- The nodes of a recursive skip list: a chain on the lowest level, and links that lead forward in it.
use miscellaneous_repo.Prelude.{
  ℕ, ◌<◌, ◌≡◌, ◌⊎◌, inl, inr, false, Option, none, some, List, [], ◌∷◌, get_elem?, length,
}
use miscellaneous_repo.Prelude.Int.{ℤ, pos, ltb_ℤ}
use miscellaneous_repo.Skiplist.{Ptr}
use miscellaneous_repo.Recursive.{Node, Store}

abbrev pub Mem : ℕ → List ℕ → Type 0
Mem q [] = ⊥
Mem q (y ∷ ys) = (q ≡ y) ⊎ Mem q ys

abbrev pub first : List ℕ → Ptr
first [] = none
first (y ∷ ys) = some y

module _ (s : Store) where
  abbrev pub key_in : Option Node → ℤ
  key_in none = pos 0
  key_in (some n) = n.key

  abbrev pub key_of : ℕ → ℤ
  key_of p = key_in (s.nodes p)

  -- The node has a link of this index.
  abbrev pub Tall : ℕ → ℕ → Type 0
  Tall i q = (m : Node) × (s.nodes q ≡ some m) × (i < length m.link)

  -- A link leads to one of these nodes, which is as high, or it is NULL.
  abbrev pub Leads : ℕ → Ptr → List ℕ → Type 0
  Leads i none ys = Unit {0}
  Leads i (some q) ys = Mem q ys × Tall i q

  -- A node behind which come the nodes `ys`: its lowest link is the first of them, and the others lead to
  -- some of them.
  pub record IsNode (p : ℕ) (ys : List ℕ) : Type 0 where
    pub node : Node
    pub here : s.nodes p ≡ some node
    pub lowest : get_elem? node.link 0 ≡ some (first ys)
    pub links :
        (i : ℕ) → i < length node.link → (q : Ptr) × (get_elem? node.link i ≡ some q) × Leads i q ys

  abbrev pub AreNodes : ℕ → List ℕ → Type 0
  AreNodes p [] = IsNode p []
  AreNodes p (y ∷ ys) = IsNode p (y ∷ ys) × AreNodes y ys

  abbrev pub NotAbove : ℕ → List ℕ → Type 0
  NotAbove y [] = Unit {0}
  NotAbove y (z ∷ zs) = (ltb_ℤ (key_of z) (key_of y) ≡ false) × NotAbove y zs

  -- Keys that do not decrease.
  abbrev pub Ordered : List ℕ → Type 0
  Ordered [] = Unit {0}
  Ordered (y ∷ ys) = NotAbove y ys × Ordered ys

  pub first-IsNode : (p : ℕ) (ys : List ℕ) → AreNodes p ys → IsNode p ys
  first-IsNode p [] a = a
  first-IsNode p (y ∷ ys) a = a.0

  pub NotAbove-Mem :
      (y q : ℕ) (ys : List ℕ) → NotAbove y ys → Mem q ys → ltb_ℤ (key_of q) (key_of y) ≡ false
  NotAbove-Mem y q (z ∷ zs) b (inl e) = rw e b.0
  NotAbove-Mem y q (z ∷ zs) b (inr m) = NotAbove-Mem y q zs b.1 m
  NotAbove-Mem y q [] b m = absurd m
