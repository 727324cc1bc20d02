-- ===== src/Console/Stree/Forest.antt =====
-- The forests that the nodes of stree hold: a node's children start at left_child, and right_sibling
-- leads to the next.
use miscellaneous_repo.Prelude.{ℕ, zero, suc, ◌+◌, ◌≡◌, Option, none, some, List, [], ◌∷◌, ◌++◌}
use miscellaneous_repo.Console.Stree.{Node, node_or_new}

-- No node, or a node with the forest below it and the forest of its next siblings.
pub data Forest : Type 0 where
  leaf : Forest
  tree : ℕ → Forest → Forest → Forest

abbrev pub size : Forest → ℕ
size leaf = 0
size (tree k cs ss) = suc (size cs + size ss)

-- The keys of the siblings, with their depth.
abbrev pub siblings : ℕ → Forest → List (ℕ × ℕ)
siblings d leaf = []
siblings d (tree k cs ss) = (d, k) ∷ siblings d ss

-- A node before its children, and these before its next sibling.
abbrev pub preorder : ℕ → Forest → List (ℕ × ℕ)
preorder d leaf = []
preorder d (tree k cs ss) = (d, k) ∷ preorder (d + 1) cs ++ preorder d ss

-- The nodes `n` levels below the siblings, from left to right, each with the depth `d`.
abbrev pub level : ℕ → ℕ → Forest → List (ℕ × ℕ)
level d n leaf = []
level d zero (tree k cs ss) = (d, k) ∷ level d zero ss
level d (suc n) (tree k cs ss) = level d n cs ++ level d (suc n) ss

-- `h` levels from the level `n` on, the first at depth `d`.
abbrev pub levels : ℕ → ℕ → ℕ → Forest → List (ℕ × ℕ)
levels zero d n F = []
levels (suc h) d n F = level d n F ++ levels h (d + 1) (suc n) F

-- The forest has at most `h` levels.
abbrev pub AtMost : ℕ → Forest → Type 0
AtMost h leaf = Unit {0}
AtMost zero (tree k cs ss) = ⊥
AtMost (suc h) (tree k cs ss) = AtMost h cs × AtMost (suc h) ss

module _ {D : Type 0} (nodes : ℕ → Option (Node D)) where
  -- The pointers from `o` on hold the forest.
  abbrev pub Shape : Option ℕ → Forest → Type 0
  Shape o leaf = o ≡ none
  Shape o (tree k cs ss) =
      (o ≡ some k)
      × Shape (node_or_new (nodes k)).left_child cs
      × Shape (node_or_new (nodes k)).right_sibling ss
