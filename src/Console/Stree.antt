-- ===== src/Console/Stree.antt =====
-- cpp_console/stree.h: a tree of keys, built from the neighbours of each key, and its two traversals.
-- Keys are numbers, as in main, and a tree has one node for each key, so a node pointer is its key, `none`
-- for NULL. A std::map is the list of its pairs in the order of the keys. The loops along siblings and the
-- traversals have fuel; `none` is its end, or a root that was never set.
pub mod Forest
pub mod Depth
pub mod Breadth
pub mod Children
mod Tests
use miscellaneous_repo.Prelude.{
  ℕ, zero, suc, ◌+◌, Bool, true, false, ◌&&◌, Option, none, some, ◌>>=◌, List, [], ◌∷◌, ◌++◌, ltb,
  ◌==◌, if◌then◌else◌, length,
}

module _ {V : Type 0} where
  -- `m[k] = v`
  pub set_key : ℕ → V → List (ℕ × V) → List (ℕ × V)
  set_key k v [] = (k, v) ∷ []
  set_key k v ((j, u) ∷ m) =
      if ltb k j then (k, v) ∷ (j, u) ∷ m else if k == j then (k, v) ∷ m else (j, u) ∷ set_key k v m

  pub find : ℕ → List (ℕ × V) → Option V
  find k [] = none
  find k ((j, u) ∷ m) = if k == j then some u else find k m

-- stree_node_pos.
pub record Pos : Type 0 where
  pub parent : Option ℕ
  pub left : Option ℕ
  pub right : Option ℕ

abbrev pub no_pos : Pos
no_pos = record { parent = none; left = none; right = none }

abbrev pub head_key : List ℕ → Option ℕ
head_key [] = none
head_key (x ∷ xs) = some x

-- stree_helper.
pub record Helper (D : Type 0) : Type 0 where
  pub node_pos : List (ℕ × Pos)
  pub node_data : List (ℕ × D)

-- The loop of add_pos_info, where `left` is the key before.
pub pos_from : ℕ → Option ℕ → List ℕ → List (ℕ × Pos) → List (ℕ × Pos)
pos_from p left [] m = m
pos_from p left (x ∷ xs) m =
    pos_from p (some x) xs
      (set_key x (record { parent = some p; left = left; right = head_key xs }) m)

abbrev pub is_missing : Option Pos → Bool
is_missing none = true
is_missing (some p) = false

module _ {D : Type 0} where
  pub helper_add_node : ℕ → D → Helper D → Helper D
  helper_add_node k d h = record h { node_data = set_key k d h.node_data }

  pub add_nodes : List (ℕ × D) → Helper D → Helper D
  add_nodes [] h = h
  add_nodes ((k, d) ∷ vec) h = add_nodes vec (helper_add_node k d h)

  pub add_pos_info : ℕ → List ℕ → Helper D → Helper D
  add_pos_info p [] h = h
  add_pos_info p (x ∷ xs) h =
      let m = if is_missing (find p h.node_pos) then set_key p no_pos h.node_pos else h.node_pos in
      record h { node_pos = pos_from p none (x ∷ xs) m }

-- `while (!vec.empty()) { stack.push_back(vec.back()); vec.pop_back(); }`
pub move_back : List (ℕ × ℕ) → List (ℕ × ℕ) → List (ℕ × ℕ)
move_back [] stack = stack
move_back (n ∷ vec) stack = move_back vec (n ∷ stack)

-- stree_node; the data of a node that has only been named is not set.
pub record Node (D : Type 0) : Type 0 where
  pub value : Option D
  pub parent : Option ℕ
  pub left_child : Option ℕ
  pub right_sibling : Option ℕ

-- `root` is `none` before it is assigned: the class has no constructor that sets it.
pub record Stree (D : Type 0) : Type 0 where
  pub root : Option ℕ
  pub nodes : ℕ → Option (Node D)

module _ {D : Type 0} where
  abbrev pub new_stree : Stree D
  new_stree = record { root = none; nodes = λ k. none }

  abbrev pub new_node : Node D
  new_node = record { value = none; parent = none; left_child = none; right_sibling = none }

  abbrev pub node_or_new : Option (Node D) → Node D
  node_or_new none = new_node
  node_or_new (some n) = n

  -- `*get_node(k)` is changed, and made where it is not there.
  abbrev pub change : (Node D → Node D) → ℕ → Stree D → Stree D
  change f k t = record t {
    nodes = λ j. if k == j then some (f (node_or_new (t.nodes k))) else t.nodes j;
  }

  pub get_node : Option ℕ → Stree D → Stree D
  get_node none t = t
  get_node (some k) t = change (λ n. n) k t

  pub set_node : ℕ → D → Stree D → Stree D
  set_node k d t = change (λ n. record n { value = some d }) k t

  abbrev pub set_sibling : ℕ → Option ℕ → Stree D → Stree D
  set_sibling k r = change (λ n. record n { right_sibling = r }) k

  abbrev pub set_parent : ℕ → ℕ → Stree D → Stree D
  set_parent k p = change (λ n. record n { parent = some p }) k

  abbrev pub set_left_child : ℕ → ℕ → Stree D → Stree D
  set_left_child p k = change (λ n. record n { left_child = some k }) p

  -- The loop of rightmost_child, from `q` on.
  pub last_sibling : ℕ → ℕ → Stree D → Option ℕ
  last_sibling zero q t = none
  last_sibling (suc f) q t = elim (node_or_new (t.nodes q)).right_sibling [
    | none ↦ some q
    | some r ↦ last_sibling f r t
  ]

  -- A key without neighbours goes behind the last child.
  pub add_last : ℕ → ℕ → ℕ → Stree D → Option (Stree D)
  add_last fuel p n t = elim (node_or_new (t.nodes p)).left_child [
    | none ↦ some (set_parent n p (set_left_child p n t))
    | some q ↦ do rc ← last_sibling fuel q t; some (set_parent n p (set_sibling rc (some n) t))
  ]

  pub add_child : ℕ → Option ℕ → Option ℕ → Option ℕ → ℕ → Stree D → Option (Stree D)
  add_child fuel none l r n t = some (record t { root = some n })
  add_child fuel (some p) (some l) (some r) n t =
      some (set_sibling n (some r) (set_parent n p (set_sibling l (some n) t)))
  add_child fuel (some p) (some l) none n t = some (set_parent n p (set_sibling l (some n) t))
  add_child fuel (some p) none (some r) n t =
      some (set_left_child p n (set_parent n p (set_sibling n (some r) t)))
  add_child fuel (some p) none none n t = add_last fuel p n t

  pub add_node : ℕ → Pos → ℕ → D → Stree D → Option (Stree D)
  add_node fuel pos k d t =
      add_child fuel pos.parent pos.left pos.right k
        (get_node pos.right (get_node pos.left (get_node pos.parent (set_node k d t))))

  -- The loop of build, over the data in the order of the keys.
  pub build_from : ℕ → List (ℕ × Pos) → List (ℕ × D) → Stree D → Option (Stree D)
  build_from fuel node_pos [] t = some t
  build_from fuel node_pos ((k, d) ∷ vec) t = elim (find k node_pos) [
    | none ↦ build_from fuel node_pos vec t
    | some pos ↦ do t' ← add_node fuel pos k d t; build_from fuel node_pos vec t'
  ]

  pub build : ℕ → Helper D → Stree D → Option (Stree D)
  build fuel h t = build_from fuel h.node_pos h.node_data t

  -- The inner loop of depth_traversal: the children are pushed behind `vec`, whose back is its head here.
  pub push_children : ℕ → Option ℕ → ℕ → List (ℕ × ℕ) → Stree D → Option (List (ℕ × ℕ))
  push_children zero child depth vec t = none
  push_children (suc f) none depth vec t = some vec
  push_children (suc f) (some c) depth vec t =
      push_children f (node_or_new (t.nodes c)).right_sibling depth ((depth, c) ∷ vec) t

  -- The loop of depth_traversal, with the top of the stack as its head.
  pub depth_loop : ℕ → ℕ → List (ℕ × ℕ) → List (ℕ × ℕ) → Stree D → Option (List (ℕ × ℕ))
  depth_loop zero fuel stack result t = none
  depth_loop (suc f) fuel [] result t = some result
  depth_loop (suc f) fuel ((d, k) ∷ stack) result t = do
    vec ← push_children fuel (node_or_new (t.nodes k)).left_child (d + 1) [] t
    depth_loop f fuel (move_back vec stack) (result ++ ((d, k) ∷ [])) t

  unfoldable pub depth_traversal : ℕ → Stree D → Option (List (ℕ × ℕ))
  depth_traversal fuel t = do r ← t.root; depth_loop fuel fuel ((0, r) ∷ []) [] t

  -- The inner loop of breadth_traversal.
  pub queue_children : ℕ → Option ℕ → ℕ → List (ℕ × ℕ) → Stree D → Option (List (ℕ × ℕ))
  queue_children zero child depth que t = none
  queue_children (suc f) none depth que t = some que
  queue_children (suc f) (some c) depth que t =
      queue_children f (node_or_new (t.nodes c)).right_sibling depth (que ++ ((depth, c) ∷ [])) t

  pub breadth_loop : ℕ → ℕ → List (ℕ × ℕ) → List (ℕ × ℕ) → Stree D → Option (List (ℕ × ℕ))
  breadth_loop zero fuel que result t = none
  breadth_loop (suc f) fuel [] result t = some result
  breadth_loop (suc f) fuel ((d, k) ∷ que) result t = do
    que' ← queue_children fuel (node_or_new (t.nodes k)).left_child (d + 1) que t
    breadth_loop f fuel que' (result ++ ((d, k) ∷ [])) t

  unfoldable pub breadth_traversal : ℕ → Stree D → Option (List (ℕ × ℕ))
  breadth_traversal fuel t = do r ← t.root; breadth_loop fuel fuel ((0, r) ∷ []) [] t
