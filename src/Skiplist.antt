-- ===== src/Skiplist.antt =====
-- c_data_structure/skiplist/skiplist.c and skiplist.h: a skip list of objects in the order of their keys.
-- A pointer is an `Option ℕ` with `none` for NULL. A `Store` holds the list and its nodes, and `none`
-- there is a block that is not allocated. The result `none` of an operation is an access to such a block
-- or outside an array of links, a call of a NULL function, a signed overflow, or the end of the fuel of
-- the walks along a level. `size` and the levels are far below 2 ^ 31.
-- What rand and malloc return are arguments; the functions of a list on keys are pure.
pub mod Api
pub mod Walk
pub mod Passed
pub mod Search
use miscellaneous_repo.Prelude.{
  ℕ, ◌>>=◌, zero, suc, ◌+◌, ◌-◌, ◌/◌, ◌^◌, Bool, true, false, Option, none, some, List, [], ◌∷◌,
  ◌++◌, ltb, ◌==◌, if◌then◌else◌, get_elem?, take, drop, length, replicate,
}
use miscellaneous_repo.Prelude.Int.{ℤ, pos, negsuc}

abbrev pub Ptr : Type 0
Ptr = Option ℕ

pub record Node : Type 0 where
  pub link : List Ptr
  pub prev : Ptr
  pub level : ℕ
  pub obj : Ptr

pub record SkList : Type 0 where
  pub head : Ptr
  pub max_level : ℕ
  pub level : ℕ
  pub size : ℕ
  pub cmp_key : Option (Ptr → Ptr → ℤ)
  pub get_key : Option (Ptr → Ptr)
  pub destroy : Bool

-- `destroyed` are the objects that `destroy` has been called on, the last one first.
pub record Store : Type 0 where
  pub list : SkList
  pub nodes : ℕ → Option Node
  pub destroyed : List Ptr

abbrev pub ptr_eq : Ptr → Ptr → Bool
ptr_eq none none = true
ptr_eq none (some q) = false
ptr_eq (some p) none = false
ptr_eq (some p) (some q) = p == q

abbrev pub below_zero : ℤ → Bool
below_zero (pos n) = false
below_zero (negsuc n) = true

abbrev pub equals_zero : ℤ → Bool
equals_zero (pos n) = n == 0
equals_zero (negsuc n) = false

abbrev pub at_most_zero : ℤ → Bool
at_most_zero (pos n) = n == 0
at_most_zero (negsuc n) = true

abbrev pub set_at : ℕ → Ptr → List Ptr → List Ptr
set_at i q xs = take i xs ++ (q ∷ drop (suc i) xs)

abbrev pub put_node : ℕ → Option Node → Store → Store
put_node p n s = record s { nodes = λ j. if p == j then n else s.nodes j }

-- `node->link[i]`, and the assignments to it and to `node->prev`.
pub link_of : Store → ℕ → ℕ → Option Ptr
link_of s p i = do n ← s.nodes p; get_elem? n.link i

pub set_link : ℕ → ℕ → Ptr → Store → Option Store
set_link p i q s = do
  n ← s.nodes p
  if ltb i (length n.link)
      then some (put_node p (some (record n { link = set_at i q n.link })) s)
      else none

pub set_prev : ℕ → Ptr → Store → Option Store
set_prev p q s = do n ← s.nodes p; some (put_node p (some (record n { prev = q })) s)

-- `get_key(node->obj)`
pub key_of : (Ptr → Ptr) → Store → ℕ → Option Ptr
key_of get_key s p = do n ← s.nodes p; some (get_key n.obj)

pub new_node : Ptr → Bool → Ptr → ℕ → Store → Ptr × Store
new_node none link_ok obj n s = (none, s)
new_node (some p) false obj n s = (none, s)
new_node (some p) true obj n s = (
  some p,
  put_node p (some (record { link = replicate n none; prev = none; level = n; obj = obj })) s,
)

abbrev pub note_destroyed : Ptr → Store → Store
note_destroyed none s = s
note_destroyed (some o) s =
    if s.list.destroy then record s { destroyed = some o ∷ s.destroyed } else s

pub destroy_node : ℕ → Store → Option Store
destroy_node p s = do n ← s.nodes p; some (put_node p none (note_destroyed n.obj s))

-- The inner loop: along level `i` up to the node before the list's end or before the first key that is
-- not to be passed.
pub advance : (Ptr → Ptr) → (Ptr → Bool) → ℕ → ℕ → ℕ → Store → Option ℕ
advance get_key stop zero i p s = none
advance get_key stop (suc f) i p s = do
  q ← link_of s p i
  elim (ptr_eq q s.list.head) [
    | true ↦ some p
    | false ↦ do
      q' ← q
      k ← key_of get_key s q'
      elim (stop k) [ true ↦ some p | false ↦ advance get_key stop f i q' s ]
  ]

module _ (get_key : Ptr → Ptr) (cmp_key : Ptr → Ptr → ℤ) (key : Ptr) (fuel : ℕ) where
  -- The outer loop of search_node, over the levels below `i`: the object and what `*pos` gets.
  pub search_levels : ℕ → ℕ → Store → Option (Ptr × Ptr)
  search_levels zero p s = some (none, some p)
  search_levels (suc i) p s = do
    p' ← advance get_key (λ k. at_most_zero (cmp_key key k)) fuel i p s
    q ← link_of s p' i
    elim (ptr_eq q s.list.head) [
      | true ↦ search_levels i p' s
      | false ↦ do
        q' ← q
        n ← s.nodes q'
        elim (equals_zero (cmp_key key (get_key n.obj))) [
          | true ↦ some (n.obj, q)
          | false ↦ search_levels i p' s
        ]
    ]

  -- What sklist_delete does where it finds the key: `q` is taken out of level `i`, behind `p`.
  pub unlink : ℕ → ℕ → ℕ → Store → Option Store
  unlink i p q s = do
    r ← link_of s q i
    s₁ ← set_link p i r s
    let s₂ : Store =
          if ptr_eq (some p) r
          then record s₁ { list = record (s₁.list) { level = s₁.list.level - 1 } }
          else s₁ in
        if i == 0
        then (do
          r₀ ← link_of s₂ q i
          r' ← r₀
          s₃ ← set_prev r' (some p) s₂
          s₄ ← destroy_node q s₃
          some (record s₄ { list = record (s₄.list) { size = s₄.list.size - 1 } }))
        else some s₂

  -- The outer loop of sklist_delete.
  pub delete_levels : ℕ → ℕ → Store → Option Store
  delete_levels zero p s = some s
  delete_levels (suc i) p s = do
    p' ← advance get_key (λ k. at_most_zero (cmp_key key k)) fuel i p s
    q ← link_of s p' i
    elim (ptr_eq q s.list.head) [
      | true ↦ delete_levels i p' s
      | false ↦ do
        q' ← q
        k ← key_of get_key s q'
        elim (equals_zero (cmp_key key k)) [
          | true ↦ do s' ← unlink i p' q' s; delete_levels i p' s'
          | false ↦ delete_levels i p' s
        ]
    ]

  -- The new node is put behind `p` on level `i`.
  pub link_new : ℕ → ℕ → ℕ → Store → Option Store
  link_new i p new s = do
    q ← link_of s p i
    s₁ ← set_link new i q s
    s₂ ← set_link p i (some new) s₁
    if i == 0
        then (do
          s₃ ← set_prev new (some p) s₂
          r ← link_of s₃ new i
          r' ← r
          set_prev r' (some new) s₃)
        else some s₂

  -- The outer loop of sklist_insert, where `key` is that of the new object, and `n` the new node's level.
  pub insert_levels : ℕ → ℕ → ℕ → ℕ → Store → Option Store
  insert_levels new n zero p s = some s
  insert_levels new n (suc i) p s = do
    p' ← advance get_key (λ k. below_zero (cmp_key key k)) fuel i p s
    s' ← (if ltb i n then link_new i p' new s else some s)
    insert_levels new n i p' s'
