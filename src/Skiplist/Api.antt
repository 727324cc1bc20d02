-- ===== src/Skiplist/Api.antt =====
-- The operations of c_data_structure/skiplist/skiplist.c, from `rand_level` to `sklist_free`.
-- A list is an `Option Store`, with `none` for a NULL `sk_list`.
pub mod Level
mod Tests
use miscellaneous_repo.Prelude.{
  ℕ, ◌>>=◌, zero, suc, ◌+◌, ◌-◌, ◌/◌, ◌^◌, Bool, true, false, Option, none, some, List, [], ltb,
  ◌==◌, if◌then◌else◌, replicate,
}
use miscellaneous_repo.Prelude.Int.{ℤ, pos, negsuc}
use miscellaneous_repo.Skiplist.{
  Ptr, Node, SkList, Store, ptr_eq, put_node, link_of, key_of, new_node, destroy_node,
  search_levels, insert_levels, delete_levels,
}

-- The loop of rand_level, with `k` steps up to max_level: `none` is an overflow of `j`.
unfoldable pub rand_steps : ℕ → ℕ → ℕ → ℕ → ℕ → Option ℕ
rand_steps rand_max t zero i j = some i
rand_steps rand_max t (suc k) i j = elim (ltb (rand_max / j) t) [
  | true ↦ some i
  | false ↦ elim (ltb (j + j) (2 ^ 31)) [
    | true ↦ rand_steps rand_max t k (i + 1) (j + j)
    | false ↦ none
  ]
]

abbrev pub set_level : ℕ → Store → Store
set_level n s = record s { list = record (s.list) { level = n } }

-- `t` is what rand returns, at most `rand_max`.
pub rand_level : ℕ → ℕ → Store → Option (ℕ × Store)
rand_level rand_max t s = do
  i ← rand_steps rand_max t (s.list.max_level - 1) 1 2
  some (i, if ltb s.list.level i then set_level i s else s)

-- The tests that search, insertion and deletion begin with: `none` is a NULL head, pointer or function.
abbrev pub tested : Store → Ptr → Option (ℕ × (Ptr → Ptr) × (Ptr → Ptr → ℤ))
tested s pointer = do
  h ← s.list.head
  _ ← pointer
  get_key ← s.list.get_key
  cmp_key ← s.list.cmp_key
  some (h, get_key, cmp_key)

-- The object found, and what `*pos` gets.
unfoldable pub sklist_search_ext : ℕ → Option Store → Ptr → Option (Ptr × Ptr)
sklist_search_ext fuel none key = some (none, none)
sklist_search_ext fuel (some s) key = elim (tested s key) [
  | none ↦ some (none, none)
  | some (h, get_key, cmp_key) ↦ search_levels get_key cmp_key key fuel s.list.level h s
]

pub sklist_search : ℕ → Option Store → Ptr → Option Ptr
sklist_search fuel s key = do r ← sklist_search_ext fuel s key; some (r.0)

-- The insertion after the tests; `block` and `link_ok` are what the two calls of malloc give.
pub insert_node :
    (Ptr → Ptr) → (Ptr → Ptr → ℤ) → ℕ → ℕ → ℕ → Ptr → Bool → Ptr → ℕ → Store → Option (ℤ × Store)
insert_node get_key cmp_key fuel rand_max t block link_ok obj h s = do
  r ← rand_level rand_max t s
  let made = new_node block link_ok obj r.0 r.1 in
      elim made.0 [
        | none ↦ some (negsuc 0, made.1)
        | some new ↦ do
          s' ← insert_levels get_key cmp_key (get_key obj) fuel new r.0 made.1.list.level h made.1
          some (pos 0, record s' { list = record (s'.list) { size = s'.list.size + 1 } })
      ]

pub sklist_insert : ℕ → ℕ → ℕ → Ptr → Bool → Option Store → Ptr → Option (ℤ × Option Store)
sklist_insert fuel rand_max t block link_ok none obj = some (negsuc 0, none)
sklist_insert fuel rand_max t block link_ok (some s) obj = elim (tested s obj) [
  | none ↦ some (negsuc 0, some s)
  | some (h, get_key, cmp_key) ↦ do
    r ← insert_node get_key cmp_key fuel rand_max t block link_ok obj h s
    some (r.0, some (r.1))
]

-- sklist_delete of a list that is not NULL.
pub delete_key : ℕ → Store → Ptr → Option (ℤ × Store)
delete_key fuel s key = elim (tested s key) [
  | none ↦ some (negsuc 0, s)
  | some (h, get_key, cmp_key) ↦ do
    s' ← delete_levels get_key cmp_key key fuel s.list.level h s
    some (pos 0, s')
]

pub sklist_delete : ℕ → Option Store → Ptr → Option (ℤ × Option Store)
sklist_delete fuel none key = some (negsuc 0, none)
sklist_delete fuel (some s) key = do r ← delete_key fuel s key; some (r.0, some (r.1))

-- A new list of a positive number of levels. `list_ok` is what the malloc of the list gives, and
-- `nodes` the blocks that are there; every link of the head is then the head.
pub sklist_init : Bool → Ptr → Bool → (ℕ → Option Node) → ℤ → Option Store
sklist_init list_ok block link_ok nodes (negsuc n) = none
sklist_init false block link_ok nodes (pos n) = none
sklist_init true none link_ok nodes (pos n) = none
sklist_init true (some h) false nodes (pos n) = none
sklist_init true (some h) true nodes (pos zero) = none
sklist_init true (some h) true nodes (pos (suc n)) = some (record {
  list = record {
    head = some h;
    max_level = suc n;
    level = 0;
    size = 0;
    cmp_key = none;
    get_key = none;
    destroy = false;
  };
  nodes = λ j.
      if h == j
      then some
          (record { link = replicate (suc n) (some h); prev = some h; level = suc n; obj = none })
      else nodes j;
  destroyed = [];
})

-- The loop of sklist_free, along the lowest level.
pub free_from : ℕ → ℕ → Ptr → Store → Option Store
free_from fuel zero q s = none
free_from fuel (suc f) q s = elim (ptr_eq q s.list.head) [
  | true ↦ some s
  | false ↦ do
    p ← q
    next ← link_of s p 0
    get_key ← s.list.get_key
    key ← key_of get_key s p
    r ← delete_key fuel s key
    free_from fuel f next r.1
]

-- The store after every node is given back, with the head; the block of the list follows.
pub sklist_free : ℕ → Option Store → Option (Option Store)
sklist_free fuel none = some none
sklist_free fuel (some s) = do
  h ← s.list.head
  q ← link_of s h 0
  s' ← free_from fuel fuel q s
  s'' ← destroy_node h s'
  some (some s'')
