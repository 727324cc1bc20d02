-- ===== src/Recursive.antt =====
-- c_data_structure/skiplist/skiplist.r.c and skiplist.r.h: the skip list with recursive walks and int keys.
-- As in Skiplist, a pointer is an `Option ℕ`, and the result `none` of an operation is an access to NULL, to
-- a freed block or outside an array of links, a signed overflow in rand_level, or the end of the fuel.
-- A level `l` stands for the argument `n` with n + 1 = l, so that 0 is the index -1. `COUNT` and the output
-- for debugging are left out; `level` and `size` are far from the bounds of an int, and do not wrap.
pub mod Empty
pub mod Nodes
pub mod Rows
pub mod Keys
pub mod Run
pub mod Lookup
pub mod Cut
pub mod Delete
pub mod Removed
pub mod Insert
pub mod Put
pub mod Entries
pub mod Walk
pub mod Place
pub mod Links
pub mod Search
mod Tests
mod Examples
use miscellaneous_repo.Prelude.{
  ℕ, ◌>>=◌, zero, suc, ◌+◌, ◌-◌, ◌^◌, Bool, true, false, not, ◌&&◌, ◌||◌, Option, none, some, List,
  [], ltb, leb, ◌==◌, if◌then◌else◌, get_elem?, length, replicate,
}
use miscellaneous_repo.Prelude.Int.{ℤ, pos, negsuc, ltb_ℤ, ◌+ℤ◌, ◌-ℤ◌}
use miscellaneous_repo.Skiplist.{Ptr, set_at}
use miscellaneous_repo.Skiplist.Api.{rand_steps}

pub record Node : Type 0 where
  pub link : List Ptr
  pub level : ℕ
  pub key : ℤ

pub record Store : Type 0 where
  pub head : ℕ
  pub max_level : ℕ
  pub level : ℕ
  pub size : ℤ
  pub nodes : ℕ → Option Node

abbrev pub same_key : ℤ → ℤ → Bool
same_key a b = not (ltb_ℤ a b) && not (ltb_ℤ b a)

abbrev pub put_node : ℕ → Option Node → Store → Store
put_node p n s = record s { nodes = λ j. if p == j then n else s.nodes j }

pub link_at : Node → ℕ → Option Ptr
link_at n zero = none
link_at n (suc i) = get_elem? n.link i

pub set_link : ℕ → ℕ → Ptr → Store → Option Store
set_link p zero q s = none
set_link p (suc i) q s = do
  n ← s.nodes p
  if ltb i (length n.link)
      then some (put_node p (some (record n { link = set_at i q n.link })) s)
      else none

-- `!node->link[n] || test(node->link[n]->key)`
pub ends_or : (ℤ → Bool) → Ptr → Store → Option Bool
ends_or test none s = some true
ends_or test (some q) s = do n ← s.nodes q; some (test n.key)

pub new_node : Ptr → Bool → ℤ → ℕ → Store → Ptr × Store
new_node none link_ok key n s = (none, s)
new_node (some p) false key n s = (none, s)
new_node (some p) true key n s =
    (some p, put_node p (some (record { link = replicate n none; level = n; key = key })) s)

pub destroy_node : Ptr → Store → Store
destroy_node none s = s
destroy_node (some p) s = put_node p none s

pub search_node : ℕ → Ptr → ℤ → ℕ → Store → Option Ptr
search_node zero _ key l s = none
search_node (suc f) none key l s = some none
search_node (suc f) (some p) key l s = do
  n ← s.nodes p
  elim (same_key n.key key) [
    | true ↦ some (some p)
    | false ↦ do
      q ← link_at n l
      down ← ends_or (ltb_ℤ key) q s
      elim down [
        | true ↦ elim (l == 1) [ true ↦ some none | false ↦ search_node f (some p) key (l - 1) s ]
        | false ↦ search_node f q key l s
      ]
  ]

pub sklist_search : ℕ → Store → ℤ → Option Ptr
sklist_search fuel s key = search_node fuel (some s.head) key s.level s

-- `t` is what rand returns.
pub rand_level : ℕ → ℕ → Store → Option (ℕ × Store)
rand_level rand_max t s = do
  i ← rand_steps rand_max t (s.max_level - 1) 1 2
  some (i, if ltb s.level i then record s { level = i } else s)

-- The new node is put behind `p`, if it is that high.
pub link_new : ℕ → ℕ → ℕ → ℕ → Ptr → Store → Option Store
link_new p new height zero q s = none
link_new p new height (suc i) q s =
    if ltb i height
    then (do s₁ ← set_link new (suc i) q s; set_link p (suc i) (some new) s₁)
    else some s

pub insert_node : ℕ → ℕ → ℕ → ℤ → ℕ → ℕ → Store → Option Store
insert_node zero _ new key height l s = none
insert_node (suc f) p new key height l s = do
  n ← s.nodes p
  q ← link_at n l
  down ← ends_or (ltb_ℤ key) q s
  elim down [
    | true ↦ do
      s' ← link_new p new height l q s
      elim (l == 1) [ true ↦ some s' | false ↦ insert_node f p new key height (l - 1) s' ]
    | false ↦ do q' ← q; insert_node f q' new key height l s
  ]

-- A NULL node is used, so it is a fault.
pub sklist_insert : ℕ → ℕ → ℕ → Ptr → Bool → Store → ℤ → Option Store
sklist_insert fuel rand_max t block link_ok s key = do
  r ← rand_level rand_max t s
  let made = new_node block link_ok key r.0 r.1 in
      do
        new ← made.0
        s' ← insert_node fuel s.head new key r.0 made.1.level made.1
        some (record s' { size = s'.size +ℤ pos 1 })

-- The key is at the link `q` of `p`.
pub unlink : ℕ → ℕ → ℕ → Store → Option Store
unlink p q l s = do
  m ← s.nodes q
  r ← link_at m l
  s₁ ← set_link p l r s
  some (if l == 1 then destroy_node (some q) s₁ else s₁)

-- `key == node->link[n]->key`, where the link is not NULL.
pub hits : Ptr → ℤ → Store → Option Bool
hits none key s = some false
hits (some q) key s = do n ← s.nodes q; some (same_key key n.key)

pub delete_node : ℕ → ℕ → ℤ → ℕ → Store → Option Store
delete_node zero p key l s = none
delete_node (suc f) p key l s = do
  n ← s.nodes p
  q ← link_at n l
  down ← ends_or (λ k. not (ltb_ℤ k key)) q s
  elim down [
    | true ↦ do
      hit ← hits q key s
      s' ← elim hit [ true ↦ do q' ← q; unlink p q' l s | false ↦ some s ]
      elim (l == 1) [ true ↦ some s' | false ↦ delete_node f p key (l - 1) s' ]
    | false ↦ do q' ← q; delete_node f q' key l s
  ]

pub sklist_delete : ℕ → Store → ℤ → Option Store
sklist_delete fuel s key = do
  s' ← delete_node fuel s.head key s.level s
  some (record s' { size = s'.size -ℤ pos 1 })

-- A new list; `nodes` are the blocks that are there. A size of the array that is not positive is left out.
pub sklist_init : Bool → Ptr → Bool → (ℕ → Option Node) → ℕ → Option Store
sklist_init false block link_ok nodes max_level = none
sklist_init true none link_ok nodes max_level = none
sklist_init true (some h) false nodes max_level = none
sklist_init true (some h) true nodes max_level = some (record {
  head = h;
  max_level = max_level;
  level = 0;
  size = pos 0;
  nodes = λ j.
      if h == j
      then some (record { link = replicate max_level none; level = max_level; key = negsuc 0 })
      else nodes j;
})
