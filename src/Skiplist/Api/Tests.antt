-- ===== src/Skiplist/Api/Tests.antt =====
-- A list of three levels, with what malloc and rand give.
use miscellaneous_repo.Prelude.{
  ℕ, zero, suc, Bool, ◌≤◌, ◌≡◌, refl, arith, ◌==◌, true, false, Option, none, some, [], ◌∷◌, ltb,
  if◌then◌else◌,
}
use miscellaneous_repo.Prelude.Int.{ℤ, pos, sub_ℕ}
use miscellaneous_repo.Prelude.{◌>>=◌}
use miscellaneous_repo.Skiplist.{
  Ptr, Store, link_of, set_link, set_prev, key_of, new_node, destroy_node, advance, search_levels,
  unlink, delete_levels, link_new, insert_levels,
}
use miscellaneous_repo.Skiplist.Api.{
  rand_steps, rand_level, set_level, sklist_init, sklist_insert, insert_node, sklist_search,
  sklist_search_ext, delete_key, sklist_free, free_from,
}
use miscellaneous_repo.Skiplist.Api.Level.{rand_level-bounds}
use miscellaneous_repo.Skiplist.Search.{Behind, Answers, sklist_search_ext-Answers}
use miscellaneous_repo.Skiplist.Walk.{Chain, before, rest, advance-Chain}

-- An object is its own key, and keys are compared as numbers.
abbrev number : Ptr → ℕ
number none = 0
number (some n) = n

-- A new list whose functions the user has set.
fresh : Option Store
fresh = do
  s ← sklist_init true (some 0) true (λ j. none) (pos 3)
  some (record s {
    list = record (s.list) {
      get_key = some (λ o. o);
      cmp_key = some (λ a b. sub_ℕ (number a) (number b));
      destroy = true;
    };
  })

abbrev plain : Store
plain = record {
  list = record {
    head = some 0;
    max_level = 3;
    level = 1;
    size = 0;
    cmp_key = none;
    get_key = none;
    destroy = false;
  };
  nodes = λ j. none;
  destroyed = [];
}

rand_level-bounds_example :
    (r : ℕ) × (rand_level 100 30 plain ≡ some (r, if ltb 1 r then set_level r plain else plain))
    × (1 ≤ r)
    × (r ≤ 3)
rand_level-bounds_example = rand_level-bounds 100 30 plain (omega arith) (omega arith)

-- Objects 30, 10 and 20 with levels 1, 2 and 3.
filled : Option (Option Store)
filled = do
  s ← fresh
  a ← sklist_insert 9 100 90 (some 1) true (some s) (some 30)
  b ← sklist_insert 9 100 40 (some 2) true a.1 (some 10)
  c ← sklist_insert 9 100 1 (some 3) true b.1 (some 20)
  some (c.1)

found : (do s ← filled; sklist_search 9 s (some 20)) ≡ some (some 20)
unfolding filled fresh sklist_init sklist_insert insert_node rand_level rand_steps new_node
    insert_levels advance link_of key_of link_new set_link set_prev sklist_search sklist_search_ext
    search_levels
found = refl

-- Freed, the list has given its objects to `destroy`, from the smallest on.
freed :
    (do s ← filled; r ← sklist_free 9 s; s' ← r; some (s'.destroyed))
    ≡ some (some 30 ∷ some 20 ∷ some 10 ∷ [])
unfolding filled fresh sklist_init sklist_insert insert_node rand_level rand_steps new_node
    insert_levels advance link_of key_of link_new set_link set_prev sklist_free free_from delete_key
    delete_levels unlink destroy_node
freed = refl

-- The lowest level of a list of the objects 10 and 20, whose nodes are 1 and 2.
abbrev pair : Store
pair = record plain {
  nodes = λ j.
      if 0 == j
      then some (record { link = some 1 ∷ []; prev = some 2; level = 1; obj = none })
      else if 1 == j
      then some (record { link = some 2 ∷ []; prev = some 0; level = 1; obj = some 10 })
      else some (record { link = some 0 ∷ []; prev = some 1; level = 1; obj = some 20 });
}

abbrev own_key : ℕ → Ptr
own_key x = if x == 1 then some 10 else some 20

pair-Chain : Chain (λ o. o) own_key pair 0 0 (1 ∷ 2 ∷ [])
unfolding link_of key_of
pair-Chain = (refl, refl, refl, (refl, refl, refl, refl))

abbrev past_15 : Ptr → Bool
past_15 k = ltb 15 (number k)

advance-Chain_example :
    (advance (λ o. o) past_15 3 0 0 pair
      ≡ some (before (λ o. o) own_key pair 0 past_15 0 (1 ∷ 2 ∷ [])))
    × Chain
        (λ o. o)
        own_key
        pair
        0
        (before (λ o. o) own_key pair 0 past_15 0 (1 ∷ 2 ∷ []))
        (rest (λ o. o) own_key pair 0 past_15 (1 ∷ 2 ∷ []))
advance-Chain_example =
    advance-Chain (λ o. o) own_key pair 0 past_15 3 0 (1 ∷ 2 ∷ []) pair-Chain (omega arith)

-- Two levels: 1 with the object 10 on the lowest, 2 with the object 20 on both.
abbrev by_number : Ptr → Ptr → ℤ
by_number a b = sub_ℕ (number a) (number b)

abbrev two : Store
two = record plain {
  list = record (plain.list) { level = 2; get_key = some (λ o. o); cmp_key = some by_number };
  nodes = λ j.
      if 0 == j
      then some (record { link = some 1 ∷ some 2 ∷ []; prev = some 2; level = 2; obj = none })
      else if 1 == j
      then some (record { link = some 2 ∷ []; prev = some 0; level = 1; obj = some 10 })
      else some (record { link = some 0 ∷ some 0 ∷ []; prev = some 1; level = 2; obj = some 20 });
}

head_Behind : Behind (λ o. o) by_number (some 20) two 0 (1 ∷ 2 ∷ [])
unfolding link_of key_of
head_Behind zero h = (refl, refl, refl, (refl, refl, refl, refl))
head_Behind (suc zero) h = (refl, refl, refl, refl)
head_Behind (suc (suc i)) h = ground arith

low_Behind : Behind (λ o. o) by_number (some 20) two 1 (2 ∷ [])
unfolding link_of key_of
low_Behind zero h = (refl, refl, refl, refl)
low_Behind (suc i) h = ground arith

last_Behind : Behind (λ o. o) by_number (some 20) two 2 []
unfolding link_of
last_Behind zero h = refl
last_Behind (suc zero) h = refl
last_Behind (suc (suc i)) h = ground arith

sklist_search_ext-Answers_example :
    Answers (λ o. o) by_number (some 20) two (sklist_search_ext 3 (some two) (some 20)) (1 ∷ 2 ∷ [])
sklist_search_ext-Answers_example =
    sklist_search_ext-Answers (λ o. o) by_number (some 20) two 3 0 (1 ∷ 2 ∷ []) refl (omega arith)
      (omega arith) (head_Behind, refl, (low_Behind, refl, last_Behind))
      (((λ e. refl), (λ e. ground arith), tt), (tt, tt)) (omega arith)
