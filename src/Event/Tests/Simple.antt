-- ===== src/Event/Tests/Simple.antt =====
-- Lists of list.h as plain sequences, trees of rbtree.c without balance, and a small world.
use miscellaneous_repo.Prelude.{
  ℕ, ◌≤◌, ◌<◌, ◌≡◌, refl, ap, inl, inr, Bool, true, false, Option, none, some, List, [], ◌∷◌, ◌++◌,
  arith, ◌==◌, if◌then◌else◌, Bool-cases,
}
use miscellaneous_repo.Prelude.Int.{ℤ, pos, negsuc, ◌+ℤ◌}
use miscellaneous_repo.Event.Time.{Timeval}
use miscellaneous_repo.Event.Members.{member, remove, head?, Members}
use miscellaneous_repo.Event.{Flags, Evt, Tree, leaf, node, inorder, World, Os, ListLib, TreeLib}
use miscellaneous_repo.Event.Ops.Inv.{Inv, in_slot}
use miscellaneous_repo.Event.Ops.Bits.{bit_and-below}

-- The entry behind `e`.
abbrev pub behind : ℕ → List ℕ → Option ℕ
behind e [] = none
behind e (x ∷ xs) = if x == e then head? xs else behind e xs

pub behind-append :
    (e : ℕ) (xs ys : List ℕ) → member e xs ≡ false → behind e (xs ++ (e ∷ ys)) ≡ head? ys
behind-append e [] ys h = ground arith
behind-append e (x ∷ xs) ys h = ground (arith, behind-append e xs ys)

abbrev pub follow : List ℕ → Option ℕ → Option ℕ
follow xs none = head? xs
follow xs (some e) = behind e xs

-- A tree that is a list.
abbrev pub spine : List ℕ → Tree
spine [] = leaf
spine (x ∷ xs) = node leaf x (spine xs)

pub inorder-spine : (xs : List ℕ) → inorder (spine xs) ≡ xs
unfolding inorder
inorder-spine [] = refl
inorder-spine (x ∷ xs) = ap (◌∷◌ x) (inorder-spine xs)

abbrev pub lists : ListLib (List ℕ)
lists = record {
  items = λ c. c;
  init = [];
  add_tail = λ e c. c ++ (e ∷ []);
  del_init = remove;
  wipe = λ e c. if member e c then e ∷ [] else c;
  next = follow;
  items-init = refl;
  items-add_tail = λ e c h. refl;
  items-del_init = λ e c h. refl;
  items-wipe = λ e c h. rw h refl;
  next-head = λ c. refl;
  next-entry = λ c xs ys e eq h. rw eq (behind-append e xs ys h);
}

abbrev pub trees : TreeLib
trees = record {
  insert_color = λ e t. t;
  erase = λ e t. spine (remove e (inorder t));
  first = λ t. head? (inorder t);
  next = λ t e. behind e (inorder t);
  inorder-insert_color = λ e t. refl;
  inorder-erase = λ e t h. inorder-spine (remove e (inorder t));
  first-head = λ t. refl;
  next-after = λ t xs ys e eq h. rw eq (behind-append e xs ys h);
}

abbrev pub seconds : ℕ → Timeval
seconds s = record { sec = pos s; usec = pos 0 }

-- The state outside is the clock in seconds; callbacks do nothing.
abbrev pub quiet : Os ℕ (List ℕ)
quiet = record {
  epoll_add = λ fd m e. (true, e);
  epoll_del = λ fd e. (true, e);
  clock = λ e. (some (seconds e), e);
  epoll_wait = λ wait e. (some [], e);
  stale = λ e. seconds 0;
  call = λ fn fd res arg w. w;
}

abbrev pub flagged : Bool → Bool → Bool → Flags
flagged reg active timeout = record { init = true; reg = reg; active = active; timeout = timeout }

abbrev pub an_event : ℤ → Flags → ℕ → Evt
an_event fd flags due = record {
  fn = 1;
  arg = 0;
  fd = fd;
  based = true;
  flags = flags;
  events = record { read = true; write = false; timeout = false; closed = false; persist = false };
  res = record { read = false; write = false; timeout = false; closed = false; persist = false };
  timeout = seconds 0;
  evt_timeout = seconds due;
}

-- Event 0 waits for descriptor 3 and until second 5, event 1 until second 9, and event 2 is active.
abbrev pub three : ℕ → Evt
three j =
    if j == 0
    then an_event (pos 3) (flagged true false true) 5
    else if j == 1
    then an_event (negsuc 0) (flagged true false true) 9
    else an_event (negsuc 0) (flagged false (j == 2) false) 0

abbrev pub at : ℕ → World ℕ (List ℕ)
at clock = record {
  env = clock;
  evts = three;
  base = record {
    size = 32;
    sizemask = 31;
    used = 1;
    slots = λ k. if 3 == k then 0 ∷ [] else [];
    tree = node leaf 0 (node leaf 1 leaf);
    active = 2 ∷ [];
    event_count = 3;
    event_count_active = 1;
  };
}

pub at-Inv : (clock : ℕ) → Inv lists (at clock)
unfolding ◌+ℤ◌
at-Inv clock = record {
  active = record {
    listed = record { has = λ j. ground arith; distinct = (refl, tt) };
    counted = refl;
  };
  time = record {
    listed = record {
      has = λ j. unfold inorder in ground arith;
      distinct = unfold inorder in (refl, (refl, tt));
    };
    sorted = unfold inorder in ((inl (omega arith), tt), (tt, tt));
    registered = λ j h. (ground arith, ground arith);
  };
  map = record { listed = map_Members };
  count = record {
    counted = unfold inorder in refl;
    linked = refl;
    fits = λ n. below (bit_and-below n 31);
  };
}
  where
    below : {x : ℕ} → x ≤ 31 → x < 32
    below h = omega (arith, h)

    map_Members : (k : ℕ) → Members ((at clock).base.slots k) (λ j. in_slot 31 k (three j))
    map_Members k = elim (Bool-cases (3 == k)) [
      | inl e ↦ rw e (record { has = λ j. ground (arith, e); distinct = (refl, tt) })
      | inr e ↦ rw e (record { has = λ j. ground (arith, e); distinct = tt })
    ]
