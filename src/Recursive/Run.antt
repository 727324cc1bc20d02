-- ===== src/Recursive/Run.antt =====
-- A recursive skip list in use: it is made, then keys are inserted and deleted, and it answers like the
-- sorted list of the keys.
use miscellaneous_repo.Prelude.{
  ℕ, suc, ◌+◌, ◌≤◌, ◌<◌, ◌≡◌, refl, sym, ap, ◌∙◌, subst, Bool, true, false, ◌&&◌, Option, none,
  some, ◌>>=◌, >>=_some, List, [], ◌∷◌, arith, if◌then◌else◌, length, replicate, ◌==◌,
}
use miscellaneous_repo.Prelude.Int.{ℤ, pos, negsuc}
use miscellaneous_repo.Skiplist.{Ptr}
use miscellaneous_repo.Recursive.{
  Node, Store, same_key, sklist_init, sklist_insert, sklist_delete, sklist_search,
}
use miscellaneous_repo.Recursive.Rows.{Entry}
use miscellaneous_repo.Recursive.Links.{link_of-node, key_at-node, get_elem?-replicate}
use miscellaneous_repo.Recursive.Walk.{IsList}
use miscellaneous_repo.Recursive.Entries.{ins, del}
use miscellaneous_repo.Recursive.Insert.{sklist_insert-Inserted}
use miscellaneous_repo.Recursive.Delete.{sklist_delete-Deleted}
use miscellaneous_repo.Recursive.Lookup.{sklist_search-Finds}
use miscellaneous_repo.Recursive.Keys.{
  Op, insert, delete, put_key, drop_key, after, has, is_some, keys, keys-ins, keys-del, length-keys,
  length-put_key, length-drop_key, length-after, is_some-Finds,
}

abbrev pub empty : ℕ → (ℕ → Option Node) → ℕ → Store
empty h nodes max_level = record {
  head = h;
  max_level = max_level;
  level = 0;
  size = pos 0;
  nodes = λ j.
      if h == j
      then some (record { link = replicate max_level none; level = max_level; key = negsuc 0 })
      else nodes j;
}

-- sklist_init, with the blocks that malloc gives: it makes a list that holds nothing.
sklist_init-IsList :
    (h : ℕ) (nodes : ℕ → Option Node) (max_level : ℕ)
    → (sklist_init true (some h) true nodes max_level ≡ some (empty h nodes max_level))
      × IsList (empty h nodes max_level) []
unfolding sklist_init
sklist_init-IsList h nodes max_level =
    let n : Node = record { link = replicate max_level none; level = max_level; key = negsuc 0 } in
    let same : (h == h) ≡ true = ground arith in
    let here : (empty h nodes max_level).nodes h ≡ some n = rw same refl in
    (
      refl,
      record {
        rows = λ j lt.
            link_of-node (empty h nodes max_level).nodes h j n here
            ∙ get_elem?-replicate max_level j none lt;
        low = omega arith;
        head_key = key_at-node (empty h nodes max_level).nodes h n here;
        heights = tt;
        ordered = tt;
        distinct = tt;
      },
    )

abbrev free : Option Node → Bool
free none = true
free (some n) = false

free-none : (o : Option Node) → free o ≡ true → o ≡ none
free-none none h = refl
free-none (some n) h = let clash : false ≡ true = h in ground arith

abbrev behind : (Store → Bool) → Option Store → Bool
behind test none = true
behind test (some s) = test s

behind-some :
    (test : Store → Bool) (o : Option Store) (s : Store)
    → o ≡ some s
    → behind test o ≡ true
    → test s ≡ true
behind-some test o s e h = subst (λ x. behind test x ≡ true) e h

both : (a b : Bool) → (a && b) ≡ true → (a ≡ true) × (b ≡ true)
both a b h = ground arith

module _ (rand_max fuel : ℕ) where
  abbrev pub call : Op → Store → Option Store
  call (insert t new key) s = sklist_insert fuel rand_max t (some new) true s key
  call (delete key) s = sklist_delete fuel s key

  abbrev pub run : List Op → Store → Option Store
  run [] s = some s
  run (op ∷ ops) s = do s' ← call op s; run ops s'

  -- Each block that malloc gives is not in use when it gives it.
  abbrev pub all_free : List Op → Store → Bool
  all_free [] s = true
  all_free (insert t new key ∷ ops) s =
      free (s.nodes new) && behind (all_free ops) (call (insert t new key) s)
  all_free (delete key ∷ ops) s = behind (all_free ops) (call (delete key) s)

  -- The list after some calls.
  record Ran (max_level : ℕ) (made : Option Store) (ks : List ℤ) : Type 0 where
    pub store : Store
    pub entries : List Entry
    pub is_made : made ≡ some store
    pub list : IsList store entries
    pub is_keys : keys entries ≡ ks
    pub some_level : 1 ≤ store.level
    pub same_max : store.max_level ≡ max_level

  module _ (max_level : ℕ) (lo : 1 ≤ max_level) (hi : max_level ≤ 30) where
    insert-Ran :
        (s : Store) (es : List Entry) (t new : ℕ) (key : ℤ)
        → IsList s es
        → s.nodes new ≡ none
        → s.max_level ≡ max_level
        → length es + max_level < fuel
        → Ran max_level (call (insert t new key) s) (put_key key (keys es))
    insert-Ran s es t new key list fresh same room =
        let done =
          sklist_insert-Inserted fuel rand_max t new s key es list (omega arith) (omega arith) fresh
            (omega arith) in
        record {
          store = done.store;
          entries = ins (record { block = new; height = done.height; key = key }) es;
          is_made = done.is_result;
          list = done.list;
          is_keys = keys-ins (record { block = new; height = done.height; key = key }) es;
          some_level = done.some_level;
          same_max = done.same_max_level ∙ same;
        }

    delete-Ran :
        (s : Store) (es : List Entry) (key : ℤ)
        → IsList s es
        → 1 ≤ s.level
        → s.max_level ≡ max_level
        → length es + max_level < fuel
        → Ran max_level (call (delete key) s) (drop_key key (keys es))
    delete-Ran s es key list one same room =
        let done = sklist_delete-Deleted fuel s key es list one (omega (arith, list.low)) in
        record {
          store = done.store;
          entries = del key es;
          is_made = done.is_result;
          list = done.list;
          is_keys = keys-del key es;
          some_level = subst (λ l. 1 ≤ l) (sym done.same_level) one;
          same_max = done.same_max_level ∙ same;
        }

    run-Ran :
        (ops : List Op) (s : Store) (es : List Entry)
        → IsList s es
        → all_free ops s ≡ true
        → 1 ≤ s.level
        → s.max_level ≡ max_level
        → length es + length ops + max_level < fuel
        → Ran max_level (run ops s) (after ops (keys es))
    run-Ran [] s es list fresh one same room = record {
      store = s;
      entries = es;
      is_made = refl;
      list = list;
      is_keys = refl;
      some_level = one;
      same_max = same;
    }
    run-Ran (insert t new key ∷ ops) s es list fresh one same room =
        let (now, later) =
          both (free (s.nodes new)) (behind (all_free ops) (call (insert t new key) s)) fresh in
        let first =
          insert-Ran s es t new key list (free-none (s.nodes new) now) same (omega arith) in
        let fresh' =
          behind-some (all_free ops) (call (insert t new key) s) first.store first.is_made later in
        let count =
          sym (length-keys first.entries)
          ∙ ap length first.is_keys
          ∙ length-put_key key (keys es)
          ∙ ap suc (length-keys es) in
        let rest =
          run-Ran ops first.store first.entries first.list fresh' first.some_level first.same_max
            (omega (arith, count)) in
        record {
          store = rest.store;
          entries = rest.entries;
          is_made = >>=_some _ first.is_made rest.is_made;
          list = rest.list;
          is_keys = rest.is_keys ∙ ap (after ops) first.is_keys;
          some_level = rest.some_level;
          same_max = rest.same_max;
        }
    run-Ran (delete key ∷ ops) s es list fresh one same room =
        let first = delete-Ran s es key list one same (omega arith) in
        let fresh' =
          behind-some (all_free ops) (call (delete key) s) first.store first.is_made fresh in
        let count = sym (length-keys first.entries) ∙ ap length first.is_keys in
        let rest =
          run-Ran ops first.store first.entries first.list fresh' first.some_level first.same_max
            (omega (arith, count, length-drop_key key (keys es), length-keys es)) in
        record {
          store = rest.store;
          entries = rest.entries;
          is_made = >>=_some _ first.is_made rest.is_made;
          list = rest.list;
          is_keys = rest.is_keys ∙ ap (after ops) first.is_keys;
          some_level = rest.some_level;
          same_max = rest.same_max;
        }

    -- A list for 1 to 30 levels that sklist_init has made, in which one key and then others are inserted
    -- and deleted, in any order, where malloc gives only blocks that are not in use:
    -- with more fuel than there are calls and levels nothing is a fault, and a search for a key other
    -- than -1 finds a node just where the sorted list, with the same insertions and deletions, has the key.
    pub run-has :
        (h : ℕ) (nodes : ℕ → Option Node) (t new : ℕ) (first : ℤ) (ops : List Op) (key : ℤ)
        → all_free (insert t new first ∷ ops) (empty h nodes max_level) ≡ true
        → same_key (negsuc 0) key ≡ false
        → length ops + max_level + 1 < fuel
        → (r : Ptr) × ((do
          s ← sklist_init true (some h) true nodes max_level
          s' ← run (insert t new first ∷ ops) s
          sklist_search fuel s' key)
            ≡ some r)
          × (is_some r ≡ has key (after (insert t new first ∷ ops) []))
    run-has h nodes t new first ops key fresh other room =
        let (made, list) = sklist_init-IsList h nodes max_level in
        let s = empty h nodes max_level in
        let (now, later) =
          both (free (s.nodes new)) (behind (all_free ops) (call (insert t new first) s)) fresh in
        let one =
          insert-Ran s [] t new first list (free-none (s.nodes new) now) refl (omega arith) in
        let fresh' =
          behind-some (all_free ops) (call (insert t new first) s) one.store one.is_made later in
        let count = sym (length-keys one.entries) ∙ ap length one.is_keys in
        let all =
          run-Ran ops one.store one.entries one.list fresh' one.some_level one.same_max
            (omega (arith, count)) in
        let few = sym (length-keys all.entries) ∙ ap length all.is_keys in
        let bound = length-after ops (keys one.entries) in
        let low = all.list.low in
        let (r, found, says) =
          sklist_search-Finds key all.store all.entries all.list fuel all.some_level other
            (omega (arith, few, bound, length-keys one.entries, count, low, all.same_max)) in
        (
          r,
          >>=_some _ made (>>=_some _ (>>=_some _ one.is_made all.is_made) found),
          is_some-Finds key r all.entries says
              ∙ ap (has key) (all.is_keys ∙ ap (after ops) one.is_keys),
        )
