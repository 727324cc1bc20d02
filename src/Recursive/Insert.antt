-- ===== src/Recursive/Insert.antt =====
-- sklist_insert of skiplist.r.c adds an entry behind those that are not above it.
mod Loop
mod Made
use miscellaneous_repo.Prelude.{
  ℕ, zero, suc, ◌+◌, ◌-◌, ◌≤◌, ◌<◌, ◌≡◌, refl, sym, ap, ◌∙◌, subst, ◌≢◌, inl, inr, true, false,
  Option, none, some, ◌>>=◌, List, [], ◌∷◌, arith, ltb, if◌then◌else◌, length, Bool-cases, ◌==◌,
  replicate,
}
use miscellaneous_repo.Prelude.Int.{ℤ, pos, negsuc, ltb_ℤ, ◌+ℤ◌}
use miscellaneous_repo.Skiplist.{Ptr}
use miscellaneous_repo.Skiplist.Api.Level.{rand_steps-bounds}
use miscellaneous_repo.Recursive.{
  Node, Store, ends_or, link_at, link_new, insert_node, sklist_insert, rand_level, new_node,
  put_node,
}
use miscellaneous_repo.Recursive.Rows.{
  Entry, first, row, Apart, Distinct, link_of, key_at, Row, Row-first, All-row, All-mono,
}
use miscellaneous_repo.Recursive.Links.{
  Kept, Row-kept, link_of-some, link_of-node, key_at-node, link_of-same, key_at-same, on,
  get_elem?-replicate,
}
use miscellaneous_repo.Recursive.Walk.{
  Ordered, IsList, IsList-lowest, Stage, Stage-row, Stage-end, Ordered-split,
}
use miscellaneous_repo.Recursive.Place.{
  Place, Place-Row, step-cases, stops, ends_or-first, start, down, right,
}
use miscellaneous_repo.Recursive.Entries.{
  ins, above, row-ins_low, ins-Ordered, ins-Distinct, All-ins,
}
use miscellaneous_repo.Recursive.Put.{Ready, Linked, link_new-Linked}
use Made.{made, made_other, insert_node-made, made-IsList}

-- rand_level gives a level that the list may have, to which it raises the level of the list.
raised : Store → ℕ → Store
raised s r = record s { level = if ltb s.level r then r else s.level }

rand_level-raised :
    (rand_max t : ℕ) (s : Store)
    → 1 ≤ s.max_level
    → s.max_level ≤ 30
    → (r : ℕ) × (rand_level rand_max t s ≡ some (r, raised s r)) × (1 ≤ r) × (r ≤ s.max_level)
unfolding rand_level raised
rand_level-raised rand_max t s lo hi =
    let (r, e, one, up) = rand_steps-bounds rand_max t s.max_level lo hi in
    (r, rw e (elim (Bool-cases (ltb s.level r)) [ inl h ↦ rw h refl | inr h ↦ rw h refl ]), one, up)

-- The list with a new entry of some height.
pub record Inserted (s : Store) (es : List Entry) (new : ℕ) (key : ℤ) (result : Option Store)
    : Type 0 where
  pub height : ℕ
  pub store : Store
  pub is_result : result ≡ some store
  pub list : IsList store (ins (record { block = new; height = height; key = key }) es)
  pub size : store.size ≡ s.size +ℤ pos 1
  pub blocks : (q : ℕ) → q ≢ new → s.nodes q ≡ none → store.nodes q ≡ none
  pub some_level : 1 ≤ store.level
  pub same_head : store.head ≡ s.head
  pub same_max_level : store.max_level ≡ s.max_level

-- sklist_insert, for a list with room for 1 to 30 levels and a block that malloc gives, which was not there
-- before: with more fuel than there are entries and levels it has no fault, and the list then holds one
-- more entry, with the key, in the new block, behind the entries whose keys are not above it; its nodes are
-- linked on all their levels, `size` has gone up by one, and the head is the same.
pub sklist_insert-Inserted :
    (fuel rand_max t new : ℕ) (s : Store) (key : ℤ) (es : List Entry)
    → IsList s es
    → 1 ≤ s.max_level
    → s.max_level ≤ 30
    → s.nodes new ≡ none
    → length es + s.max_level < fuel
    → Inserted s es new key (sklist_insert fuel rand_max t (some new) true s key)
unfolding sklist_insert new_node raised
sklist_insert-Inserted fuel rand_max t new s key es list lo hi fresh enough =
    let (r, level, one, up) = rand_level-raised rand_max t s lo hi in
    let e : Entry = record { block = new; height = r; key = key } in
    let top = (raised s r).level in
    let no_lower : s.level ≤ top = ground arith in
    let fits : r ≤ top = ground arith in
    let room : top ≤ s.max_level = let low = list.low in ground arith in
    let done = insert_node-made s es list e fresh lo top no_lower fits one room fuel enough in
    record {
      height = r;
      store = record (made s es list e fresh lo top no_lower fits) {
        nodes = done.nodes;
        size = s.size +ℤ pos 1;
      };
      is_result = rw (level, ◌>>=◌) (rw (done.is_made, ◌>>=◌) refl);
      list =
          made-IsList s es list e fresh lo top no_lower fits one room done.nodes (s.size +ℤ pos 1)
            done.stage done.ready.frame.head_key;
      size = refl;
      blocks = λ q h e'.
          done.ready.frame.blocks q (made_other s es list e fresh lo top no_lower fits q h ∙ e');
      some_level = omega (arith, one, fits);
      same_head = refl;
      same_max_level = refl;
    }
