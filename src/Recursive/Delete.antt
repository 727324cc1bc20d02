-- ===== src/Recursive/Delete.antt =====
-- sklist_delete of skiplist.r.c takes the first entry with the key out of the list.
use miscellaneous_repo.Prelude.{
  ℕ, zero, suc, ◌+◌, ◌-◌, ◌≤◌, ◌<◌, ◌≡◌, refl, sym, ap, ◌∙◌, subst, inl, inr, true, false, Option,
  none, some, ◌>>=◌, >>=_assoc, List, arith, ltb, length, Bool-cases, ◌==◌,
}
use miscellaneous_repo.Prelude.Int.{ℤ, pos, ltb_ℤ, ◌-ℤ◌}
use miscellaneous_repo.Skiplist.{Ptr}
use miscellaneous_repo.Recursive.{Node, Store, ends_or, link_at, hits, delete_node, sklist_delete}
use miscellaneous_repo.Recursive.Rows.{
  Entry, first, row, All, Distinct, link_of, Row, Row-first, All-mono, row-none,
}
use miscellaneous_repo.Recursive.Links.{link_of-some, on, Frame}
use miscellaneous_repo.Recursive.Walk.{
  Ordered, IsList, IsList-low, Stage, Stage-row, Stage-end, Ordered-split,
}
use miscellaneous_repo.Recursive.Place.{
  Place, Place-Row, step-cases, stops, ends_or-first, start, down, right,
}
use miscellaneous_repo.Recursive.Entries.{not_below, del}
use miscellaneous_repo.Recursive.Removed.{All-del, del-Ordered, del-Distinct}
use miscellaneous_repo.Recursive.Cut.{taken, cut, Cut, cut-Cut}

-- One call of delete_node, by what its test says.
module _ (s : Store) (key : ℤ) (f p i : ℕ) (q : Ptr) (link : link_of s.nodes p i ≡ some q) where
  delete_node-right :
      (q' : ℕ)
      → q ≡ some q'
      → ends_or (not_below key) q s ≡ some false
      → delete_node (suc f) p key (suc i) s ≡ delete_node f q' key (suc i) s
  unfolding delete_node link_at
  delete_node-right q' same t =
      let (n, here, at) = link_of-some s.nodes p i q link in
      rw here (rw (at, ◌>>=◌) (rw (t, ◌>>=◌) (rw (same, ◌>>=◌) refl)))

  delete_node-down :
      (s' : Store)
      → ends_or (not_below key) q s ≡ some true
      → cut p q key (suc i) s ≡ some s'
      → delete_node (suc f) p key (suc i) s
        ≡ (elim (suc i == 1) [ true ↦ some s' | false ↦ delete_node f p key i s' ])
  unfolding delete_node link_at
  delete_node-down s' t made =
      let (n, here, at) = link_of-some s.nodes p i q link in
      let less : suc i - 1 ≡ i = omega arith in
      let rest : ℕ → Store → Option Store =
        λ j x. elim (suc i == 1) [ true ↦ some x | false ↦ delete_node f p key j x ] in
      rw here (
        rw (at, ◌>>=◌)
          (rw (t, ◌>>=◌)
            (>>=_assoc (hits q key s) (taken p q (suc i) s) (rest (suc i - 1))
              ∙ ap (λ o. o >>= rest (suc i - 1)) made
              ∙ ap (λ j. rest j s') less)))

pub not_below_mono :
    (key a b : ℤ) → ltb_ℤ b a ≡ false → not_below key a ≡ true → not_below key b ≡ true
not_below_mono key a b h t = ground arith

module _ (s : Store) (key : ℤ) (es : List Entry) (ordered : Ordered es)
    (distinct : Distinct s.head es) (low : All (λ e. 1 ≤ e.height) es) where
  delete_node-Cut :
      (f i p : ℕ) (ns : ℕ → Option Node) (pl : Place (not_below key) s.head i p es)
      → i < s.max_level
      → Stage s.head s.max_level ns (suc i) es (del key es)
      → Frame s ns
      → length pl.ahead + i < f
      → Cut s key es 0 (delete_node f p key (suc i) (on s ns))
  delete_node-Cut zero i p ns pl lt stage frame h = absurd (omega arith)
  delete_node-Cut (suc f) i p ns pl lt stage frame h =
      let Z = row i pl.ahead in
      let here = Stage-row s.head s.max_level i ns es (del key es) lt stage in
      let behind = Place-Row (not_below key) ns s.head i p es pl here in
      let link = Row-first ns i p Z behind in
      let test = ends_or-first (not_below key) (on s ns) i p Z behind in
      let sorted = Ordered-split pl.passed pl.ahead (subst Ordered pl.parts ordered) in
      elim (step-cases (not_below key) (not_below_mono key) i pl.ahead sorted) [
        | inl stop ↦
            let done = cut-Cut s key es ordered distinct low ns i p lt pl stage frame stop in
            let next =
              delete_node-down (on s ns) key f p i (first Z) link (on s done.nodes)
                (test ∙ ap some stop) done.is_made in
            elim (Bool-cases (suc i == 1)) [
              | inl bottom ↦
                  let lowest : i ≡ 0 = ground arith in
                  record {
                    nodes = done.nodes;
                    is_made = next ∙ rw bottom refl;
                    stage =
                        subst (λ j. Stage s.head s.max_level done.nodes j es (del key es)) lowest
                          done.stage;
                    frame = done.frame;
                  }
              | inr upper ↦
                  let level : suc (i - 1) ≡ i = ground arith in
                  let rest =
                    delete_node-Cut f (i - 1) p done.nodes
                      (down (not_below key) s.head i (i - 1) p es (omega arith) pl) (omega arith)
                      (subst (λ j. Stage s.head s.max_level done.nodes j es (del key es))
                        (sym level) done.stage)
                      done.frame (omega arith) in
                  record {
                    nodes = rest.nodes;
                    is_made =
                        next
                        ∙ rw upper refl
                        ∙ ap (λ j. delete_node f p key j (on s done.nodes)) (sym level)
                        ∙ rest.is_made;
                    stage = rest.stage;
                    frame = rest.frame;
                  }
            ]
        | inr n ↦
            let next =
              delete_node-right (on s ns) key f p i (first Z) link n.entry.block (ap first n.next)
                (test ∙ ap (λ x. some (stops (not_below key) x)) n.next ∙ ap some n.entry_below) in
            let rest =
              delete_node-Cut f i n.entry.block ns (right (not_below key) s.head i p es pl n) lt
                stage frame (omega (arith, n.shorter)) in
            record {
              nodes = rest.nodes;
              is_made = next ∙ rest.is_made;
              stage = rest.stage;
              frame = rest.frame;
            }
      ]

module _ (s : Store) (key : ℤ) (es : List Entry) (list : IsList s es) where
  abbrev Fits : Entry → Type 0
  Fits e = (1 ≤ e.height) × (e.height ≤ s.level)

  del-Fits : All Fits (del key es)
  del-Fits =
      All-del key Fits (λ e h up a. (omega (arith, a.0, up), omega (arith, a.1))) es
        (IsList-low s es list) list.heights

  -- Above its level the list has no entry, before and after.
  first-Stage : (l : ℕ) → l ≡ s.level → Stage s.head s.max_level s.nodes l es (del key es)
  first-Stage l same j lt = elim (Bool-cases (ltb j l)) [
    | inl h ↦ rw h (list.rows j lt)
    | inr h ↦
        let le : s.level ≤ j = ground arith in
        let before =
          row-none j s.level es le
            (All-mono Fits (λ e. e.height ≤ s.level) es (λ e a. a.1) list.heights) in
        let after =
          row-none j s.level (del key es) le
            (All-mono Fits (λ e. e.height ≤ s.level) (del key es) (λ e a. a.1) del-Fits) in
        rw h (subst (Row s.nodes j s.head) (before ∙ sym after) (list.rows j lt))
  ]

-- The list without the first entry with the key.
pub record Deleted (s : Store) (es : List Entry) (key : ℤ) (result : Option Store) : Type 0 where
  pub store : Store
  pub is_result : result ≡ some store
  pub list : IsList store (del key es)
  pub size : store.size ≡ s.size -ℤ pos 1
  pub blocks : (q : ℕ) → s.nodes q ≡ none → store.nodes q ≡ none
  pub same_head : store.head ≡ s.head
  pub same_level : store.level ≡ s.level
  pub same_max_level : store.max_level ≡ s.max_level

-- sklist_delete, for a list of at least one level: with more fuel than there are entries and levels it has
-- no fault, and the list then holds the entries without the first that has the key, or the same entries
-- where none has it; other entries with the key may be linked on fewer levels than before. In both cases
-- `size` has gone down by one, and the head and the levels of the list are the same.
pub sklist_delete-Deleted :
    (fuel : ℕ) (s : Store) (key : ℤ) (es : List Entry)
    → IsList s es
    → 1 ≤ s.level
    → length es + s.level < fuel
    → Deleted s es key (sklist_delete fuel s key)
unfolding sklist_delete
sklist_delete-Deleted fuel s key es list one enough =
    let low = IsList-low s es list in
    let top : suc (s.level - 1) ≡ s.level = omega arith in
    let before = first-Stage s key es list (suc (s.level - 1)) top in
    let done =
      delete_node-Cut s key es list.ordered list.distinct low fuel (s.level - 1) s.head s.nodes
        (start (not_below key) s.head (s.level - 1) es) (omega (arith, list.low)) before
        (record { head_key = list.head_key; blocks = λ q h. h }) (omega arith) in
    let made =
      subst (λ l. delete_node fuel s.head key l s ≡ some (on s done.nodes)) top done.is_made in
    record {
      store = record s { nodes = done.nodes; size = s.size -ℤ pos 1 };
      is_result = rw (made, ◌>>=◌) refl;
      list = record {
        rows = Stage-end s.head s.max_level done.nodes es (del key es) done.stage;
        low = list.low;
        head_key = done.frame.head_key;
        heights = del-Fits s key es list;
        ordered = del-Ordered key es low list.ordered;
        distinct = del-Distinct key s.head es low list.distinct;
      };
      size = refl;
      blocks = done.frame.blocks;
      same_head = refl;
      same_level = refl;
      same_max_level = refl;
    }
