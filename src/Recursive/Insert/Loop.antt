-- ===== src/Recursive/Insert/Loop.antt =====
-- The recursion of insert_node in skiplist.r.c, from level to level.
use miscellaneous_repo.Prelude.{
  ℕ, zero, suc, ◌+◌, ◌-◌, ◌<◌, ◌≡◌, refl, sym, ap, ◌∙◌, subst, ◌≢◌, inl, inr, true, false, Option,
  some, ◌>>=◌, List, arith, length, Bool-cases, ◌==◌,
}
use miscellaneous_repo.Prelude.Int.{ℤ, ltb_ℤ}
use miscellaneous_repo.Skiplist.{Ptr}
use miscellaneous_repo.Recursive.{Node, Store, ends_or, link_at, link_new, insert_node}
use miscellaneous_repo.Recursive.Rows.{Entry, first, row, Apart, Distinct, link_of, Row-first}
use miscellaneous_repo.Recursive.Links.{link_of-some, on}
use miscellaneous_repo.Recursive.Walk.{Ordered, Stage, Stage-row, Ordered-split}
use miscellaneous_repo.Recursive.Place.{
  Place, Place-Row, step-cases, stops, ends_or-first, down, right,
}
use miscellaneous_repo.Recursive.Entries.{ins, above}
use miscellaneous_repo.Recursive.Put.{Ready, Linked, link_new-Linked}

-- One call of insert_node, by what its test says.
module _ (s : Store) (e : Entry) (f p i : ℕ) (q : Ptr) (link : link_of s.nodes p i ≡ some q) where
  insert_node-right :
      (q' : ℕ)
      → q ≡ some q'
      → ends_or (above e) q s ≡ some false
      → insert_node (suc f) p e.block e.key e.height (suc i) s
        ≡ insert_node f q' e.block e.key e.height (suc i) s
  unfolding insert_node link_at
  insert_node-right q' same t =
      let (n, here, at) = link_of-some s.nodes p i q link in
      rw here (rw (at, ◌>>=◌) (rw (t, ◌>>=◌) (rw (same, ◌>>=◌) refl)))

  insert_node-down :
      (s' : Store)
      → ends_or (above e) q s ≡ some true
      → link_new p e.block e.height (suc i) q s ≡ some s'
      → insert_node (suc f) p e.block e.key e.height (suc i) s ≡ (elim (suc i == 1) [
        | true ↦ some s'
        | false ↦ insert_node f p e.block e.key e.height i s'
      ])
  unfolding insert_node link_at
  insert_node-down s' t made =
      let (n, here, at) = link_of-some s.nodes p i q link in
      let less : suc i - 1 ≡ i = omega arith in
      rw here (rw (at, ◌>>=◌) (rw (t, ◌>>=◌) (rw (made, ◌>>=◌) refl)))
      ∙ ap
          (λ j. elim (suc i == 1) [
            | true ↦ some s'
            | false ↦ insert_node f p e.block e.key e.height j s'
          ])
          less

above_mono : (e : Entry) (a b : ℤ) → ltb_ℤ b a ≡ false → above e a ≡ true → above e b ≡ true
above_mono e a b h t = ground arith

module _ (s : Store) (e : Entry) (es : List Entry) (ordered : Ordered es)
    (distinct : Distinct s.head es) (outside : s.head ≢ e.block) (apart : Apart e.block es) where
  pub insert_node-Linked :
      (f i p : ℕ) (ns : ℕ → Option Node) (pl : Place (above e) s.head i p es)
      → i < s.max_level
      → Stage s.head s.max_level ns (suc i) es (ins e es)
      → Ready s e es ns
      → length pl.ahead + i < f
      → Linked s e es 0 (insert_node f p e.block e.key e.height (suc i) (on s ns))
  insert_node-Linked zero i p ns pl lt stage ready h = absurd (omega arith)
  insert_node-Linked (suc f) i p ns pl lt stage ready h =
      let here = Stage-row s.head s.max_level i ns es (ins e es) lt stage in
      let behind = Place-Row (above e) ns s.head i p es pl here in
      let link = Row-first ns i p (row i pl.ahead) behind in
      let test = ends_or-first (above e) (on s ns) i p (row i pl.ahead) behind in
      let sorted = Ordered-split pl.passed pl.ahead (subst Ordered pl.parts ordered) in
      elim (step-cases (above e) (above_mono e) i pl.ahead sorted) [
        | inl stop ↦
            let done =
              link_new-Linked s e es distinct outside apart ns i p lt pl stop stage ready in
            let next =
              insert_node-down (on s ns) e f p i (first (row i pl.ahead)) link (on s done.nodes)
                (test ∙ ap some stop) done.is_made in
            elim (Bool-cases (suc i == 1)) [
              | inl bottom ↦
                  let low : i ≡ 0 = ground arith in
                  subst
                    (λ j.
                      Linked s e es j
                        (insert_node (suc f) p e.block e.key e.height (suc i) (on s ns)))
                    low
                    (record {
                      nodes = done.nodes;
                      is_made = next ∙ rw bottom refl;
                      stage = done.stage;
                      ready = done.ready;
                    })
              | inr upper ↦
                  let level : suc (i - 1) ≡ i = ground arith in
                  let rest =
                    insert_node-Linked f (i - 1) p done.nodes
                      (down (above e) s.head i (i - 1) p es (omega arith) pl) (omega arith)
                      (subst (λ j. Stage s.head s.max_level done.nodes j es (ins e es)) (sym level)
                        done.stage)
                      done.ready (omega arith) in
                  record {
                    nodes = rest.nodes;
                    is_made =
                        next
                        ∙ rw upper refl
                        ∙ ap (λ j. insert_node f p e.block e.key e.height j (on s done.nodes))
                            (sym level)
                        ∙ rest.is_made;
                    stage = rest.stage;
                    ready = rest.ready;
                  }
            ]
        | inr n ↦
            let next =
              insert_node-right (on s ns) e f p i (first (row i pl.ahead)) link n.entry.block
                (ap first n.next)
                (test ∙ ap (λ x. some (stops (above e) x)) n.next ∙ ap some n.entry_below) in
            let rest =
              insert_node-Linked f i n.entry.block ns (right (above e) s.head i p es pl n) lt stage
                ready (omega (arith, n.shorter)) in
            record {
              nodes = rest.nodes;
              is_made = next ∙ rest.is_made;
              stage = rest.stage;
              ready = rest.ready;
            }
      ]
