-- ===== src/Recursive/Put.antt =====
-- link_new of skiplist.r.c puts a new node into the row of a level.
use miscellaneous_repo.Prelude.{
  ℕ, suc, ◌<◌, ◌≡◌, refl, sym, ap, ◌∙◌, subst, ◌≢◌, inl, inr, true, Option, some, ◌>>=◌, List, [],
  ◌∷◌, ◌++◌, arith, ltb, Bool-cases, ◌==◌, ltb→lt,
}
use miscellaneous_repo.Skiplist.{Ptr}
use miscellaneous_repo.Recursive.{Node, Store, link_new}
use miscellaneous_repo.Recursive.Rows.{
  Entry, first, row, last, Apart, Distinct, link_of, key_at, Row, Row-first, All-row, All-split,
  row-append, Distinct-split,
}
use miscellaneous_repo.Recursive.Links.{
  Kept, Row-kept, Row-behind, Row-relink, Written, Frame, Frame-Written, set_link-Written, on,
}
use miscellaneous_repo.Recursive.Walk.{Stage, Stage-next, Stage-row}
use miscellaneous_repo.Recursive.Place.{
  Place, Place-Row, Place-parts, Place-ends, Place-Distinct, Place-Apart, stops,
}
use miscellaneous_repo.Recursive.Entries.{ins, above, ins-append, row-ins_low, row-ins_high}

last-other : (p w : ℕ) (es : List Entry) → p ≢ w → Apart w es → last p es ≢ w
last-other p w [] h a = h
last-other p w (e ∷ es) h a = last-other e.block w es a.0 a.1

module _ (s : Store) (e : Entry) (es : List Entry) where
  -- The new node has its links and its key, and the head its own.
  pub record Ready (ns : ℕ → Option Node) : Type 0 where
    pub room : (j : ℕ) → j < e.height → (q : Ptr) × (link_of ns e.block j ≡ some q)
    pub is_key : key_at ns e.block ≡ some e.key
    pub frame : Frame s ns

  -- A store in which the levels from `i` on have the new entry.
  pub record Linked (i : ℕ) (made : Option Store) : Type 0 where
    pub nodes : ℕ → Option Node
    pub is_made : made ≡ some (on s nodes)
    pub stage : Stage s.head s.max_level nodes i es (ins e es)
    pub ready : Ready nodes

  module _ (distinct : Distinct s.head es) (outside : s.head ≢ e.block) (apart : Apart e.block es)
      (ns : ℕ → Option Node) (i p : ℕ) (lt : i < s.max_level) (pl : Place (above e) s.head i p es)
      (stop : stops (above e) (row i pl.ahead) ≡ true)
      (stage : Stage s.head s.max_level ns (suc i) es (ins e es)) (ready : Ready ns) where
    here : Row ns i s.head (row i es)
    here = Stage-row s.head s.max_level i ns es (ins e es) lt stage

    parts : row i es ≡ row i pl.passed ++ row i pl.ahead
    parts = Place-parts (above e) s.head i p es pl

    ends : last s.head (row i pl.passed) ≡ p
    ends = Place-ends (above e) s.head i p es pl

    row-Distinct : Distinct s.head (row i pl.passed ++ row i pl.ahead)
    row-Distinct = Place-Distinct (above e) s.head i p es pl distinct

    row-Apart : Apart e.block (row i pl.passed ++ row i pl.ahead)
    row-Apart = subst (Apart e.block) parts (All-row (λ x. x.block ≢ e.block) i es apart)

    p-other : p ≢ e.block
    p-other =
        subst (λ x. x ≢ e.block) ends
          (last-other s.head e.block (row i pl.passed) outside
            (All-split (λ x. x.block ≢ e.block) (row i pl.passed) (row i pl.ahead) row-Apart).0)

    ahead-Apart : Apart p (row i pl.ahead)
    ahead-Apart = Place-Apart (above e) s.head i p es pl distinct

    -- The two writes put the entry behind `p`.
    put-Row :
        (ns₁ ns₂ : ℕ → Option Node)
        → ltb i e.height ≡ true
        → Written ns ns₁ e.block i (first (row i pl.ahead))
        → Written ns₁ ns₂ p i (some e.block)
        → Row ns₂ i s.head (row i (ins e es))
    put-Row ns₁ ns₂ high w v =
        let A = row i pl.passed in
        let Z = row i pl.ahead in
        let kept₁ : (q : ℕ) → q ≢ e.block → Kept ns ns₁ i q =
          λ q h. (w.links q i (inl h), w.keys q) in
        let kept₂ : (q : ℕ) → q ≢ p → Kept ns₁ ns₂ i q = λ q h. (v.links q i (inl h), v.keys q) in
        let apart_ahead = (All-split (λ x. x.block ≢ e.block) A Z row-Apart).1 in
        let all₁ =
          Row-kept ns ns₁ i e.block kept₁ s.head (A ++ Z) outside row-Apart
            (subst (Row ns i s.head) parts here) in
        let new₁ =
          Row-behind ns ns₁ i e.block kept₁ p e.block Z apart_ahead w.at
            (Place-Row (above e) ns s.head i p es pl here) in
        let new₂ = Row-kept ns₁ ns₂ i p kept₂ e.block Z (λ h. p-other (sym h)) ahead-Apart new₁ in
        let key₂ = v.keys e.block ∙ w.keys e.block ∙ ready.is_key in
        let now : row i (ins e es) ≡ A ++ (e ∷ Z) =
          ap (λ x. row i (ins e x)) pl.parts
          ∙ ap (row i) (ins-append e pl.passed pl.ahead pl.below)
          ∙ row-append i pl.passed (ins e pl.ahead)
          ∙ ap (◌++◌ A) (row-ins_high e i pl.ahead high stop) in
        subst (Row ns₂ i s.head) (sym now) (
          Row-relink ns₁ ns₂ i s.head p A Z (e ∷ Z) ends kept₂ v.keys
            (Distinct-split s.head A Z row-Distinct).0 all₁ (v.at, key₂, new₂))

    put-Ready :
        (ns₁ ns₂ : ℕ → Option Node)
        → Written ns ns₁ e.block i (first (row i pl.ahead))
        → Written ns₁ ns₂ p i (some e.block)
        → Ready ns₂
    put-Ready ns₁ ns₂ w v = record {
      room = λ j h. elim (Bool-cases (j == i)) [
        | inl same ↦
            let e' : j ≡ i = ground arith in
            (
              first (row i pl.ahead),
              v.links e.block j (inl (λ x. p-other (sym x))) ∙ ap (link_of ns₁ e.block) e' ∙ w.at,
            )
        | inr other ↦
            let (q, at) = ready.room j h in
            (
              q,
              v.links e.block j (inl (λ x. p-other (sym x)))
                  ∙ w.links e.block j (inr (ground arith))
                  ∙ at,
            )
      ];
      is_key = v.keys e.block ∙ w.keys e.block ∙ ready.is_key;
      frame = Frame-Written (Frame-Written ready.frame w) v;
    }

    pub link_new-Linked :
        Linked i (link_new p e.block e.height (suc i) (first (row i pl.ahead)) (on s ns))
    unfolding link_new
    link_new-Linked = elim (Bool-cases (ltb i e.height)) [
      | inl high ↦
          let (q, at) = ready.room i (ltb→lt i e.height high) in
          let (ns₁, made₁, w) =
            set_link-Written (on s ns) e.block i (first (row i pl.ahead)) q at in
          let link₁ =
            w.links p i (inl p-other)
            ∙ Row-first ns i p (row i pl.ahead) (Place-Row (above e) ns s.head i p es pl here) in
          let (ns₂, made₂, v) =
            set_link-Written (on s ns₁) p i (some e.block) (first (row i pl.ahead)) link₁ in
          record {
            nodes = ns₂;
            is_made = rw high (rw (made₁, ◌>>=◌) made₂);
            stage =
                Stage-next s.head s.max_level i ns ns₂ es (ins e es) stage
                  (λ j q' h. (v.links q' j (inr h) ∙ w.links q' j (inr h), v.keys q' ∙ w.keys q'))
                  (put-Row ns₁ ns₂ high w v);
            ready = put-Ready ns₁ ns₂ w v;
          }
      | inr low ↦ record {
        nodes = ns;
        is_made = rw low refl;
        stage =
            Stage-next s.head s.max_level i ns ns es (ins e es) stage (λ j q' h. (refl, refl))
              (rw (row-ins_low e i es low) here);
        ready = ready;
      }
    ]
