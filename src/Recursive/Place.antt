-- ===== src/Recursive/Place.antt =====
-- The place that a walk along a level of a recursive skip list has come to.
use miscellaneous_repo.Prelude.{
  ℕ, ◌≤◌, ◌<◌, ◌≡◌, refl, sym, ap, ◌∙◌, subst, ◌⊎◌, inl, inr, Bool, true, false, Option, some,
  ◌>>=◌, List, [], ◌∷◌, ◌++◌, append_assoc, arith, ltb, length, Bool-cases, ltb→lt,
}
use miscellaneous_repo.Prelude.Int.{ℤ, ltb_ℤ}
use miscellaneous_repo.Recursive.{Node, Store, ends_or}
use miscellaneous_repo.Recursive.Rows.{
  Entry, first, row, last, All, Distinct, Row, All-append, All-split, row-append, Apart,
  Distinct-row, Distinct-split, Distinct-Apart,
}
use miscellaneous_repo.Recursive.Links.{key_at-some}
use miscellaneous_repo.Recursive.Walk.{Ordered, At, At-down, At-last, Row-At}

module _ (test : ℤ → Bool) where
  abbrev pub Below : List Entry → Type 0
  Below es = All (λ e. test e.key ≡ false) es

  abbrev pub stops : List Entry → Bool
  stops [] = true
  stops (e ∷ es) = test e.key

  pub ends_or-first :
      (s : Store) (i p : ℕ) (es : List Entry)
      → Row s.nodes i p es
      → ends_or test (first es) s ≡ some (stops es)
  unfolding ends_or
  ends_or-first s i p [] r = refl
  ends_or-first s i p (e ∷ es) r =
      let (n, here, same) = key_at-some s.nodes e.block e.key r.1 in
      rw (here, ◌>>=◌) (ap (λ k. some (test k)) same)

  -- The next entry on the level, over which the walk goes.
  pub record Next (i : ℕ) (zs : List Entry) : Type 0 where
    pub over : List Entry
    pub entry : Entry
    pub behind : List Entry
    pub parts : zs ≡ over ++ (entry ∷ behind)
    pub high : i < entry.height
    pub next : row i zs ≡ entry ∷ row i behind
    pub below : Below over
    pub entry_below : test entry.key ≡ false
    pub shorter : length behind < length zs

  module _ (mono : (a b : ℤ) → ltb_ℤ b a ≡ false → test a ≡ true → test b ≡ true) where
    not_stops-below : (a b : ℤ) → ltb_ℤ b a ≡ false → test b ≡ false → test a ≡ false
    not_stops-below a b h t = elim (Bool-cases (test a)) [
      | inl u ↦ let v = mono a b h u in ground arith
      | inr u ↦ u
    ]

    first_below :
        {i : ℕ} (e : Entry) (es : List Entry) → Ordered (e ∷ es) → Next i es → test e.key ≡ false
    first_below e es o n =
        let all = subst (All (λ x. ltb_ℤ x.key e.key ≡ false)) n.parts o.0 in
        let (a, b) = All-split (λ x. ltb_ℤ x.key e.key ≡ false) n.over (n.entry ∷ n.behind) all in
        not_stops-below e.key n.entry.key b.0 n.entry_below

    pub step-cases : (i : ℕ) (zs : List Entry) → Ordered zs → (stops (row i zs) ≡ true) ⊎ Next i zs
    step-cases i [] o = inl refl
    step-cases i (e ∷ es) o = elim (Bool-cases (ltb i e.height)) [
      | inl h ↦ elim (Bool-cases (test e.key)) [
        | inl t ↦ inl (rw h t)
        | inr t ↦ inr (record {
          over = [];
          entry = e;
          behind = es;
          parts = refl;
          high = ltb→lt i e.height h;
          next = rw h refl;
          below = tt;
          entry_below = t;
          shorter = omega arith;
        })
      ]
      | inr h ↦ elim (step-cases i es o.1) [
        | inl t ↦ inl (rw h t)
        | inr n ↦ inr (record {
          over = e ∷ n.over;
          entry = n.entry;
          behind = n.behind;
          parts = ap (◌∷◌ e) n.parts;
          high = n.high;
          next = rw h n.next;
          below = (first_below e es o n, n.below);
          entry_below = n.entry_below;
          shorter = omega (arith, n.shorter);
        })
      ]
    ]

  -- The walk on the level `i` has come to the block `p`.
  pub record Place (head i p : ℕ) (es : List Entry) : Type 0 where
    pub passed : List Entry
    pub ahead : List Entry
    pub parts : es ≡ passed ++ ahead
    pub at : At head i p passed
    pub below : Below passed

  abbrev pub start : (head i : ℕ) (es : List Entry) → Place head i head es
  start head i es = record {
    passed = [];
    ahead = es;
    parts = refl;
    at = inl (refl, refl);
    below = tt;
  }

  abbrev pub down :
      (head i j p : ℕ) (es : List Entry) → j ≤ i → Place head i p es → Place head j p es
  down head i j p es h pl = record {
    passed = pl.passed;
    ahead = pl.ahead;
    parts = pl.parts;
    at = At-down head i j p pl.passed h pl.at;
    below = pl.below;
  }

  abbrev pub right :
      (head i p : ℕ) (es : List Entry) (pl : Place head i p es) (n : Next i pl.ahead)
      → Place head i n.entry.block es
  right head i p es pl n = record {
    passed = pl.passed ++ (n.over ++ (n.entry ∷ []));
    ahead = n.behind;
    parts =
        pl.parts
        ∙ ap (◌++◌ pl.passed) (n.parts ∙ sym (append_assoc n.over (n.entry ∷ []) n.behind))
        ∙ sym (append_assoc pl.passed (n.over ++ (n.entry ∷ [])) n.behind);
    at = inr (
      pl.passed ++ n.over,
      n.entry,
      sym (append_assoc pl.passed n.over (n.entry ∷ [])),
      refl,
      n.high,
    );
    below =
        All-append (λ e. test e.key ≡ false) pl.passed (n.over ++ (n.entry ∷ [])) pl.below
          (All-append (λ e. test e.key ≡ false) n.over (n.entry ∷ []) n.below (n.entry_below, tt));
  }

  -- The rest of the row, at a place.
  pub Place-Row :
      (ns : ℕ → Option Node) (head i p : ℕ) (es : List Entry) (pl : Place head i p es)
      → Row ns i head (row i es)
      → Row ns i p (row i pl.ahead)
  Place-Row ns head i p es pl r =
      Row-At ns head i p pl.passed pl.ahead pl.at (subst (λ x. Row ns i head (row i x)) pl.parts r)

  -- The row before and behind the place.
  module _ (head i p : ℕ) (es : List Entry) (pl : Place head i p es) where
    pub Place-parts : row i es ≡ row i pl.passed ++ row i pl.ahead
    Place-parts = ap (row i) pl.parts ∙ row-append i pl.passed pl.ahead

    pub Place-ends : last head (row i pl.passed) ≡ p
    Place-ends = At-last head i p pl.passed pl.at

    pub Place-Distinct : Distinct head es → Distinct head (row i pl.passed ++ row i pl.ahead)
    Place-Distinct d = subst (Distinct head) Place-parts (Distinct-row i head es d)

    pub Place-Apart : Distinct head es → Apart p (row i pl.ahead)
    Place-Apart d =
        subst (λ x. Apart x (row i pl.ahead)) Place-ends
          (Distinct-Apart (last head (row i pl.passed)) (row i pl.ahead)
            (Distinct-split head (row i pl.passed) (row i pl.ahead) (Place-Distinct d)).1)
