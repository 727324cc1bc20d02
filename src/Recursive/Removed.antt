-- ===== src/Recursive/Removed.antt =====
-- What deletion leaves of the entries of a recursive skip list, and of its rows.
use miscellaneous_repo.Prelude.{
  ℕ, ◌≤◌, ◌<◌, min, ◌≡◌, refl, sym, ap, ◌∙◌, subst, subst₂, ◌≢◌, inl, inr, true, false, Option,
  some, List, [], ◌∷◌, ◌++◌, arith, ltb, if◌then◌else◌, Bool-cases, ltb→lt,
}
use miscellaneous_repo.Prelude.Int.{ℤ, ltb_ℤ}
use miscellaneous_repo.Recursive.{Node, same_key}
use miscellaneous_repo.Recursive.Rows.{
  Entry, row, All, All-mono, All-row, Distinct, Distinct-again, key_at, Row,
}
use miscellaneous_repo.Recursive.Walk.{Ordered}
use miscellaneous_repo.Recursive.Place.{Below}
use miscellaneous_repo.Recursive.Entries.{not_below, lower, del, remove}

-- The same blocks with the same keys.
abbrev pub Alike : List Entry → List Entry → Type 0
Alike [] [] = Unit {0}
Alike (x ∷ xs) (y ∷ ys) = (x.block ≡ y.block) × (x.key ≡ y.key) × Alike xs ys
Alike [] (y ∷ ys) = ⊥
Alike (x ∷ xs) [] = ⊥

Alike-refl : (xs : List Entry) → Alike xs xs
Alike-refl [] = tt
Alike-refl (x ∷ xs) = (refl, refl, Alike-refl xs)

pub Row-Alike :
    (ns : ℕ → Option Node) (i p : ℕ) (xs ys : List Entry)
    → Alike xs ys
    → Row ns i p xs
    → Row ns i p ys
Row-Alike ns i p [] [] a r = r
Row-Alike ns i p [] (y ∷ ys) a r = absurd a
Row-Alike ns i p (x ∷ xs) [] a r = absurd a
Row-Alike ns i p (x ∷ xs) (y ∷ ys) a r = (
  r.0 ∙ ap some (ap some a.0),
  ap (key_at ns) (sym a.0) ∙ r.1 ∙ ap some a.1,
  subst (λ b. Row ns i b ys) a.0 (Row-Alike ns i x.block xs ys a.2 r.2),
)

ltb-min : (i a h : ℕ) → i < h → ltb i (min a h) ≡ ltb i a
ltb-min i a h lt = ground arith

ltb-min_high : (i a h : ℕ) → h ≤ i → ltb i (min a h) ≡ false
ltb-min_high i a h le = ground arith

Alike-of : {xs xs' ys ys' : List Entry} → xs ≡ xs' → ys ≡ ys' → Alike xs' ys' → Alike xs ys
Alike-of e e' a = subst₂ Alike (sym e) (sym e') a

module _ (key : ℤ) where
  remove-first :
      (x : Entry) (xs : List Entry) → same_key key x.key ≡ true → remove key (x ∷ xs) ≡ xs
  remove-first x xs h = let t : not_below key x.key ≡ true = ground arith in rw (h, t) refl

  remove-other : (xs : List Entry) → All (λ x. ltb_ℤ key x.key ≡ true) xs → remove key xs ≡ xs
  remove-other [] a = refl
  remove-other (x ∷ xs) a =
      let h = a.0 in
      let t : not_below key x.key ≡ true = ground arith in
      let u : same_key key x.key ≡ false = ground arith in rw (u, t) refl

  -- The rows that the first entry with the key was on keep the others.
  row-lower_low : (i h : ℕ) (es : List Entry) → i < h → Alike (row i es) (row i (lower key h es))
  row-lower_low i h [] lt = tt
  row-lower_low i h (e ∷ es) lt = elim (Bool-cases (same_key key e.key)) [
    | inl s ↦
        let next = row-lower_low i (if ltb h e.height then e.height else h) es (ground arith) in
        elim (Bool-cases (ltb i e.height)) [
          | inl t ↦ rw (s, t, ltb-min i e.height h lt ∙ t) (refl, refl, next)
          | inr t ↦ rw (s, t, ltb-min i e.height h lt ∙ t) next
        ]
    | inr s ↦ rw s (Alike-refl (row i (e ∷ es)))
  ]

  above-other :
      (e : Entry) (es : List Entry)
      → ltb_ℤ key e.key ≡ true
      → All (λ x. ltb_ℤ x.key e.key ≡ false) es
      → All (λ x. ltb_ℤ key x.key ≡ true) es
  above-other e es h a =
      All-mono (λ x. ltb_ℤ x.key e.key ≡ false) (λ x. ltb_ℤ key x.key ≡ true) es
        (λ x k. ground arith) a

  -- The other rows lose their own first entry with the key.
  row-lower_high :
      (i h : ℕ) (es : List Entry)
      → h ≤ i
      → Ordered es
      → All (λ x. ltb_ℤ x.key key ≡ false) es
      → Alike (remove key (row i es)) (row i (lower key h es))
  row-lower_high i h [] le o a = tt
  row-lower_high i h (e ∷ es) le o a = elim (Bool-cases (same_key key e.key)) [
    | inl s ↦ elim (Bool-cases (ltb i e.height)) [
      | inl t ↦
          let next = row-lower_low i (if ltb h e.height then e.height else h) es (ground arith) in
          rw (s, t, ltb-min_high i e.height h le) (Alike-of (remove-first e (row i es) s) refl next)
      | inr t ↦
          rw (s, t, ltb-min_high i e.height h le)
            (row-lower_high i (if ltb h e.height then e.height else h) es (ground arith) o.1 a.1)
    ]
    | inr s ↦
        let not_less = a.0 in
        let up : ltb_ℤ key e.key ≡ true = ground arith in
        let all : All (λ x. ltb_ℤ key x.key ≡ true) (row i (e ∷ es)) =
          All-row (λ x. ltb_ℤ key x.key ≡ true) i (e ∷ es) (up, above-other e es up o.0) in
        rw s (Alike-of (remove-other (row i (e ∷ es)) all) refl (Alike-refl (row i (e ∷ es))))
  ]

  same-below :
      (e : Entry) (es : List Entry)
      → same_key key e.key ≡ true
      → All (λ x. ltb_ℤ x.key e.key ≡ false) es
      → All (λ x. ltb_ℤ x.key key ≡ false) es
  same-below e es h a =
      All-mono (λ x. ltb_ℤ x.key e.key ≡ false) (λ x. ltb_ℤ x.key key ≡ false) es
        (λ x k. ground arith) a

  -- Each row loses its first entry with the key.
  pub row-del :
      (i : ℕ) (es : List Entry) → Ordered es → Alike (remove key (row i es)) (row i (del key es))
  row-del i [] o = tt
  row-del i (e ∷ es) o = elim (Bool-cases (same_key key e.key)) [
    | inl s ↦
        let t : not_below key e.key ≡ true = ground arith in
        let now : del key (e ∷ es) ≡ lower key e.height es = rw (s, t) refl in
        elim (Bool-cases (ltb i e.height)) [
          | inl u ↦
              let high : row i (e ∷ es) ≡ e ∷ row i es = rw u refl in
              Alike-of (ap (remove key) high ∙ remove-first e (row i es) s) (ap (row i) now)
                (row-lower_low i e.height es (ltb→lt i e.height u))
          | inr u ↦
              let short : row i (e ∷ es) ≡ row i es = rw u refl in
              Alike-of (ap (remove key) short) (ap (row i) now)
                (row-lower_high i e.height es (ground arith) o.1 (same-below e es s o.0))
        ]
    | inr s ↦ elim (Bool-cases (not_below key e.key)) [
      | inl t ↦
          let up : ltb_ℤ key e.key ≡ true = ground arith in
          let all =
            All-row (λ x. ltb_ℤ key x.key ≡ true) i (e ∷ es) (up, above-other e es up o.0) in
          let stays : del key (e ∷ es) ≡ e ∷ es = rw (s, t) refl in
          Alike-of (remove-other (row i (e ∷ es)) all) (ap (row i) stays)
            (Alike-refl (row i (e ∷ es)))
      | inr t ↦ elim (Bool-cases (ltb i e.height)) [
        | inl u ↦ rw (t, u) (rw t (refl, refl, row-del i es o.1))
        | inr u ↦ rw (t, u) (row-del i es o.1)
      ]
    ]
  ]

  pub remove-append :
      (xs ys : List Entry) → Below (not_below key) xs → remove key (xs ++ ys) ≡ xs ++ remove key ys
  remove-append [] ys b = refl
  remove-append (x ∷ xs) ys b = rw b.0 (ap (◌∷◌ x) (remove-append xs ys b.1))

  -- A property that an entry keeps when it loses levels but the lowest.
  module _ (holds : Entry → Type 0)
      (shrink : (e : Entry) (h : ℕ)
        → 1 ≤ h
        → holds e
        → holds (record e { height = min e.height h })) where
    pub All-lower : (h : ℕ) (es : List Entry) → 1 ≤ h → All holds es → All holds (lower key h es)
    All-lower h [] one a = tt
    All-lower h (e ∷ es) one a = elim (Bool-cases (same_key key e.key)) [
      | inl s ↦ rw s (
        shrink e h one a.0,
        All-lower (if ltb h e.height then e.height else h) es (ground arith) a.1,
      )
      | inr s ↦ rw s a
    ]

    pub All-del :
        (es : List Entry) → All (λ e. 1 ≤ e.height) es → All holds es → All holds (del key es)
    All-del [] low a = tt
    All-del (e ∷ es) low a = elim (Bool-cases (not_below key e.key)) [
      | inl t ↦ elim (Bool-cases (same_key key e.key)) [
        | inl s ↦ rw (s, t) (All-lower e.height es low.0 a.1)
        | inr s ↦ rw (s, t) a
      ]
      | inr t ↦ rw t (a.0, All-del es low.1 a.1)
    ]

  lower-Ordered : (h : ℕ) (es : List Entry) → 1 ≤ h → Ordered es → Ordered (lower key h es)
  lower-Ordered h [] one o = tt
  lower-Ordered h (e ∷ es) one o = elim (Bool-cases (same_key key e.key)) [
    | inl s ↦
        let h' = if ltb h e.height then e.height else h in
        let one' : 1 ≤ h' = ground arith in
        rw s (
          All-lower (λ x. ltb_ℤ x.key e.key ≡ false) (λ x k l a. a) h' es one' o.0,
          lower-Ordered h' es one' o.1,
        )
    | inr s ↦ rw s o
  ]

  pub del-Ordered :
      (es : List Entry) → All (λ e. 1 ≤ e.height) es → Ordered es → Ordered (del key es)
  del-Ordered [] low o = tt
  del-Ordered (e ∷ es) low o = elim (Bool-cases (not_below key e.key)) [
    | inl t ↦ elim (Bool-cases (same_key key e.key)) [
      | inl s ↦ rw (s, t) (lower-Ordered e.height es low.0 o.1)
      | inr s ↦ rw (s, t) o
    ]
    | inr t ↦ rw t (
      All-del (λ x. ltb_ℤ x.key e.key ≡ false) (λ x k l a. a) es low.1 o.0,
      del-Ordered es low.1 o.1,
    )
  ]

  lower-Distinct : (h p : ℕ) (es : List Entry) → 1 ≤ h → Distinct p es → Distinct p (lower key h es)
  lower-Distinct h p [] one d = tt
  lower-Distinct h p (e ∷ es) one d = elim (Bool-cases (same_key key e.key)) [
    | inl s ↦
        let h' = if ltb h e.height then e.height else h in
        let one' : 1 ≤ h' = ground arith in
        rw s (
          (d.0.0, All-lower (λ x. x.block ≢ p) (λ x k l a. a) h' es one' d.0.1),
          lower-Distinct h' e.block es one' d.1,
        )
    | inr s ↦ rw s d
  ]

  pub del-Distinct :
      (p : ℕ) (es : List Entry)
      → All (λ e. 1 ≤ e.height) es
      → Distinct p es
      → Distinct p (del key es)
  del-Distinct p [] low d = tt
  del-Distinct p (e ∷ es) low d = elim (Bool-cases (not_below key e.key)) [
    | inl t ↦ elim (Bool-cases (same_key key e.key)) [
      | inl s ↦
          rw (s, t) (lower-Distinct e.height p es low.0 (Distinct-again e.block p es d.1 d.0.1))
      | inr s ↦ rw (s, t) d
    ]
    | inr t ↦ rw t (
      (d.0.0, All-del (λ x. x.block ≢ p) (λ x k l a. a) es low.1 d.0.1),
      del-Distinct e.block es low.1 d.1,
    )
  ]
