-- ===== src/Skiplist/Passed.antt =====
-- The nodes that the walk along one level passes.
use miscellaneous_repo.Prelude.{
  ℕ, ◌≡◌, refl, sym, ◌∙◌, ◌⊎◌, inl, inr, Bool, true, false, List, [], ◌∷◌, ◌++◌, arith, Bool-cases,
}
use miscellaneous_repo.Prelude.Int.{ℤ, pos, negsuc}
use miscellaneous_repo.Skiplist.{below_zero, equals_zero, at_most_zero}

abbrev pub Mem : ℕ → List ℕ → Type 0
Mem q [] = ⊥
Mem q (y ∷ ys) = (q ≡ y) ⊎ Mem q ys

module _ (cmp : ℕ → ℤ) where
  -- The walk stops before such a node; it has the key; none of these has it.
  abbrev pub stops : ℕ → Bool
  stops y = at_most_zero (cmp y)

  abbrev pub hits : ℕ → Bool
  hits y = equals_zero (cmp y)

  abbrev pub Absent : List ℕ → Type 0
  Absent [] = Unit {0}
  Absent (y ∷ ys) = (hits y ≡ false) × Absent ys

  abbrev pub FallsTo : ℕ → List ℕ → Type 0
  FallsTo y [] = Unit {0}
  FallsTo y (z ∷ zs) =
      (stops y ≡ true → stops z ≡ true)
      × (below_zero (cmp y) ≡ true → below_zero (cmp z) ≡ true)
      × FallsTo y zs

  -- The sign of the comparison of the key with those of the nodes falls along them.
  abbrev pub Falls : List ℕ → Type 0
  Falls [] = Unit {0}
  Falls (y ∷ ys) = FallsTo y ys × Falls ys

  not_stops-hits : (y : ℕ) → stops y ≡ false → hits y ≡ false
  not_stops-hits y e = sign (cmp y) e
    where
      sign : (k : ℤ) → at_most_zero k ≡ false → equals_zero k ≡ false
      sign (pos n) e = e
      sign (negsuc n) e = refl

  pub stops-below : (y : ℕ) → stops y ≡ true → hits y ≡ false → below_zero (cmp y) ≡ true
  stops-below y e h = sign (cmp y) e h
    where
      sign : (k : ℤ) → at_most_zero k ≡ true → equals_zero k ≡ false → below_zero k ≡ true
      sign (pos n) e h = sym h ∙ e
      sign (negsuc n) e h = refl

  below-hits : (y : ℕ) → below_zero (cmp y) ≡ true → hits y ≡ false
  below-hits y e = sign (cmp y) e
    where
      sign : (k : ℤ) → below_zero k ≡ true → equals_zero k ≡ false
      sign (pos n) e = ground arith
      sign (negsuc n) e = refl

  pub below-Absent : (y : ℕ) (ys : List ℕ) → FallsTo y ys → below_zero (cmp y) ≡ true → Absent ys
  below-Absent y [] o e = tt
  below-Absent y (z ∷ zs) o e = (below-hits z (o.1 e), below-Absent y zs o.2 e)

  FallsTo-append :
      (z : ℕ) (pre : List ℕ) (y : ℕ) (ys : List ℕ)
      → FallsTo z (pre ++ (y ∷ ys))
      → stops z ≡ true
      → stops y ≡ true
  FallsTo-append z [] y ys o e = o.0 e
  FallsTo-append z (x ∷ pre) y ys o e = FallsTo-append z pre y ys o.2 e

  -- No node before one that the walk passes has the key, nor has that node.
  pub passed-Absent :
      (pre : List ℕ) (y : ℕ) (ys : List ℕ)
      → Falls (pre ++ (y ∷ ys))
      → stops y ≡ false
      → Absent ys
      → Absent (pre ++ (y ∷ ys))
  passed-Absent [] y ys o e a = (not_stops-hits y e, a)
  passed-Absent (z ∷ pre) y ys o e a = elim (Bool-cases (stops z)) [
    | inl s ↦ let both : true ≡ false = sym (FallsTo-append z pre y ys o.0 s) ∙ e in ground arith
    | inr s ↦ (not_stops-hits z s, passed-Absent pre y ys o.1 e a)
  ]
