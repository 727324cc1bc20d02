-- ===== src/Recursive/Entries.antt =====
-- What insertion and deletion make of the entries of a recursive skip list, and of its rows.
use miscellaneous_repo.Prelude.{
  ℕ, min, ◌≡◌, refl, sym, ap, ◌∙◌, ◌≢◌, inl, inr, Bool, true, false, not, List, [], ◌∷◌, ◌++◌,
  arith, ltb, if◌then◌else◌, Bool-cases,
}
use miscellaneous_repo.Prelude.Int.{ℤ, ltb_ℤ}
use miscellaneous_repo.Recursive.{same_key}
use miscellaneous_repo.Recursive.Rows.{Entry, row, All, Apart, Distinct}
use miscellaneous_repo.Recursive.Walk.{Ordered}
use miscellaneous_repo.Recursive.Place.{Below, stops}

-- Behind the entries that are not above it.
abbrev pub ins : Entry → List Entry → List Entry
ins e [] = e ∷ []
ins e (z ∷ zs) = if ltb_ℤ e.key z.key then e ∷ z ∷ zs else z ∷ ins e zs

abbrev pub not_below : ℤ → ℤ → Bool
not_below key k = not (ltb_ℤ k key)

-- Each level loses its first entry with the key; `h` levels have lost theirs.
abbrev pub lower : ℤ → ℕ → List Entry → List Entry
lower key h [] = []
lower key h (e ∷ es) =
    if same_key key e.key
    then record e { height = min e.height h }
      ∷ lower key (if ltb h e.height then e.height else h) es
    else e ∷ es

-- Without the first entry with the key. Where others have the key too, they lose the levels that the first
-- one did not have.
abbrev pub del : ℤ → List Entry → List Entry
del key [] = []
del key (e ∷ es) =
    if not_below key e.key
    then (if same_key key e.key then lower key e.height es else e ∷ es)
    else e ∷ del key es

-- The same on a row.
abbrev pub remove : ℤ → List Entry → List Entry
remove key [] = []
remove key (e ∷ es) =
    if not_below key e.key then (if same_key key e.key then es else e ∷ es) else e ∷ remove key es

module _ (e : Entry) where
  abbrev pub above : ℤ → Bool
  above = ltb_ℤ e.key

  pub ins-append : (pre zs : List Entry) → Below above pre → ins e (pre ++ zs) ≡ pre ++ ins e zs
  ins-append [] zs b = refl
  ins-append (x ∷ pre) zs b = rw b.0 (ap (◌∷◌ x) (ins-append pre zs b.1))

  pub row-ins_low : (i : ℕ) (es : List Entry) → ltb i e.height ≡ false → row i (ins e es) ≡ row i es
  row-ins_low i [] h = rw h refl
  row-ins_low i (z ∷ zs) h = elim (Bool-cases (ltb_ℤ e.key z.key)) [
    | inl k ↦ rw (k, h) refl
    | inr k ↦ elim (Bool-cases (ltb i z.height)) [
      | inl t ↦ rw (k, t) (ap (◌∷◌ z) (row-ins_low i zs h))
      | inr t ↦ rw (k, t) (row-ins_low i zs h)
    ]
  ]

  pub row-ins_high :
      (i : ℕ) (zs : List Entry)
      → ltb i e.height ≡ true
      → stops above (row i zs) ≡ true
      → row i (ins e zs) ≡ e ∷ row i zs
  row-ins_high i [] h t = rw h refl
  row-ins_high i (z ∷ zs) h t = elim (Bool-cases (ltb_ℤ e.key z.key)) [
    | inl k ↦ rw (k, h) refl
    | inr k ↦ elim (Bool-cases (ltb i z.height)) [
      | inl u ↦ let stop : ltb_ℤ e.key z.key ≡ true = sym (rw u refl) ∙ t in ground arith
      | inr u ↦ rw (k, u) (row-ins_high i zs h (sym (rw u refl) ∙ t))
    ]
  ]

  pub All-ins :
      (holds : Entry → Type 0) (es : List Entry) → holds e → All holds es → All holds (ins e es)
  All-ins holds [] h a = (h, tt)
  All-ins holds (z ∷ zs) h a = elim (Bool-cases (ltb_ℤ e.key z.key)) [
    | inl k ↦ rw k (h, a)
    | inr k ↦ rw k (a.0, All-ins holds zs h a.1)
  ]

  above-All :
      (z : Entry) (zs : List Entry)
      → ltb_ℤ e.key z.key ≡ true
      → All (λ x. ltb_ℤ x.key z.key ≡ false) zs
      → All (λ x. ltb_ℤ x.key e.key ≡ false) zs
  above-All z [] h a = tt
  above-All z (x ∷ zs) h a = let other = a.0 in (ground arith, above-All z zs h a.1)

  pub ins-Ordered : (es : List Entry) → Ordered es → Ordered (ins e es)
  ins-Ordered [] o = (tt, tt)
  ins-Ordered (z ∷ zs) o = elim (Bool-cases (ltb_ℤ e.key z.key)) [
    | inl k ↦ rw k ((ground arith, above-All z zs k o.0), o)
    | inr k ↦ rw k (All-ins (λ x. ltb_ℤ x.key z.key ≡ false) zs k o.0, ins-Ordered zs o.1)
  ]

  pub ins-Distinct :
      (p : ℕ) (es : List Entry)
      → e.block ≢ p
      → Apart e.block es
      → Distinct p es
      → Distinct p (ins e es)
  ins-Distinct p [] h a d = ((h, tt), tt)
  ins-Distinct p (z ∷ zs) h a d = elim (Bool-cases (ltb_ℤ e.key z.key)) [
    | inl k ↦ rw k ((h, d.0), (a, d.1))
    | inr k ↦ rw k (
      (d.0.0, All-ins (λ x. x.block ≢ p) zs h d.0.1),
      ins-Distinct z.block zs (λ s. a.0 (sym s)) a.1 d.1,
    )
  ]
