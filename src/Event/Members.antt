-- ===== src/Event/Members.antt =====
-- Lists of events without repetition: membership, removal of an entry, and the first entry.
use miscellaneous_repo.Prelude.{
  ℕ, suc, ◌≡◌, refl, sym, ◌∙◌, inl, inr, Bool, true, false, ◌||◌, Option, none, some, List, [], ◌∷◌,
  ◌++◌, arith, ◌==◌, if◌then◌else◌, Bool-cases, length,
}

abbrev pub member : ℕ → List ℕ → Bool
member e [] = false
member e (x ∷ xs) = x == e || member e xs

-- The first occurrence is dropped.
abbrev pub remove : ℕ → List ℕ → List ℕ
remove e [] = []
remove e (x ∷ xs) = if x == e then xs else x ∷ remove e xs

abbrev pub head? : List ℕ → Option ℕ
head? [] = none
head? (x ∷ xs) = some x

abbrev pub Distinct : List ℕ → Type 0
Distinct [] = Unit {0}
Distinct (x ∷ xs) = (member x xs ≡ false) × Distinct xs

pub member-append : (e : ℕ) (xs ys : List ℕ) → member e (xs ++ ys) ≡ (member e xs || member e ys)
member-append e [] ys = refl
member-append e (x ∷ xs) ys = ground (arith, member-append e xs ys)

pub member-remove :
    (e i : ℕ) (xs : List ℕ)
    → Distinct xs
    → member e (remove i xs) ≡ (if i == e then false else member e xs)
member-remove e i [] d = ground arith
member-remove e i (x ∷ xs) d = elim (Bool-cases (x == i)) [
  | inl h ↦ rw h (ground (arith, d.0))
  | inr h ↦ rw h (ground (arith, member-remove e i xs d.1))
]

pub length-remove :
    (i : ℕ) (xs : List ℕ) → member i xs ≡ true → length xs ≡ suc (length (remove i xs))
length-remove i [] h = cc
length-remove i (x ∷ xs) h = ground (arith, length-remove i xs)

pub remove-Distinct : (i : ℕ) (xs : List ℕ) → Distinct xs → Distinct (remove i xs)
remove-Distinct i [] d = tt
remove-Distinct i (x ∷ xs) d = elim (Bool-cases (x == i)) [
  | inl h ↦ rw h d.1
  | inr h ↦ rw h (ground (arith, member-remove x i xs d.1, d.0), remove-Distinct i xs d.1)
]

pub snoc-Distinct :
    (e : ℕ) (xs : List ℕ) → member e xs ≡ false → Distinct xs → Distinct (xs ++ (e ∷ []))
snoc-Distinct e [] h d = (refl, tt)
snoc-Distinct e (x ∷ xs) h d =
    (ground (arith, member-append x xs (e ∷ []), d.0), snoc-Distinct e xs (ground arith) d.1)

-- A list that holds, once each, the events with a flag.
pub record Members (l : List ℕ) (flag : ℕ → Bool) : Type 0 where
  pub has : (j : ℕ) → member j l ≡ flag j
  pub distinct : Distinct l

module _ (l : List ℕ) (f g : ℕ → Bool) (m : Members l f) where
  pub Members-same : ((j : ℕ) → g j ≡ f j) → Members l g
  Members-same e = record { has = λ j. m.has j ∙ sym (e j); distinct = m.distinct }

  pub Members-snoc :
      (i : ℕ)
      → f i ≡ false
      → ((j : ℕ) → g j ≡ (if i == j then true else f j))
      → Members (l ++ (i ∷ [])) g
  Members-snoc i out e = record {
    has = λ j. ground (arith, member-append j l (i ∷ []), m.has j, e j);
    distinct = snoc-Distinct i l (m.has i ∙ out) m.distinct;
  }

  pub Members-remove :
      (i : ℕ) → ((j : ℕ) → g j ≡ (if i == j then false else f j)) → Members (remove i l) g
  Members-remove i e = record {
    has = λ j. ground (arith, member-remove j i l m.distinct, m.has j, e j);
    distinct = remove-Distinct i l m.distinct;
  }

pub Distinct-before : (e : ℕ) (xs ys : List ℕ) → Distinct (xs ++ (e ∷ ys)) → member e xs ≡ false
Distinct-before e [] ys d = refl
Distinct-before e (x ∷ xs) ys d =
    ground (arith, d.0, member-append x xs (e ∷ ys), Distinct-before e xs ys d.1)

pub Distinct-behind : (e : ℕ) (xs ys : List ℕ) → Distinct (xs ++ (e ∷ ys)) → member e ys ≡ false
Distinct-behind e [] ys d = d.0
Distinct-behind e (x ∷ xs) ys d = Distinct-behind e xs ys d.1
