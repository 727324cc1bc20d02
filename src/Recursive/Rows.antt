-- ===== src/Recursive/Rows.antt =====
-- The rows of a recursive skip list: on each level, the chain of the nodes that are high enough.
use miscellaneous_repo.Prelude.{
  ℕ, ◌≡◌, refl, sym, ap, ◌≢◌, inl, inr, true, false, Option, none, some, ◌>>=◌, List, [], ◌∷◌, ◌++◌,
  arith, ltb, if◌then◌else◌, get_elem?, Bool-cases, ◌≤◌, lt→ltb,
}
use miscellaneous_repo.Prelude.Int.{ℤ}
use miscellaneous_repo.Skiplist.{Ptr}
use miscellaneous_repo.Recursive.{Node}

-- What a list holds: a block, on how many levels it is linked, and its key.
pub record Entry : Type 0 where
  pub block : ℕ
  pub height : ℕ
  pub key : ℤ

abbrev pub first : List Entry → Ptr
first [] = none
first (e ∷ es) = some e.block

abbrev pub row : ℕ → List Entry → List Entry
row i [] = []
row i (e ∷ es) = if ltb i e.height then e ∷ row i es else row i es

-- The last block of a chain that begins with `p`.
abbrev pub last : ℕ → List Entry → ℕ
last p [] = p
last p (e ∷ es) = last e.block es

abbrev pub All : (Entry → Type 0) → List Entry → Type 0
All holds [] = Unit {0}
All holds (e ∷ es) = holds e × All holds es

abbrev pub Apart : ℕ → List Entry → Type 0
Apart p es = All (λ e. e.block ≢ p) es

abbrev pub Distinct : ℕ → List Entry → Type 0
Distinct p [] = Unit {0}
Distinct p (e ∷ es) = Apart p (e ∷ es) × Distinct e.block es

module _ (nodes : ℕ → Option Node) where
  unfoldable pub link_of : ℕ → ℕ → Option Ptr
  link_of p i = do n ← nodes p; get_elem? n.link i

  unfoldable pub key_at : ℕ → Option ℤ
  key_at p = do n ← nodes p; some n.key

  -- From the block `p` on, the links of the level lead to these entries, with their keys, and then to NULL.
  abbrev pub Row : ℕ → ℕ → List Entry → Type 0
  Row i p [] = link_of p i ≡ some none
  Row i p (e ∷ es) =
      (link_of p i ≡ some (some e.block)) × (key_at e.block ≡ some e.key) × Row i e.block es

  pub Row-first : (i p : ℕ) (es : List Entry) → Row i p es → link_of p i ≡ some (first es)
  Row-first i p [] r = r
  Row-first i p (e ∷ es) r = r.0

  pub Row-split : (i p : ℕ) (es zs : List Entry) → Row i p (es ++ zs) → Row i (last p es) zs
  Row-split i p [] zs r = r
  Row-split i p (e ∷ es) zs r = Row-split i e.block es zs r.2

pub All-append :
    (holds : Entry → Type 0) (es zs : List Entry)
    → All holds es
    → All holds zs
    → All holds (es ++ zs)
All-append holds [] zs a b = b
All-append holds (e ∷ es) zs a b = (a.0, All-append holds es zs a.1 b)

pub All-split :
    (holds : Entry → Type 0) (es zs : List Entry)
    → All holds (es ++ zs)
    → All holds es × All holds zs
All-split holds [] zs a = (tt, a)
All-split holds (e ∷ es) zs a = let (b, c) = All-split holds es zs a.1 in ((a.0, b), c)

pub All-mono :
    (holds holds' : Entry → Type 0) (es : List Entry)
    → ((e : Entry) → holds e → holds' e)
    → All holds es
    → All holds' es
All-mono holds holds' [] h a = tt
All-mono holds holds' (e ∷ es) h a = (h e a.0, All-mono holds holds' es h a.1)

pub All-row :
    (holds : Entry → Type 0) (i : ℕ) (es : List Entry) → All holds es → All holds (row i es)
All-row holds i [] a = tt
All-row holds i (e ∷ es) a = elim (Bool-cases (ltb i e.height)) [
  | inl h ↦ rw h (a.0, All-row holds i es a.1)
  | inr h ↦ rw h (All-row holds i es a.1)
]

pub row-append : (i : ℕ) (es zs : List Entry) → row i (es ++ zs) ≡ row i es ++ row i zs
row-append i [] zs = refl
row-append i (e ∷ es) zs = elim (Bool-cases (ltb i e.height)) [
  | inl h ↦ rw h (ap (◌∷◌ e) (row-append i es zs))
  | inr h ↦ rw h (row-append i es zs)
]

pub last-append : (p : ℕ) (es : List Entry) (e : Entry) → last p (es ++ (e ∷ [])) ≡ e.block
last-append p [] e = refl
last-append p (d ∷ es) e = last-append d.block es e

-- A chain may go on at another block that none of its entries has.
pub Distinct-again : (p q : ℕ) (es : List Entry) → Distinct p es → Apart q es → Distinct q es
Distinct-again p q [] d a = tt
Distinct-again p q (e ∷ es) d a = (a, d.1)

pub Distinct-Apart : (p : ℕ) (es : List Entry) → Distinct p es → Apart p es
Distinct-Apart p [] d = tt
Distinct-Apart p (e ∷ es) d = d.0

pub Distinct-row : (i p : ℕ) (es : List Entry) → Distinct p es → Distinct p (row i es)
Distinct-row i p [] d = tt
Distinct-row i p (e ∷ es) d = elim (Bool-cases (ltb i e.height)) [
  | inl h ↦ rw h ((d.0.0, All-row (λ x. x.block ≢ p) i es d.0.1), Distinct-row i e.block es d.1)
  | inr h ↦ rw h (Distinct-row i p es (Distinct-again e.block p es d.1 d.0.1))
]

pub Distinct-split :
    (p : ℕ) (es zs : List Entry) → Distinct p (es ++ zs) → Distinct p es × Distinct (last p es) zs
Distinct-split p [] zs d = (tt, d)
Distinct-split p (e ∷ es) zs d =
    let (b, c) = Distinct-split e.block es zs d.1 in
    let (a, a') = All-split (λ x. x.block ≢ p) es zs d.0.1 in (((d.0.0, a), b), c)

-- An entry in the middle has a block of its own.
pub Distinct-middle :
    (p : ℕ) (es : List Entry) (y : Entry) (zs : List Entry)
    → Distinct p (es ++ (y ∷ zs))
    → (p ≢ y.block) × Apart y.block es × Apart y.block zs
Distinct-middle p [] y zs d = (λ h. d.0.0 (sym h), tt, Distinct-Apart y.block zs d.1)
Distinct-middle p (e ∷ es) y zs d =
    let (a, b, c) = Distinct-middle e.block es y zs d.1 in
    let behind = (All-split (λ x. x.block ≢ p) es (y ∷ zs) d.0.1).1 in
    (λ h. behind.0 (sym h), (a, b), c)

-- All the entries are on the lowest row.
pub lowest-row : (es : List Entry) → All (λ e. 1 ≤ e.height) es → row 0 es ≡ es
lowest-row [] a = refl
lowest-row (e ∷ es) a =
    let high : ltb 0 e.height ≡ true = lt→ltb 0 e.height a.0 in
    rw high (ap (◌∷◌ e) (lowest-row es a.1))

-- No entry is on a row that is above all of them.
pub row-none : (i l : ℕ) (es : List Entry) → l ≤ i → All (λ e. e.height ≤ l) es → row i es ≡ []
row-none i l [] le a = refl
row-none i l (e ∷ es) le a =
    let h = a.0 in
    let short : ltb i e.height ≡ false = ground arith in rw short (row-none i l es le a.1)
