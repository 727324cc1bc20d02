-- ===== src/Recursive/Walk.antt =====
-- A recursive skip list as the entries it holds, and how its operations walk on one level.
use miscellaneous_repo.Prelude.{
  ℕ, suc, ◌≤◌, ◌<◌, ◌≡◌, refl, sym, ap, ◌∙◌, subst, ◌≢◌, ◌⊎◌, inl, inr, true, false, Option, some,
  List, [], ◌∷◌, ◌++◌, arith, ltb, if◌then◌else◌, Bool-cases, lt→ltb, ◌==◌,
}
use miscellaneous_repo.Prelude.Int.{negsuc, ltb_ℤ}
use miscellaneous_repo.Recursive.{Node, Store}
use miscellaneous_repo.Recursive.Rows.{
  Entry, row, last, All, Distinct, key_at, Row, Row-split, row-append, last-append, All-mono,
  lowest-row,
}
use miscellaneous_repo.Recursive.Links.{Kept, Row-same}

-- Keys that do not decrease.
abbrev pub Ordered : List Entry → Type 0
Ordered [] = Unit {0}
Ordered (e ∷ es) = All (λ x. ltb_ℤ x.key e.key ≡ false) es × Ordered es

-- The list holds these entries, and the key of the head is the one that sklist_init sets.
pub record IsList (s : Store) (es : List Entry) : Type 0 where
  pub rows : (j : ℕ) → j < s.max_level → Row s.nodes j s.head (row j es)
  pub low : s.level ≤ s.max_level
  pub head_key : key_at s.nodes s.head ≡ some (negsuc 0)
  pub heights : All (λ e. (1 ≤ e.height) × (e.height ≤ s.level)) es
  pub ordered : Ordered es
  pub distinct : Distinct s.head es

pub IsList-low : (s : Store) (es : List Entry) → IsList s es → All (λ e. 1 ≤ e.height) es
IsList-low s es list =
    All-mono (λ e. (1 ≤ e.height) × (e.height ≤ s.level)) (λ e. 1 ≤ e.height) es (λ e h. h.0)
      list.heights

pub IsList-lowest :
    (s : Store) (es : List Entry) → IsList s es → 1 ≤ s.max_level → Row s.nodes 0 s.head es
IsList-lowest s es list levels =
    subst (Row s.nodes 0 s.head) (lowest-row es (IsList-low s es list)) (list.rows 0 levels)

-- Below the level `l` the list still holds `es`, and from there on `es'`.
abbrev pub Stage : ℕ → ℕ → (ℕ → Option Node) → ℕ → List Entry → List Entry → Type 0
Stage head max_level ns l es es' =
    (j : ℕ) → j < max_level → Row ns j head (row j (if ltb j l then es else es'))

-- `p` is the last block of `pre`, or the head, and it has a link on the level.
abbrev pub At : ℕ → ℕ → ℕ → List Entry → Type 0
At head i p pre =
    ((pre ≡ []) × (p ≡ head))
    ⊎ ((es : List Entry) × (e : Entry) × (pre ≡ es ++ (e ∷ [])) × (p ≡ e.block) × (i < e.height))

pub At-down : (head i j p : ℕ) (pre : List Entry) → j ≤ i → At head i p pre → At head j p pre
At-down head i j p pre h (inl a) = inl a
At-down head i j p pre h (inr (es, e, b, c, d)) = inr (es, e, b, c, omega arith)

pub At-last : (head i p : ℕ) (pre : List Entry) → At head i p pre → last head (row i pre) ≡ p
At-last head i p pre (inl (a, b)) = rw (a, b) refl
At-last head i p pre (inr (es, e, b, c, d)) =
    let high : row i (e ∷ []) ≡ e ∷ [] = rw (lt→ltb i e.height d) refl in
    ap (λ xs. last head (row i xs)) b
    ∙ ap (last head) (row-append i es (e ∷ []) ∙ ap (◌++◌ (row i es)) high)
    ∙ last-append head (row i es) e
    ∙ sym c

pub Row-At :
    (ns : ℕ → Option Node) (head i p : ℕ) (pre zs : List Entry)
    → At head i p pre
    → Row ns i head (row i (pre ++ zs))
    → Row ns i p (row i zs)
Row-At ns head i p pre zs a r =
    subst (λ x. Row ns i x (row i zs)) (At-last head i p pre a)
      (Row-split ns i head (row i pre) (row i zs) (subst (Row ns i head) (row-append i pre zs) r))

-- A write to one level, where the rest of the levels is kept, takes the list one level further.
pub Stage-next :
    (head max_level i : ℕ) (ns ns' : ℕ → Option Node) (es es' : List Entry)
    → Stage head max_level ns (suc i) es es'
    → ((j q : ℕ) → j ≢ i → Kept ns ns' j q)
    → Row ns' i head (row i es')
    → Stage head max_level ns' i es es'
Stage-next head max_level i ns ns' es es' stage kept r j lt = elim (Bool-cases (j == i)) [
  | inl e ↦
      let same : j ≡ i = ground arith in
      let done : ltb j i ≡ false = ground arith in
      rw done (subst (λ x. Row ns' x head (row x es')) (sym same) r)
  | inr e ↦
      let alike : ltb j (suc i) ≡ ltb j i = ground arith in
      Row-same ns ns' j head (row j (if ltb j i then es else es')) (λ q. kept j q (ground arith))
        (subst (λ b. Row ns j head (row j (if b then es else es'))) alike (stage j lt))
]

pub Stage-row :
    (head max_level i : ℕ) (ns : ℕ → Option Node) (es es' : List Entry)
    → i < max_level
    → Stage head max_level ns (suc i) es es'
    → Row ns i head (row i es)
Stage-row head max_level i ns es es' lt stage =
    let below : ltb i (suc i) ≡ true = ground arith in
    subst (λ b. Row ns i head (row i (if b then es else es'))) below (stage i lt)

-- At the end the list holds the entries `es'` on all levels.
pub Stage-end :
    (head max_level : ℕ) (ns : ℕ → Option Node) (es es' : List Entry)
    → Stage head max_level ns 0 es es'
    → (j : ℕ) → j < max_level
    → Row ns j head (row j es')
Stage-end head max_level ns es es' stage j lt =
    let none_below : ltb j 0 ≡ false = ground arith in
    subst (λ b. Row ns j head (row j (if b then es else es'))) none_below (stage j lt)

pub Ordered-split : (es zs : List Entry) → Ordered (es ++ zs) → Ordered zs
Ordered-split [] zs o = o
Ordered-split (e ∷ es) zs o = Ordered-split es zs o.1
