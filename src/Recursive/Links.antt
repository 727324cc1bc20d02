-- ===== src/Recursive/Links.antt =====
-- What a write to a link of a recursive skip list changes, and what it leaves as it is.
use miscellaneous_repo.Prelude.{
  ℕ, zero, suc, ◌<◌, ◌≡◌, refl, sym, ap, ◌∙◌, ◌≢◌, ◌⊎◌, inl, inr, true, false, Option, none, some,
  ◌>>=◌, List, [], ◌∷◌, ◌++◌, arith, get_elem?, length, replicate, Bool-cases, Option-cases, ◌==◌,
  lt→ltb,
}
use mathlib.Core.Option.{some-injective}
use miscellaneous_repo.Prelude.Int.{ℤ, negsuc}
use miscellaneous_repo.Skiplist.{Ptr, set_at}
use miscellaneous_repo.Recursive.{Node, Store, set_link, put_node}
use miscellaneous_repo.Recursive.Rows.{Entry, first, last, Apart, Distinct, link_of, key_at, Row}

module _ (ns ns' : ℕ → Option Node) (i : ℕ) where
  abbrev pub Kept : ℕ → Type 0
  Kept q = (link_of ns' q i ≡ link_of ns q i) × (key_at ns' q ≡ key_at ns q)

  module _ (w : ℕ) (kept : (q : ℕ) → q ≢ w → Kept q) where
    pub Row-kept : (p : ℕ) (es : List Entry) → p ≢ w → Apart w es → Row ns i p es → Row ns' i p es
    Row-kept p [] h a r = (kept p h).0 ∙ r
    Row-kept p (e ∷ es) h a r =
        ((kept p h).0 ∙ r.0, (kept e.block a.0).1 ∙ r.1, Row-kept e.block es a.0 a.1 r.2)

    -- The entries are behind another block.
    pub Row-behind :
        (p q : ℕ) (es : List Entry)
        → Apart w es
        → link_of ns' q i ≡ some (first es)
        → Row ns i p es
        → Row ns' i q es
    Row-behind p q [] a h r = h
    Row-behind p q (e ∷ es) a h r = (h, (kept e.block a.0).1 ∙ r.1, Row-kept e.block es a.0 a.1 r.2)

  last-Apart : (p : ℕ) (e : Entry) (es : List Entry) → Apart p (e ∷ es) → p ≢ last e.block es
  last-Apart p e [] a h = a.0 (sym h)
  last-Apart p e (d ∷ es) a h = last-Apart p d es a.1 h

  -- What is behind the last block is exchanged.
  pub Row-relink :
      (p w : ℕ) (es zs ys : List Entry)
      → last p es ≡ w
      → ((q : ℕ) → q ≢ w → Kept q)
      → ((q : ℕ) → key_at ns' q ≡ key_at ns q)
      → Distinct p es
      → Row ns i p (es ++ zs)
      → Row ns' i w ys
      → Row ns' i p (es ++ ys)
  Row-relink p w [] zs ys l kept keys d r t = rw l t
  Row-relink p w (e ∷ es) zs ys l kept keys d r t =
      let other : p ≢ w = λ h. last-Apart p e es d.0 (h ∙ sym l) in
      (
        (kept p other).0 ∙ r.0,
        keys e.block ∙ r.1,
        Row-relink e.block w es zs ys l kept keys d.1 r.2 t,
      )

pub Row-same :
    (ns ns' : ℕ → Option Node) (i p : ℕ) (es : List Entry)
    → ((q : ℕ) → Kept ns ns' i q)
    → Row ns i p es
    → Row ns' i p es
Row-same ns ns' i p [] kept r = (kept p).0 ∙ r
Row-same ns ns' i p (e ∷ es) kept r =
    ((kept p).0 ∙ r.0, (kept e.block).1 ∙ r.1, Row-same ns ns' i e.block es kept r.2)

abbrev pub on : Store → (ℕ → Option Node) → Store
on s ns = record s { nodes = ns }

-- The link `i` of the block `p` has become `q`, and nothing else is different.
pub record Written (ns ns' : ℕ → Option Node) (p i : ℕ) (q : Ptr) : Type 0 where
  pub at : link_of ns' p i ≡ some q
  pub links : (r j : ℕ) → (r ≢ p) ⊎ (j ≢ i) → link_of ns' r j ≡ link_of ns r j
  pub keys : (r : ℕ) → key_at ns' r ≡ key_at ns r
  pub blocks : (r : ℕ) → ns r ≡ none → ns' r ≡ none

-- The head has the key that sklist_init sets, and there are no blocks that were not in the store.
pub record Frame (s : Store) (ns : ℕ → Option Node) : Type 0 where
  pub head_key : key_at ns s.head ≡ some (negsuc 0)
  pub blocks : (r : ℕ) → s.nodes r ≡ none → ns r ≡ none

pub Frame-Written :
    {s : Store} {ns ns' : ℕ → Option Node} {p i : ℕ} {q : Ptr}
    → Frame s ns
    → Written ns ns' p i q
    → Frame s ns'
Frame-Written {s = s} f w = record {
  head_key = w.keys s.head ∙ f.head_key;
  blocks = λ r h. w.blocks r (f.blocks r h);
}

get_elem?-set_at_self :
    (i : ℕ) (q : Ptr) (xs : List Ptr) → i < length xs → get_elem? (set_at i q xs) i ≡ some q
get_elem?-set_at_self i q [] h = absurd (omega arith)
get_elem?-set_at_self zero q (x ∷ xs) h = refl
get_elem?-set_at_self (suc i) q (x ∷ xs) h = get_elem?-set_at_self i q xs (omega arith)

get_elem?-set_at_ne :
    (i j : ℕ) (q : Ptr) (xs : List Ptr)
    → i < length xs
    → j ≢ i
    → get_elem? (set_at i q xs) j ≡ get_elem? xs j
get_elem?-set_at_ne i j q [] h n = absurd (omega arith)
get_elem?-set_at_ne zero zero q (x ∷ xs) h n = absurd (n refl)
get_elem?-set_at_ne zero (suc j) q (x ∷ xs) h n = refl
get_elem?-set_at_ne (suc i) zero q (x ∷ xs) h n = refl
get_elem?-set_at_ne (suc i) (suc j) q (x ∷ xs) h n =
    get_elem?-set_at_ne i j q xs (omega arith) (λ e. n (ap suc e))

length-get_elem? : (xs : List Ptr) (i : ℕ) (q : Ptr) → get_elem? xs i ≡ some q → i < length xs
length-get_elem? [] i q h = let same : none ≡ some q = h in ground arith
length-get_elem? (x ∷ xs) zero q h = omega arith
length-get_elem? (x ∷ xs) (suc i) q h = omega (arith, length-get_elem? xs i q h)

pub get_elem?-replicate : (n j : ℕ) (q : Ptr) → j < n → get_elem? (replicate n q) j ≡ some q
get_elem?-replicate zero j q h = absurd (omega arith)
get_elem?-replicate (suc n) zero q h = refl
get_elem?-replicate (suc n) (suc j) q h = get_elem?-replicate n j q (omega arith)

-- A block with a link is there.
pub link_of-some :
    (ns : ℕ → Option Node) (p i : ℕ) (q : Ptr)
    → link_of ns p i ≡ some q
    → (n : Node) × (ns p ≡ some n) × (get_elem? n.link i ≡ some q)
unfolding link_of
link_of-some ns p i q h = elim (Option-cases (ns p)) [
  | inl e ↦ let same : none ≡ some q = sym (rw e refl) ∙ h in ground arith
  | inr (n, e) ↦ (n, e, sym (rw e refl) ∙ h)
]

pub key_at-some :
    (ns : ℕ → Option Node) (p : ℕ) (k : ℤ)
    → key_at ns p ≡ some k
    → (n : Node) × (ns p ≡ some n) × (n.key ≡ k)
unfolding key_at
key_at-some ns p k h = elim (Option-cases (ns p)) [
  | inl e ↦ let same : none ≡ some k = sym (rw e refl) ∙ h in ground arith
  | inr (n, e) ↦ (n, e, some-injective _ _ (sym (rw e refl) ∙ h))
]

pub link_of-node :
    (ns : ℕ → Option Node) (p i : ℕ) (n : Node)
    → ns p ≡ some n
    → link_of ns p i ≡ get_elem? n.link i
unfolding link_of
link_of-node ns p i n h = rw (h, ◌>>=◌) refl

pub key_at-node :
    (ns : ℕ → Option Node) (p : ℕ) (n : Node) → ns p ≡ some n → key_at ns p ≡ some n.key
unfolding key_at
key_at-node ns p n h = rw (h, ◌>>=◌) refl

pub key-node :
    (ns : ℕ → Option Node) (p : ℕ) (n : Node) (k : ℤ)
    → ns p ≡ some n
    → key_at ns p ≡ some k
    → n.key ≡ k
key-node ns p n k here h = some-injective _ _ (sym (key_at-node ns p n here) ∙ h)

-- Blocks that are the same have the same links and the same key.
pub link_of-same :
    (ns ns' : ℕ → Option Node) (p i : ℕ) → ns' p ≡ ns p → link_of ns' p i ≡ link_of ns p i
unfolding link_of
link_of-same ns ns' p i h = ap (λ o. do n ← o; get_elem? n.link i) h

pub key_at-same : (ns ns' : ℕ → Option Node) (p : ℕ) → ns' p ≡ ns p → key_at ns' p ≡ key_at ns p
unfolding key_at
key_at-same ns ns' p h = ap (λ o. do n ← o; some n.key) h

module _ (s : Store) (p i : ℕ) (q : Ptr) (n : Node) (here : s.nodes p ≡ some n)
    (fits : i < length n.link) where
  abbrev changed : Node
  changed = record n { link = set_at i q n.link }

  abbrev after : ℕ → Option Node
  after = (put_node p (some changed) s).nodes

  after_self : (r : ℕ) → r ≡ p → after r ≡ some changed
  after_self r h = let same : (p == r) ≡ true = ground arith in rw same refl

  after_other : (r : ℕ) → r ≢ p → after r ≡ s.nodes r
  after_other r h = let other : (p == r) ≡ false = ground arith in rw other refl

  after-links : (r j : ℕ) → (r ≢ p) ⊎ (j ≢ i) → link_of after r j ≡ link_of s.nodes r j
  after-links r j h = elim (Bool-cases (r == p)) [
    | inl e ↦
        let same : r ≡ p = ground arith in
        let other : j ≢ i = ground arith in
        link_of-node after r j changed (after_self r same)
        ∙ get_elem?-set_at_ne i j q n.link fits other
        ∙ sym (link_of-node s.nodes r j n (ap s.nodes same ∙ here))
    | inr e ↦ link_of-same s.nodes after r j (after_other r (ground arith))
  ]

  after-keys : (r : ℕ) → key_at after r ≡ key_at s.nodes r
  after-keys r = elim (Bool-cases (r == p)) [
    | inl e ↦
        let same : r ≡ p = ground arith in
        key_at-node after r changed (after_self r same)
        ∙ sym (key_at-node s.nodes r n (ap s.nodes same ∙ here))
    | inr e ↦ key_at-same s.nodes after r (after_other r (ground arith))
  ]

  after-blocks : (r : ℕ) → s.nodes r ≡ none → after r ≡ none
  after-blocks r h =
      let other : r ≢ p =
        λ e. let clash : none ≡ some n = sym h ∙ ap s.nodes e ∙ here in ground arith in
      after_other r other ∙ h

  after-Written : Written s.nodes after p i q
  after-Written = record {
    at = link_of-node after p i changed (after_self p refl) ∙ get_elem?-set_at_self i q n.link fits;
    links = after-links;
    keys = after-keys;
    blocks = after-blocks;
  }

-- A write to a link that there is.
pub set_link-Written :
    (s : Store) (p i : ℕ) (q r : Ptr)
    → link_of s.nodes p i ≡ some r
    → (ns : ℕ → Option Node) × (set_link p (suc i) q s ≡ some (on s ns)) × Written s.nodes ns p i q
unfolding set_link
set_link-Written s p i q r h =
    let (n, here, at) = link_of-some s.nodes p i r h in
    let fits = length-get_elem? n.link i r at in
    (
      after s p i q n here fits,
      rw (here, ◌>>=◌) (rw (lt→ltb i (length n.link) fits) refl),
      after-Written s p i q n here fits,
    )
