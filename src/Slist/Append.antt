-- ===== src/Slist/Append.antt =====
-- add_node of a new node puts its text at the end of the list.
use miscellaneous_repo.Prelude.{
  ℕ, zero, suc, ◌+◌, ◌<◌, ◌≡◌, refl, sym, ap, ◌∙◌, inl, inr, true, false, Option, none, some, List,
  [], ◌∷◌, ◌++◌, arith, ◌==◌, ==_iff, Bool-cases, length, length-append,
}
use miscellaneous_repo.Event.Members.{member, head?, Distinct, snoc-Distinct}
use miscellaneous_repo.Slist.{Snode, Slist, put_snode, new_node, add_node, texts}

abbrev pub last_of : ℕ → List ℕ → ℕ
last_of p [] = p
last_of p (q ∷ qs) = last_of q qs

abbrev pub last? : List ℕ → Option ℕ
last? [] = none
last? (p ∷ ps) = some (last_of p ps)

-- Each node points to the one behind it.
abbrev pub Linked : (ℕ → Snode) → List ℕ → Type 0
Linked nodes [] = Unit {0}
Linked nodes (p ∷ ps) = ((nodes p).next ≡ head? ps) × Linked nodes ps

-- `l` is the list of the nodes `ps`, from first to last.
pub record IsList (l : Slist) (nodes : ℕ → Snode) (ps : List ℕ) : Type 0 where
  pub size : l.size ≡ length ps
  pub head : l.head ≡ head? ps
  pub tail : l.tail ≡ last? ps
  pub linked : Linked nodes ps
  pub distinct : Distinct ps

abbrev pub contents : (ℕ → Snode) → List ℕ → List (List ℕ)
contents nodes [] = []
contents nodes (p ∷ ps) = (nodes p).data_ ∷ contents nodes ps

texts-Linked :
    (f : ℕ) (nodes : ℕ → Snode) (ps : List ℕ)
    → Linked nodes ps
    → length ps < f
    → texts f (head? ps) nodes ≡ contents nodes ps
unfolding texts
texts-Linked zero nodes ps h lt = absurd (omega arith)
texts-Linked (suc f) nodes [] h lt = refl
texts-Linked (suc f) nodes (p ∷ ps) h lt =
    ap (◌∷◌ (nodes p).data_)
      (ap (λ q. texts f q nodes) h.0 ∙ texts-Linked f nodes ps h.1 (omega arith))

-- The loop of main over a list prints the texts of its nodes in order.
pub texts-IsList :
    (l : Slist) (nodes : ℕ → Snode) (ps : List ℕ)
    → IsList l nodes ps
    → texts (suc l.size) l.head nodes ≡ contents nodes ps
texts-IsList l nodes ps v =
    ap (λ q. texts (suc l.size) q nodes) v.head
    ∙ texts-Linked (suc l.size) nodes ps v.linked (omega (arith, v.size))

last-member : (p : ℕ) (qs : List ℕ) → member (last_of p qs) (p ∷ qs) ≡ true
last-member p [] = ground arith
last-member p (q ∷ qs) = ground (arith, last-member q qs)

last_of-append : (p : ℕ) (qs : List ℕ) (b : ℕ) → last_of p (qs ++ (b ∷ [])) ≡ b
last_of-append p [] b = refl
last_of-append p (q ∷ qs) b = last_of-append q qs b

module _ (b : ℕ) (n : Snode) where
  -- A node that is not in the list does not matter to it.
  Linked-outside :
      (nodes : ℕ → Snode) (ps : List ℕ)
      → member b ps ≡ false
      → Linked nodes ps
      → Linked (put_snode b n nodes) ps
  Linked-outside nodes [] out h = tt
  Linked-outside nodes (p ∷ ps) out h =
      (ground (arith, h.0, out), Linked-outside nodes ps (ground (arith, out)) h.1)

  contents-outside :
      (nodes : ℕ → Snode) (ps : List ℕ)
      → member b ps ≡ false
      → contents (put_snode b n nodes) ps ≡ contents nodes ps
  contents-outside nodes [] out = refl
  contents-outside nodes (p ∷ ps) out = ground (arith, out, contents-outside nodes ps)

-- The last node of a list comes to point to `b`.
abbrev pointed : (ℕ → Snode) → ℕ → ℕ → ℕ → Snode
pointed nodes t b = put_snode t (record (nodes t) { next = some b }) nodes

apart : (t p : ℕ) (xs : List ℕ) → member t xs ≡ true → member p xs ≡ false → (t == p) ≡ false
apart t p xs there out = elim (Bool-cases (t == p)) [
  | inl e ↦ absurd (ground (arith, sym there ∙ ap (λ x. member x xs) ((==_iff t p).0 e) ∙ out))
  | inr e ↦ e
]

Linked-snoc :
    (nodes : ℕ → Snode) (p : ℕ) (qs : List ℕ) (b : ℕ)
    → Linked nodes (p ∷ qs)
    → Distinct (p ∷ qs)
    → member b (p ∷ qs) ≡ false
    → (nodes b).next ≡ none
    → Linked (pointed nodes (last_of p qs) b) (p ∷ (qs ++ (b ∷ [])))
Linked-snoc nodes p [] b h d out end = (ground arith, (ground (arith, out, end), tt))
Linked-snoc nodes p (q ∷ qs) b h d out end = (
  rw (apart (last_of q qs) p (q ∷ qs) (last-member q qs) d.0) h.0,
  Linked-snoc nodes q qs b h.1 d.1 (ground (arith, out)) end,
)

contents-pointed :
    (nodes : ℕ → Snode) (t b : ℕ) (ps : List ℕ)
    → contents (pointed nodes t b) ps ≡ contents nodes ps
contents-pointed nodes t b [] = refl
contents-pointed nodes t b (p ∷ ps) = ground (arith, contents-pointed nodes t b ps)

contents-append :
    (nodes : ℕ → Snode) (ps qs : List ℕ)
    → contents nodes (ps ++ qs) ≡ contents nodes ps ++ contents nodes qs
contents-append nodes [] qs = refl
contents-append nodes (p ∷ ps) qs = ap (◌∷◌ (nodes p).data_) (contents-append nodes ps qs)

-- new_node and add_node, for a block that is not in the list: the call has no fault, and the list is then
-- one of the old nodes and the new one at its end, with the old texts and the new one behind them.
pub add_node-appends :
    (l : Slist) (nodes : ℕ → Snode) (ps : List ℕ) (b : ℕ) (text : List ℕ)
    → IsList l nodes ps
    → member b ps ≡ false
    → (l' : Slist) × (nodes' : ℕ → Snode) × (add_node l b (new_node b text nodes)
        ≡ some (l', nodes'))
      × IsList l' nodes' (ps ++ (b ∷ []))
      × (contents nodes' (ps ++ (b ∷ [])) ≡ contents nodes ps ++ (text ∷ []))
unfolding add_node new_node
add_node-appends l nodes [] b text v out = (
  record { size = 1; head = some b; tail = some b },
  new_node b text nodes,
  rw (v.size) refl,
  record {
    size = refl;
    head = refl;
    tail = refl;
    linked = (ground arith, tt);
    distinct = (refl, tt);
  },
  ground arith,
)
add_node-appends l nodes (p ∷ qs) b text v out =
    let n : Snode = record { data_ = text; next = none } in
    let new = put_snode b n nodes in
    let here : (new b) ≡ n = ground arith in
    (
      record { size = l.size + 1; head = l.head; tail = some b },
      pointed new (last_of p qs) b,
      rw (v.size, v.tail) refl,
      record {
        size = omega (arith, v.size, length-append qs (b ∷ []));
        head = v.head;
        tail = ap some (sym (last_of-append p qs b));
        linked =
            Linked-snoc new p qs b (Linked-outside b n nodes (p ∷ qs) out v.linked) v.distinct out
              (ap (λ m. m.next) here);
        distinct = snoc-Distinct b (p ∷ qs) out v.distinct;
      },
      contents-pointed new (last_of p qs) b (p ∷ (qs ++ (b ∷ [])))
          ∙ contents-append new (p ∷ qs) (b ∷ [])
          ∙ ap (λ xs. xs ++ ((new b).data_ ∷ [])) (contents-outside b n nodes (p ∷ qs) out)
          ∙ ap (λ m. contents nodes (p ∷ qs) ++ (m.data_ ∷ [])) here,
    )
