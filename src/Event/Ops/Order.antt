-- ===== src/Event/Ops/Order.antt =====
-- The walk of event_add_timeout keeps the time tree in the order of the deadlines.
use miscellaneous_repo.Prelude.{
  ℕ, suc, ◌≡◌, refl, sym, ap, subst, ◌∙◌, inl, inr, true, false, List, [], ◌∷◌, ◌++◌, arith, ◌==◌,
  if◌then◌else◌, Bool-cases, length,
}
use miscellaneous_repo.Prelude.Int.{pos, ltb_ℤ}
use miscellaneous_repo.Event.Time.{Timeval, timecmp}
use miscellaneous_repo.Event.Time.Laws.{
  NotAfter, NotAfter-trans, sooner→NotAfter, not_sooner→NotAfter, sooner→not,
}
use miscellaneous_repo.Event.Members.{member, remove, Distinct}
use miscellaneous_repo.Event.{Evt, Tree, leaf, node, inorder}
use miscellaneous_repo.Event.Ops.{walk}

module _ (key : ℕ → Timeval) where
  abbrev pub NotAfterAll : Timeval → List ℕ → Type 0
  NotAfterAll t [] = Unit {0}
  NotAfterAll t (x ∷ xs) = NotAfter t (key x) × NotAfterAll t xs

  abbrev pub Sorted : List ℕ → Type 0
  Sorted [] = Unit {0}
  Sorted (x ∷ xs) = NotAfterAll (key x) xs × Sorted xs

  -- The place of a new entry with the key `t`: behind all that are not later.
  pub insert_by : Timeval → ℕ → List ℕ → List ℕ
  insert_by t i [] = i ∷ []
  insert_by t i (x ∷ xs) =
      if ltb_ℤ (timecmp t (key x)) (pos 0) then i ∷ x ∷ xs else x ∷ insert_by t i xs

  NotAfterAll-trans :
      (a b : Timeval) (xs : List ℕ) → NotAfter a b → NotAfterAll b xs → NotAfterAll a xs
  NotAfterAll-trans a b [] h k = tt
  NotAfterAll-trans a b (x ∷ xs) h k =
      (NotAfter-trans a b (key x) h k.0, NotAfterAll-trans a b xs h k.1)

  pub member-insert_by :
      (t : Timeval) (i j : ℕ) (xs : List ℕ)
      → member j (insert_by t i xs) ≡ (if i == j then true else member j xs)
  unfolding insert_by
  member-insert_by t i j [] = ground arith
  member-insert_by t i j (x ∷ xs) = ground (arith, member-insert_by t i j xs)

  pub length-insert_by :
      (t : Timeval) (i : ℕ) (xs : List ℕ) → length (insert_by t i xs) ≡ suc (length xs)
  unfolding insert_by
  length-insert_by t i [] = refl
  length-insert_by t i (x ∷ xs) = ground (arith, length-insert_by t i xs)

  pub insert_by-Distinct :
      (t : Timeval) (i : ℕ) (xs : List ℕ)
      → member i xs ≡ false
      → Distinct xs
      → Distinct (insert_by t i xs)
  unfolding insert_by
  insert_by-Distinct t i [] h d = (refl, tt)
  insert_by-Distinct t i (x ∷ xs) h d = elim (Bool-cases (ltb_ℤ (timecmp t (key x)) (pos 0))) [
    | inl e ↦ rw e (h, d)
    | inr e ↦ rw e (
      ground (arith, member-insert_by t i x xs, d.0),
      insert_by-Distinct t i xs (ground arith) d.1,
    )
  ]

  insert_by-NotAfterAll :
      (t u : Timeval) (i : ℕ) (xs : List ℕ)
      → t ≡ key i
      → NotAfter u t
      → NotAfterAll u xs
      → NotAfterAll u (insert_by t i xs)
  unfolding insert_by
  insert_by-NotAfterAll t u i [] e h k = (subst (NotAfter u) e h, tt)
  insert_by-NotAfterAll t u i (x ∷ xs) e h k =
      elim (Bool-cases (ltb_ℤ (timecmp t (key x)) (pos 0))) [
        | inl c ↦ rw c (subst (NotAfter u) e h, k)
        | inr c ↦ rw c (k.0, insert_by-NotAfterAll t u i xs e h k.1)
      ]

  pub insert_by-Sorted :
      (t : Timeval) (i : ℕ) (xs : List ℕ) → t ≡ key i → Sorted xs → Sorted (insert_by t i xs)
  unfolding insert_by
  insert_by-Sorted t i [] e s = (tt, tt)
  insert_by-Sorted t i (x ∷ xs) e s = elim (Bool-cases (ltb_ℤ (timecmp t (key x)) (pos 0))) [
    | inl c ↦
        let le = sooner→NotAfter t (key x) c in
        rw c (subst (λ u. NotAfterAll u (x ∷ xs)) e (le, NotAfterAll-trans t (key x) xs le s.0), s)
    | inr c ↦ rw c (
      insert_by-NotAfterAll t (key x) i xs e (not_sooner→NotAfter t (key x) c) s.0,
      insert_by-Sorted t i xs e s.1,
    )
  ]

  -- To the left of an entry that is later, nothing changes for the entries behind it.
  insert_by-left :
      (t : Timeval) (i j : ℕ) (xs ys : List ℕ)
      → ltb_ℤ (timecmp t (key j)) (pos 0) ≡ true
      → insert_by t i (xs ++ (j ∷ ys)) ≡ insert_by t i xs ++ (j ∷ ys)
  unfolding insert_by
  insert_by-left t i j [] ys c = rw c
  insert_by-left t i j (x ∷ xs) ys c = elim (Bool-cases (ltb_ℤ (timecmp t (key x)) (pos 0))) [
    | inl d ↦ rw d
    | inr d ↦ rw d (ap (◌∷◌ x) (insert_by-left t i j xs ys c))
  ]

  NotAfterAll-mid :
      (u : Timeval) (xs : List ℕ) (j : ℕ) (ys : List ℕ)
      → NotAfterAll u (xs ++ (j ∷ ys))
      → NotAfter u (key j)
  NotAfterAll-mid u [] j ys h = h.0
  NotAfterAll-mid u (x ∷ xs) j ys h = NotAfterAll-mid u xs j ys h.1

  pub NotAfterAll-left :
      (u : Timeval) (xs ys : List ℕ) → NotAfterAll u (xs ++ ys) → NotAfterAll u xs
  NotAfterAll-left u [] ys h = tt
  NotAfterAll-left u (x ∷ xs) ys h = (h.0, NotAfterAll-left u xs ys h.1)

  pub Sorted-left : (xs ys : List ℕ) → Sorted (xs ++ ys) → Sorted xs
  Sorted-left [] ys s = tt
  Sorted-left (x ∷ xs) ys s = (NotAfterAll-left (key x) xs ys s.0, Sorted-left xs ys s.1)

  pub Sorted-right : (xs ys : List ℕ) → Sorted (xs ++ ys) → Sorted ys
  Sorted-right [] ys s = s
  Sorted-right (x ∷ xs) ys s = Sorted-right xs ys s.1

  -- Behind an entry that is not later, nothing changes for the entries before it.
  insert_by-right :
      (t : Timeval) (i j : ℕ) (xs ys : List ℕ)
      → Sorted (xs ++ (j ∷ ys))
      → ltb_ℤ (timecmp t (key j)) (pos 0) ≡ false
      → insert_by t i (xs ++ (j ∷ ys)) ≡ xs ++ (j ∷ insert_by t i ys)
  unfolding insert_by
  insert_by-right t i j [] ys s c = rw c
  insert_by-right t i j (x ∷ xs) ys s c =
      let le =
        NotAfter-trans (key x) (key j) t (NotAfterAll-mid (key x) xs j ys s.0)
          (not_sooner→NotAfter t (key j) c) in
      elim (Bool-cases (ltb_ℤ (timecmp t (key x)) (pos 0))) [
        | inl d ↦ absurd (sooner→not t (key x) d le)
        | inr d ↦ rw d (ap (◌∷◌ x) (insert_by-right t i j xs ys s.1 c))
      ]

  NotAfterAll-remove :
      (u : Timeval) (i : ℕ) (xs : List ℕ) → NotAfterAll u xs → NotAfterAll u (remove i xs)
  NotAfterAll-remove u i [] h = tt
  NotAfterAll-remove u i (x ∷ xs) h = elim (Bool-cases (x == i)) [
    | inl e ↦ rw e h.1
    | inr e ↦ rw e (h.0, NotAfterAll-remove u i xs h.1)
  ]

  pub remove-Sorted : (i : ℕ) (xs : List ℕ) → Sorted xs → Sorted (remove i xs)
  remove-Sorted i [] s = tt
  remove-Sorted i (x ∷ xs) s = elim (Bool-cases (x == i)) [
    | inl e ↦ rw e s.1
    | inr e ↦ rw e (NotAfterAll-remove (key x) i xs s.0, remove-Sorted i xs s.1)
  ]

-- Only the keys of the entries count.
module _ (key other : ℕ → Timeval) where
  NotAfterAll-same :
      (t : Timeval) (xs : List ℕ)
      → ((j : ℕ) → member j xs ≡ true → other j ≡ key j)
      → NotAfterAll key t xs
      → NotAfterAll other t xs
  NotAfterAll-same t [] e h = tt
  NotAfterAll-same t (x ∷ xs) e h = (
    subst (NotAfter t) (sym (e x (ground arith))) h.0,
    NotAfterAll-same t xs (λ j m. e j (ground arith)) h.1,
  )

  pub Sorted-same :
      (xs : List ℕ)
      → ((j : ℕ) → member j xs ≡ true → other j ≡ key j)
      → Sorted key xs
      → Sorted other xs
  Sorted-same [] e s = tt
  Sorted-same (x ∷ xs) e s = (
    subst (λ t. NotAfterAll other t xs) (sym (e x (ground arith)))
        (NotAfterAll-same (key x) xs (λ j m. e j (ground arith)) s.0),
    Sorted-same xs (λ j m. e j (ground arith)) s.1,
  )

-- The deadlines in a store of events.
abbrev pub deadline : (ℕ → Evt) → ℕ → Timeval
deadline evts j = (evts j).evt_timeout

-- In a tree in the order of its deadlines, the walk puts the event behind all that are not later.
pub inorder-walk :
    (evts : ℕ → Evt) (t : Timeval) (i : ℕ) (tree : Tree)
    → Sorted (deadline evts) (inorder tree)
    → inorder (walk evts t i tree) ≡ insert_by (deadline evts) t i (inorder tree)
unfolding walk inorder
inorder-walk evts t i leaf s = unfold insert_by in refl
inorder-walk evts t i (node l j r) s =
    elim (Bool-cases (ltb_ℤ (timecmp t (evts j).evt_timeout) (pos 0))) [
      | inl c ↦ rw c (
          ap (λ xs. xs ++ (j ∷ inorder r))
            (inorder-walk evts t i l (Sorted-left (deadline evts) (inorder l) (j ∷ inorder r) s))
          ∙ sym (insert_by-left (deadline evts) t i j (inorder l) (inorder r) c))
      | inr c ↦ rw c (
          ap (λ xs. inorder l ++ (j ∷ xs))
            (inorder-walk evts t i r (Sorted-right (deadline evts) (inorder l) (j ∷ inorder r) s).1)
          ∙ sym (insert_by-right (deadline evts) t i j (inorder l) (inorder r) s c))
    ]
