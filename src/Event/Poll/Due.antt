-- ===== src/Event/Poll/Due.antt =====
-- The deadlines of an ordered list that have passed come first.
use miscellaneous_repo.Prelude.{
  ℕ, ◌≡◌, refl, sym, inl, inr, Bool, true, false, not, ◌&&◌, List, [], ◌∷◌, arith, ◌==◌, ==_iff,
  Bool-cases, if◌then◌else◌,
}
use miscellaneous_repo.Prelude.Int.{pos, ltb_ℤ}
use miscellaneous_repo.Event.Time.{Timeval, timecmp}
use miscellaneous_repo.Event.Time.Laws.{
  NotAfter, NotAfter-trans, later→NotAfter, not_later→NotAfter,
}
use miscellaneous_repo.Event.Members.{member}
use miscellaneous_repo.Event.Ops.Order.{Sorted, NotAfterAll}

-- `k` is later than `now`.
abbrev pub later : Timeval → Timeval → Bool
later k now = ltb_ℤ (pos 0) (timecmp k now)

module _ (key : ℕ → Timeval) (now : Timeval) where
  -- The entries before the first that is later, and the rest.
  pub due : List ℕ → List ℕ
  due [] = []
  due (x ∷ xs) = if later (key x) now then [] else x ∷ due xs

  pub pending : List ℕ → List ℕ
  pending [] = []
  pending (x ∷ xs) = if later (key x) now then x ∷ xs else pending xs

  pub due-cons : (x : ℕ) (xs : List ℕ) → later (key x) now ≡ false → due (x ∷ xs) ≡ x ∷ due xs
  unfolding due
  due-cons x xs h = rw h

  pub pending-cons :
      (x : ℕ) (xs : List ℕ) → later (key x) now ≡ false → pending (x ∷ xs) ≡ pending xs
  unfolding pending
  pending-cons x xs h = rw h

  pub due-none : (x : ℕ) (xs : List ℕ) → later (key x) now ≡ true → due (x ∷ xs) ≡ []
  unfolding due
  due-none x xs h = rw h

  pub pending-all : (x : ℕ) (xs : List ℕ) → later (key x) now ≡ true → pending (x ∷ xs) ≡ x ∷ xs
  unfolding pending
  pending-all x xs h = rw h

  pub due-nil : due [] ≡ []
  unfolding due
  due-nil = refl

  pub pending-nil : pending [] ≡ []
  unfolding pending
  pending-nil = refl

  -- Behind a later entry there are only later ones.
  none_due :
      (u : Timeval) (j : ℕ) (xs : List ℕ)
      → ¬ NotAfter u now
      → NotAfterAll key u xs
      → (member j xs && not (later (key j) now)) ≡ false
  none_due u j [] l h = refl
  none_due u j (x ∷ xs) l h = elim (Bool-cases (x == j)) [
    | inl e ↦ elim (Bool-cases (later (key j) now)) [
      | inl f ↦ rw (e, f)
      | inr f ↦ absurd (
          l (
            NotAfter-trans u (key x) now h.0
              (rw ((==_iff x j).0 e) (not_later→NotAfter (key j) now f))))
    ]
    | inr e ↦ rw e (none_due u j xs l h.1)
  ]

  -- In an ordered list the due entries are those whose deadline has passed.
  pub member-due :
      (j : ℕ) (xs : List ℕ)
      → Sorted key xs
      → member j (due xs) ≡ (member j xs && not (later (key j) now))
  unfolding due
  member-due j [] s = refl
  member-due j (x ∷ xs) s = elim (Bool-cases (later (key x) now)) [
    | inl l ↦ rw l (
        sym (elim (Bool-cases (x == j)) [
          | inl e ↦ rw (e, ← (==_iff x j).0 e, l)
          | inr e ↦ rw e (none_due (key x) j xs (later→NotAfter (key x) now l) s.0)
        ]))
    | inr l ↦ rw l (elim (Bool-cases (x == j)) [
      | inl e ↦ rw (e, ← (==_iff x j).0 e, l)
      | inr e ↦ rw e (member-due j xs s.1)
    ])
  ]

  pub due_only : (j : ℕ) (xs : List ℕ) → member j xs ≡ false → member j (due xs) ≡ false
  unfolding due
  due_only j [] h = refl
  due_only j (x ∷ xs) h = ground (arith, due_only j xs)
