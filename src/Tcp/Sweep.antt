-- ===== src/Tcp/Sweep.antt =====
-- The loop of timer_handler, and the interval of the timer.
use miscellaneous_repo.Prelude.{
  ℕ, zero, suc, ◌+◌, ◌*◌, ◌<◌, ◌≤◌, ◌≡◌, refl, ◌∙◌, inl, inr, Bool, true, false, ◌&&◌, ◌||◌, List,
  [], ◌∷◌, ◌++◌, arith, ltb, leb, ◌==◌, if◌then◌else◌, Bool-cases,
}
use miscellaneous_repo.Tcp.{max_fd, Fds, timer_spec, is_old, visit, sweep, timer_handler}

abbrev pub mem : ℕ → List ℕ → Bool
mem j [] = false
mem j (i ∷ is) = (i == j) || mem j is

mem-snoc : (j i : ℕ) (is : List ℕ) → mem j (is ++ (i ∷ [])) ≡ (mem j is || (i == j))
mem-snoc j i [] = ground arith
mem-snoc j i (k ∷ is) = ground (arith, mem-snoc j i is)

module _ (closes : ℕ → Bool) (now : ℕ) where
  -- The descriptors from `i` on, `left` in all, that are old and can be closed.
  abbrev pub due : (left i : ℕ) → Fds → ℕ → Bool
  due left i fds j = (leb i j && ltb j (i + left)) && (is_old now fds j && closes j)

  visit-fds :
      (i : ℕ) (s : Fds × List ℕ) (j : ℕ)
      → (visit closes now i s).0 j
        ≡ (if (i == j) && (is_old now s.0 j && closes j) then 0 else s.0 j)
  unfolding visit
  visit-fds i s j = elim (Bool-cases (i == j)) [
    | inr ne ↦ elim (Bool-cases (is_old now s.0 i && closes i)) [
      | inl d ↦ rw (d, ne) refl
      | inr d ↦ rw (d, ne) refl
    ]
    | inl eq ↦
        let same : i ≡ j = ground arith in
        let self : (j == j) ≡ true = ground arith in
        elim (Bool-cases (is_old now s.0 j && closes j)) [
          | inl d ↦ rw (same, d, self) refl
          | inr d ↦ rw (same, d, self) refl
        ]
  ]

  sweep-fds :
      (left i : ℕ) (s : Fds × List ℕ) (j : ℕ)
      → (sweep closes now left i s).0 j ≡ (if due left i s.0 j then 0 else s.0 j)
  unfolding sweep is_old
  sweep-fds zero i s j = ground arith
  sweep-fds (suc left) i s j =
      sweep-fds left (i + 1) (visit closes now i s) j ∙ rw (visit-fds i s j) (ground arith)

  visit-mem :
      (i : ℕ) (s : Fds × List ℕ) (j : ℕ)
      → mem j (visit closes now i s).1 ≡ (mem j s.1 || ((i == j) && (is_old now s.0 j && closes j)))
  unfolding visit
  visit-mem i s j = elim (Bool-cases (i == j)) [
    | inr ne ↦ elim (Bool-cases (is_old now s.0 i && closes i)) [
      | inl d ↦ rw (d, ne) (mem-snoc j i s.1 ∙ rw ne refl)
      | inr d ↦ rw (d, ne) (ground arith)
    ]
    | inl eq ↦
        let same : i ≡ j = ground arith in
        let self : (j == j) ≡ true = ground arith in
        elim (Bool-cases (is_old now s.0 j && closes j)) [
          | inl d ↦ rw (same, d, self) (mem-snoc j j s.1 ∙ rw self refl)
          | inr d ↦ rw (same, d, self) (ground arith)
        ]
  ]

  sweep-mem :
      (left i : ℕ) (s : Fds × List ℕ) (j : ℕ)
      → mem j (sweep closes now left i s).1 ≡ (mem j s.1 || due left i s.0 j)
  unfolding sweep is_old
  sweep-mem zero i s j = ground arith
  sweep-mem (suc left) i s j =
      sweep-mem left (i + 1) (visit closes now i s) j
      ∙ rw (visit-fds i s j, visit-mem i s j) (ground arith)

  -- timer_handler clears the entry of each descriptor of the table that is old and that close takes, and no
  -- other, and these are the descriptors it closes.
  pub timer_handler-due :
      (fds : Fds) (j : ℕ)
      → ((timer_handler closes now fds).0 j ≡ (if due (max_fd + 1) 0 fds j then 0 else fds j))
        × (mem j (timer_handler closes now fds).1 ≡ due (max_fd + 1) 0 fds j)
  unfolding timer_handler
  timer_handler-due fds j =
      (sweep-fds (max_fd + 1) 0 (fds, []) j, sweep-mem (max_fd + 1) 0 (fds, []) j)

  -- After timer_handler no entry of the table is old, unless close did not take its descriptor.
  pub timer_handler-is_old :
      (fds : Fds) (j : ℕ)
      → j ≤ max_fd
      → closes j ≡ true
      → is_old now (timer_handler closes now fds).0 j ≡ false
  unfolding is_old
  timer_handler-is_old fds j h c = rw ((timer_handler-due fds j).0, c) (ground arith)

-- The interval of timer_set is the number of milliseconds it is given, and its nanoseconds are in range.
pub timer_spec-milliseconds :
    (milliseconds : ℕ)
    → ((timer_spec milliseconds).interval_sec * 1000000000 + (timer_spec milliseconds).interval_nsec
        ≡ milliseconds * 1000000)
      × ((timer_spec milliseconds).interval_nsec < 1000000000)
unfolding timer_spec
timer_spec-milliseconds milliseconds = (omega arith, omega arith)
