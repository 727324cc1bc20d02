-- ===== src/Event/Time/Laws.antt =====
-- A `struct timeval` as a number of microseconds.
use miscellaneous_repo.Prelude.{◌≡◌, refl, ◌⊎◌, inl, inr, true, false, arith, Bool-cases, ltb→lt}
use miscellaneous_repo.Prelude.Int.{
  ℤ, pos, negsuc, ◌+ℤ◌, ◌-ℤ◌, ◌*ℤ◌, ◌≤ℤ◌, ltb_ℤ, pos_part, neg_part, int_laws, *ℤ_parts, +ℤ_parts,
  -ℤ_parts, eq_of_parts,
}
use miscellaneous_repo.Event.Time.{Timeval, million, timeadd, timesub, timecmp}

abbrev pub micros : Timeval → ℤ
micros t = t.sec *ℤ million +ℤ t.usec

-- The microseconds are less than a second.
pub record IsNormal (t : Timeval) : Type 0 where
  pub nonneg : pos 0 ≤ℤ t.usec
  pub below : t.usec +ℤ pos 1 ≤ℤ million

pub ruleset time_laws = (int_laws, *ℤ_parts)

pub ltb_ℤ→ : (a b : ℤ) → ltb_ℤ a b ≡ true → a +ℤ pos 1 ≤ℤ b
ltb_ℤ→ a b h = omega (int_laws, ltb→lt _ _ h)

pub ltb_ℤ→le : (a b : ℤ) → ltb_ℤ a b ≡ false → b ≤ℤ a
ltb_ℤ→le a b h = ground arith

-- event_timeadd adds the two times, and keeps the microseconds below a second.
pub timeadd_lem :
    (a b : Timeval)
    → IsNormal a
    → IsNormal b
    → (micros (timeadd a b) ≡ micros a +ℤ micros b) × IsNormal (timeadd a b)
unfolding timeadd
timeadd_lem a b na nb = elim (Bool-cases (ltb_ℤ (a.usec +ℤ b.usec) million)) [
  | inl lt ↦
      let l = ltb_ℤ→ (a.usec +ℤ b.usec) million lt in rw lt (omega time_laws, omega (time_laws, l))
  | inr ge ↦
      let l = ltb_ℤ→le (a.usec +ℤ b.usec) million ge in
      rw ge (omega time_laws, omega (time_laws, l))
]

-- event_timesub subtracts them, and keeps the microseconds between zero and a second.
pub timesub_lem :
    (a b : Timeval)
    → IsNormal a
    → IsNormal b
    → (micros (timesub a b) ≡ micros a -ℤ micros b) × IsNormal (timesub a b)
unfolding timesub
timesub_lem a b na nb = elim (Bool-cases (ltb_ℤ (a.usec -ℤ b.usec) (pos 0))) [
  | inl lt ↦
      let l = ltb_ℤ→ (a.usec -ℤ b.usec) (pos 0) lt in rw lt (omega time_laws, omega (time_laws, l))
  | inr ge ↦
      let l = ltb_ℤ→le (a.usec -ℤ b.usec) (pos 0) ge in
      rw ge (omega time_laws, omega (time_laws, l))
]

-- The order of event_timecmp: by seconds, then by microseconds.
pub data Compared (a b : Timeval) : ℤ → Type 0 where
  sooner_sec : a.sec +ℤ pos 1 ≤ℤ b.sec → Compared a b (negsuc 0)
  sooner_usec : a.sec ≡ b.sec → a.usec +ℤ pos 1 ≤ℤ b.usec → Compared a b (negsuc 0)
  same : a.sec ≡ b.sec → a.usec ≡ b.usec → Compared a b (pos 0)
  later_sec : b.sec +ℤ pos 1 ≤ℤ a.sec → Compared a b (pos 1)
  later_usec : a.sec ≡ b.sec → b.usec +ℤ pos 1 ≤ℤ a.usec → Compared a b (pos 1)

pub timecmp-Compared : (a b : Timeval) → Compared a b (timecmp a b)
unfolding timecmp
timecmp-Compared a b = elim (Bool-cases (ltb_ℤ b.sec a.sec)) [
  | inl e ↦ rw e (later_sec (ltb_ℤ→ b.sec a.sec e))
  | inr e ↦
      let h = ltb_ℤ→le b.sec a.sec e in
      elim (Bool-cases (ltb_ℤ a.sec b.sec)) [
        | inl f ↦ rw (e, f) (sooner_sec (ltb_ℤ→ a.sec b.sec f))
        | inr f ↦
            let eq : a.sec ≡ b.sec = omega (int_laws, h, ltb_ℤ→le a.sec b.sec f) in
            rw (e, f)
              (elim (Bool-cases (ltb_ℤ b.usec a.usec)) [
                | inl g ↦ rw g (later_usec eq (ltb_ℤ→ b.usec a.usec g))
                | inr g ↦
                    let l = ltb_ℤ→le b.usec a.usec g in
                    elim (Bool-cases (ltb_ℤ a.usec b.usec)) [
                      | inl k ↦ rw (g, k) (sooner_usec eq (ltb_ℤ→ a.usec b.usec k))
                      | inr k ↦ rw (g, k) (same eq (omega (int_laws, l, ltb_ℤ→le a.usec b.usec k)))
                    ]
              ])
      ]
]

-- What event_timecmp says of two times, as numbers of microseconds.
abbrev pub Ordered : Timeval → Timeval → ℤ → Type 0
Ordered a b r =
    ((r ≡ negsuc 0) × (micros a +ℤ pos 1 ≤ℤ micros b))
    ⊎ ((r ≡ pos 0) × (micros a ≡ micros b))
    ⊎ ((r ≡ pos 1) × (micros b +ℤ pos 1 ≤ℤ micros a))

-- event_timecmp orders two normal times as their numbers of microseconds.
pub timecmp_lem : (a b : Timeval) → IsNormal a → IsNormal b → Ordered a b (timecmp a b)
timecmp_lem a b na nb = go (timecmp-Compared a b)
  where
    go : {r : ℤ} → Compared a b r → Ordered a b r
    go (sooner_sec h) = inl (refl, omega time_laws)
    go (sooner_usec e h) = inl (refl, rw e (omega time_laws))
    go (same e h) = inr (inl (refl, rw (e, h)))
    go (later_sec h) = inr (inr (refl, omega time_laws))
    go (later_usec e h) = inr (inr (refl, rw e (omega time_laws)))

le_of_eq : {a b : ℤ} → a ≡ b → (a ≤ℤ b) × (b ≤ℤ a)
le_of_eq p = rw p (omega arith, omega arith)

-- Not later, by seconds and then by microseconds.
abbrev pub NotAfter : Timeval → Timeval → Type 0
NotAfter a b = (a.sec +ℤ pos 1 ≤ℤ b.sec) ⊎ ((a.sec ≤ℤ b.sec) × (a.usec ≤ℤ b.usec))

pub NotAfter-trans : (a b c : Timeval) → NotAfter a b → NotAfter b c → NotAfter a c
NotAfter-trans a b c h k = omega int_laws

-- The test of the walk through the time tree.
pub sooner→NotAfter : (a b : Timeval) → ltb_ℤ (timecmp a b) (pos 0) ≡ true → NotAfter a b
sooner→NotAfter a b = go (timecmp-Compared a b)
  where
    go : {r : ℤ} → Compared a b r → ltb_ℤ r (pos 0) ≡ true → NotAfter a b
    go (sooner_sec h) e = inl h
    go (sooner_usec p h) e = inr (rw p (omega arith), omega int_laws)
    go (same p h) e = cc
    go (later_sec h) e = cc
    go (later_usec p h) e = cc

pub not_sooner→NotAfter : (a b : Timeval) → ltb_ℤ (timecmp a b) (pos 0) ≡ false → NotAfter b a
not_sooner→NotAfter a b = go (timecmp-Compared a b)
  where
    go : {r : ℤ} → Compared a b r → ltb_ℤ r (pos 0) ≡ false → NotAfter b a
    go (sooner_sec h) e = cc
    go (sooner_usec p h) e = cc
    go (same p h) e = inr (rw p (omega arith), rw h (omega arith))
    go (later_sec h) e = inl h
    go (later_usec p h) e = inr (rw p (omega arith), omega int_laws)

-- The test of the loop over the time-outs that have passed.
pub later→NotAfter : (a b : Timeval) → ltb_ℤ (pos 0) (timecmp a b) ≡ true → ¬ NotAfter a b
later→NotAfter a b = go (timecmp-Compared a b)
  where
    go : {r : ℤ} → Compared a b r → ltb_ℤ (pos 0) r ≡ true → ¬ NotAfter a b
    go (sooner_sec h) e = cc
    go (sooner_usec p h) e = cc
    go (same p h) e = cc
    go (later_sec h) e = λ n. omega int_laws
    go (later_usec p h) e = λ n. omega (int_laws, le_of_eq p)

pub not_later→NotAfter : (a b : Timeval) → ltb_ℤ (pos 0) (timecmp a b) ≡ false → NotAfter a b
not_later→NotAfter a b = go (timecmp-Compared a b)
  where
    go : {r : ℤ} → Compared a b r → ltb_ℤ (pos 0) r ≡ false → NotAfter a b
    go (sooner_sec h) e = inl h
    go (sooner_usec p h) e = inr (rw p (omega arith), omega int_laws)
    go (same p h) e = inr (rw p (omega arith), rw h (omega arith))
    go (later_sec h) e = cc
    go (later_usec p h) e = cc

pub sooner→not : (a b : Timeval) → ltb_ℤ (timecmp a b) (pos 0) ≡ true → ¬ NotAfter b a
sooner→not a b = go (timecmp-Compared a b)
  where
    go : {r : ℤ} → Compared a b r → ltb_ℤ r (pos 0) ≡ true → ¬ NotAfter b a
    go (sooner_sec h) e = λ n. omega int_laws
    go (sooner_usec p h) e = λ n. omega (int_laws, le_of_eq p)
    go (same p h) e = cc
    go (later_sec h) e = cc
    go (later_usec p h) e = cc
