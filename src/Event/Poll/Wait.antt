-- ===== src/Event/Poll/Wait.antt =====
-- How long event_next_timeout lets epoll wait.
use miscellaneous_repo.Prelude.{
  ℕ, ◌+◌, ◌*◌, ◌/◌, ◌≤◌, ◌<◌, ◌≡◌, refl, ap, ◌⊎◌, inl, inr, true, false, some, arith, Bool-cases,
}
use miscellaneous_repo.Prelude.Int.{
  ℤ, pos, negsuc, pos_part, neg_part, ◌+ℤ◌, ◌-ℤ◌, ◌*ℤ◌, ◌/ℤ◌, ◌≤ℤ◌, ltb_ℤ, int_laws,
}
use miscellaneous_repo.Event.Time.{Timeval, timesub, timecmp}
use miscellaneous_repo.Event.Time.Laws.{
  micros, IsNormal, timesub_lem, time_laws, timecmp_lem, Ordered, not_later→NotAfter,
}
use miscellaneous_repo.Event.{World, Os, ListLib, TreeLib}
use miscellaneous_repo.Event.Ops.{negative}
use miscellaneous_repo.Event.Poll.{to_s32, wait_ms, next_timeout}

abbrev span : ℕ → ℕ → Timeval
span s u = record { sec = pos s; usec = pos u }

wait_ms-small :
    (s u : ℕ) → s < 2147483 → u < 1000000 → wait_ms (span s u) ≡ pos (s * 1000 + u / 1000 + 1)
unfolding wait_ms to_s32 ◌+ℤ◌ ◌*ℤ◌ ◌/ℤ◌
wait_ms-small s u hs hu = ground arith

-- From 2147484 seconds (about 25 days) on, and below 4294967, the wait does not fit an s32 and comes out
-- negative, for which epoll waits without end.
pub wait_ms-overflows :
    (s u : ℕ)
    → 2147484 ≤ s
    → s < 4294967
    → u < 1000000
    → negative (wait_ms (record { sec = pos s; usec = pos u })) ≡ true
unfolding wait_ms to_s32 ◌+ℤ◌ ◌*ℤ◌ ◌/ℤ◌
wait_ms-overflows s u lo hi hu = ground arith

-- The wait `r` of `n` milliseconds lasts until the deadline, and at most one millisecond longer, or it is
-- no wait.
abbrev pub Enough : ℤ → ℤ → ℤ → Type 0
Enough deadline now r =
    (n : ℕ) × (r ≡ pos n)
    × (deadline ≤ℤ now +ℤ pos (n * 1000))
    × ((n ≡ 0) ⊎ (now +ℤ pos (n * 1000) ≤ℤ deadline +ℤ pos 1000))

-- The difference of two times, as a wait.
wait-Enough :
    (d now : ℤ) (sec usec : ℤ)
    → IsNormal (record { sec = sec; usec = usec })
    → micros (record { sec = sec; usec = usec }) ≡ d -ℤ now
    → now ≤ℤ d
    → d ≤ℤ now +ℤ pos 2147482000000
    → Enough d now (wait_ms (record { sec = sec; usec = usec }))
wait-Enough d now (pos s) (pos u) norm e lo hi =
    let small : s < 2147483 = omega (time_laws, ap pos_part e, ap neg_part e) in
    let below : u < 1000000 = omega (time_laws, norm.below) in
    (
      s * 1000 + u / 1000 + 1,
      wait_ms-small s u small below,
      omega (time_laws, ap pos_part e, ap neg_part e),
      inr (omega (time_laws, ap pos_part e, ap neg_part e)),
    )
wait-Enough d now (negsuc s) (pos u) norm e lo hi =
    absurd (omega (time_laws, norm.below, ap pos_part e, ap neg_part e))
wait-Enough d now s (negsuc u) norm e lo hi = absurd (omega (arith, norm.nonneg))

module _ {E C : Type 0} (os : Os E C) (ll : ListLib C) (tl : TreeLib) (w : World E C) where
  next_timeout-later :
      (p : ℕ) (now : Timeval)
      → tl.first w.base.tree ≡ some p
      → (os.clock w.env).0 ≡ some now
      → ltb_ℤ (pos 0) (timecmp (w.evts p).evt_timeout now) ≡ true
      → (next_timeout os ll tl w).0 ≡ wait_ms (timesub (w.evts p).evt_timeout now)
  unfolding next_timeout
  next_timeout-later p now first clock later =
      rw (first, next_timeout) (rw (clock, next_timeout) (rw later))

  next_timeout-now :
      (p : ℕ) (now : Timeval)
      → tl.first w.base.tree ≡ some p
      → (os.clock w.env).0 ≡ some now
      → ltb_ℤ (pos 0) (timecmp (w.evts p).evt_timeout now) ≡ false
      → (next_timeout os ll tl w).0 ≡ pos 0
  unfolding next_timeout
  next_timeout-now p now first clock later =
      rw (first, next_timeout) (rw (clock, next_timeout) (rw later))

  -- event_next_timeout, where `p` is the first event of the tree and the clock says `now`, both times are
  -- normal and the deadline is less than 2147482 seconds away: epoll waits until the deadline and at most
  -- a millisecond longer, or not at all if it has passed.
  pub next_timeout-Enough :
      (p : ℕ) (now : Timeval)
      → tl.first w.base.tree ≡ some p
      → (os.clock w.env).0 ≡ some now
      → IsNormal (w.evts p).evt_timeout
      → IsNormal now
      → micros (w.evts p).evt_timeout ≤ℤ micros now +ℤ pos 2147482000000
      → Enough (micros (w.evts p).evt_timeout) (micros now) (next_timeout os ll tl w).0
  next_timeout-Enough p now first clock nd nn hi =
      let d = (w.evts p).evt_timeout in
      elim (Bool-cases (ltb_ℤ (pos 0) (timecmp d now))) [
        | inr passed ↦
            let le = not_later→NotAfter d now passed in
            (0, next_timeout-now p now first clock passed, omega (time_laws, le, nd, nn), inl refl)
        | inl later ↦
            let sub = timesub_lem d now nd nn in
            let lo : micros now ≤ℤ micros d = omega (time_laws, later_than d now later nd nn) in
            rw (next_timeout-later p now first clock later) (
              wait-Enough (micros d) (micros now) (timesub d now).sec (timesub d now).usec sub.1
                sub.0 lo hi)
      ]
    where
      later_than :
          (a b : Timeval)
          → ltb_ℤ (pos 0) (timecmp a b) ≡ true
          → IsNormal a
          → IsNormal b
          → micros b ≤ℤ micros a
      later_than a b h na nb = go (timecmp_lem a b na nb) h
        where
          go : {r : ℤ} → Ordered a b r → ltb_ℤ (pos 0) r ≡ true → micros b ≤ℤ micros a
          go (inl (e, k)) h = absurd (ground (arith, e, h))
          go (inr (inl (e, k))) h = absurd (ground (arith, e, h))
          go (inr (inr (e, k))) h = omega (int_laws, k)
