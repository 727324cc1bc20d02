-- ===== src/Event/Poll/Rearm.antt =====
-- The next deadline that event_process_active gives a persistent event.
use miscellaneous_repo.Prelude.{inl, inr, if◌then◌else◌, Bool-cases}
use miscellaneous_repo.Prelude.Int.{pos, ◌≤ℤ◌, ltb_ℤ}
use miscellaneous_repo.Event.Time.{Timeval, timeadd, timecmp}
use miscellaneous_repo.Event.Time.Laws.{
  micros, IsNormal, timeadd_lem, time_laws, NotAfter, not_sooner→NotAfter,
}
use miscellaneous_repo.Event.{Evt, Os, ListLib, TreeLib}
use miscellaneous_repo.Event.Poll.{next_deadline}

micros→NotAfter : (a b : Timeval) → IsNormal a → IsNormal b → micros a ≤ℤ micros b → NotAfter a b
micros→NotAfter a b na nb h = omega (time_laws, h, na.nonneg, na.below, nb.nonneg, nb.below)

added-NotAfter :
    (now t : Timeval) → IsNormal now → IsNormal t → pos 0 ≤ℤ t.sec → NotAfter now (timeadd now t)
added-NotAfter now t n nt le =
    let sum = timeadd_lem now t n nt in
    micros→NotAfter now (timeadd now t) n (sum.1) (rw sum.0 (omega (time_laws, le, nt.nonneg)))

-- The next deadline of an event with an interval that is normal and not negative, at a normal time `now`,
-- is not before `now`, however late the loop is.
pub next_deadline-NotAfter :
    {E C : Type 0} (os : Os E C) (ll : ListLib C) (tl : TreeLib) (e : Evt) (now : Timeval)
    → IsNormal now
    → IsNormal e.timeout
    → pos 0 ≤ℤ e.timeout.sec
    → NotAfter now (next_deadline os ll tl e now)
unfolding next_deadline
next_deadline-NotAfter os ll tl e now n nt le =
    let next = timeadd (if e.res.timeout then e.evt_timeout else now) e.timeout in
    elim (Bool-cases (ltb_ℤ (timecmp next now) (pos 0))) [
      | inl late ↦ rw late (added-NotAfter now e.timeout n nt le)
      | inr fine ↦ rw fine (not_sooner→NotAfter next now fine)
    ]
