-- ===== src/ResetEvent/Returns.antt =====
-- What the waits of ManualResetEvent return.
use miscellaneous_repo.Prelude.{
  ℕ, ◌≡◌, refl, sym, ap, ◌∙◌, ◌⊎◌, inl, inr, Bool, true, false, arith, ◌==◌, Bool-cases,
}
use miscellaneous_repo.ResetEvent.{
  Waiter, outside, checking, asleep, returned, ManualResetEvent, put_waiter, set_locked, notify,
  woken, reset, look, looked, Step, sets, notifies, notifies_nobody, resets, calls, looks, wakes,
  times_out, is_signaled,
}

-- A wait that returns in a step, and what it says.
returned-cases :
    (i w : ℕ) (x : Waiter) (e : ManualResetEvent) (b : Bool)
    → (put_waiter i x e).waiters w ≡ returned b
    → ((i ≡ w) × (x ≡ returned b)) ⊎ (e.waiters w ≡ returned b)
returned-cases i w x e b h = elim (Bool-cases (i == w)) [
  | inl same ↦ inl (ground arith, sym (rw same refl) ∙ h)
  | inr other ↦ inr (sym (rw other refl) ∙ h)
]

not_returned : (x : Waiter) (b : Bool) → woken x ≡ returned b → x ≡ returned b
not_returned outside b h = ground arith
not_returned (checking t) b h = ground arith
not_returned (asleep t) b h = ground arith
not_returned (returned c) b h = h

-- A wait that has returned: it had before, the event is set and it says so, or it was in the wait with a
-- timeout, the event is not set, and it says that.
abbrev pub Returns : ManualResetEvent → ℕ → Bool → Type 0
Returns e w b =
    (e.waiters w ≡ returned b)
    ⊎ (((e.signaled ≡ true) × (b ≡ true))
        ⊎ ((e.waiters w ≡ asleep true) × ((e.signaled ≡ false) × (b ≡ false))))

look-Returns :
    (e : ManualResetEvent) (w : ℕ) (t s b : Bool)
    → e.signaled ≡ s
    → looked s (checking t) ≡ returned b
    → Returns e w b
look-Returns e w t true b on h = inr (inl (on, ground arith))
look-Returns e w t false b off h = ground arith

time_up-Returns :
    (e : ManualResetEvent) (w : ℕ) (s b : Bool)
    → e.waiters w ≡ asleep true
    → e.signaled ≡ s
    → s ≡ b
    → Returns e w b
time_up-Returns e w true b at on h = inr (inl (on, sym h))
time_up-Returns e w false b at off h = inr (inr (at, (off, sym h)))

-- However many threads wait: where a wait has returned after a step, it had returned that already, or the
-- event was set and the wait returns true, or the wait was one with a timeout, asleep, the event was not
-- set and the wait returns false. So no other wait returns false, and none returns while the event is not
-- set unless its time is up.
pub Step-returned :
    (w : ℕ) (b : Bool) (e e' : ManualResetEvent)
    → Step e e'
    → e'.waiters w ≡ returned b
    → Returns e w b
unfolding set_locked notify reset look is_signaled
Step-returned w b e _ sets h = inl h
Step-returned w b e _ (notifies i t some_ at) h =
    elim (returned-cases i w (woken (e.waiters i)) e b h) [
      | inl (same, back) ↦ inl (ap e.waiters (sym same) ∙ not_returned (e.waiters i) b back)
      | inr before ↦ inl before
    ]
Step-returned w b e _ (notifies_nobody i some_ none_) h =
    elim (returned-cases i w (woken (e.waiters i)) e b h) [
      | inl (same, back) ↦ inl (ap e.waiters (sym same) ∙ not_returned (e.waiters i) b back)
      | inr before ↦ inl before
    ]
Step-returned w b e _ resets h = inl h
Step-returned w b e _ (calls i t at) h = elim (returned-cases i w (checking t) e b h) [
  | inl (same, back) ↦ ground arith
  | inr before ↦ inl before
]
Step-returned w b e _ (looks i t at) h =
    elim (returned-cases i w (looked e.signaled (e.waiters i)) e b h) [
      | inl (same, back) ↦
          look-Returns e w t e.signaled b refl (sym (ap (looked e.signaled) at) ∙ back)
      | inr before ↦ inl before
    ]
Step-returned w b e _ (wakes i t at) h = elim (returned-cases i w (checking t) e b h) [
  | inl (same, back) ↦ ground arith
  | inr before ↦ inl before
]
Step-returned w b e _ (times_out i at) h = elim (returned-cases i w (returned e.signaled) e b h) [
  | inl (same, back) ↦
      time_up-Returns e w e.signaled b (ap e.waiters (sym same) ∙ at) refl (ground arith)
  | inr before ↦ inl before
]
