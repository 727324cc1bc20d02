-- ===== src/ResetEvent/Wait.antt =====
-- The waits of ManualResetEvent: no wake-up is lost for a thread that waits
-- alone.
use miscellaneous_repo.Prelude.{
  ℕ, zero, suc, ◌-◌, ◌≤◌, ◌≡◌, ◌≢◌, refl, sym, ap, ap₂, ◌∙◌, ◌⊎◌, inl, inr, Bool, true, false,
  arith, ◌==◌, Bool-cases,
}
use miscellaneous_repo.ResetEvent.{
  Waiter, outside, checking, asleep, returned, ManualResetEvent, put_waiter, manual_reset_event,
  set_locked, notify, woken, reset, look, looked, Step, sets, notifies, notifies_nobody, resets,
  calls, looks, wakes, times_out, is_signaled,
}

-- The thread `w` waits, and no other thread ever does.
pub data Reach (w : ℕ) (signaled : Bool) : ManualResetEvent → Type 0 where
  made : Reach w signaled (manual_reset_event signaled)
  next :
      (e e' : ManualResetEvent)
      → Reach w signaled e
      → Step e e'
      → ((j : ℕ) → j ≢ w → e'.waiters j ≡ outside)
      → Reach w signaled e'

put_self : (i : ℕ) (x : Waiter) (e : ManualResetEvent) → (put_waiter i x e).waiters i ≡ x
put_self i x e = let same : (i == i) ≡ true = ground arith in rw same refl

-- A thread that is asleep after another one's step was asleep before.
put-cases :
    (i w : ℕ) (x : Waiter) (e : ManualResetEvent) (timed : Bool)
    → (put_waiter i x e).waiters w ≡ asleep timed
    → (x ≡ asleep timed) ⊎ ((i ≢ w) × (e.waiters w ≡ asleep timed))
put-cases i w x e timed h = elim (Bool-cases (i == w)) [
  | inl same ↦ inl (sym (rw same refl) ∙ h)
  | inr other ↦ inr (ground arith, sym (rw other refl) ∙ h)
]

-- Where the event is signaled, a thread that sleeps has a notify_one before it.
abbrev NoLost : ℕ → ManualResetEvent → Type 0
NoLost w e = (timed : Bool) → e.signaled ≡ true → e.waiters w ≡ asleep timed → 1 ≤ e.pending

not_asleep : (x : Waiter) (timed : Bool) → woken x ≢ asleep timed
not_asleep outside timed h = ground arith
not_asleep (checking t) timed h = ground arith
not_asleep (asleep t) timed h = ground arith
not_asleep (returned b) timed h = ground arith

put-NoLost :
    (i w : ℕ) (x : Waiter) (e : ManualResetEvent)
    → ((timed : Bool) → x ≢ asleep timed)
    → NoLost w e
    → NoLost w (put_waiter i x e)
put-NoLost i w x e awake inv timed s h = elim (put-cases i w x e timed h) [
  | inl same ↦ absurd (awake timed same)
  | inr (other, before) ↦ inv timed s before
]

Step-NoLost :
    (w : ℕ) (e e' : ManualResetEvent)
    → ((j : ℕ) → j ≢ w → e'.waiters j ≡ outside)
    → Step e e'
    → NoLost w e
    → NoLost w e'
unfolding set_locked notify reset look is_signaled
Step-NoLost w e _ only sets inv timed s h = omega arith
Step-NoLost w e _ only (notifies i t some_ at) inv timed s h =
    elim (put-cases i w (woken (e.waiters i)) e timed h) [
      | inl same ↦ absurd (not_asleep (e.waiters i) timed same)
      | inr (other, before) ↦
          let now : checking t ≡ outside =
            sym (ap woken at) ∙ sym (put_self i (woken (e.waiters i)) e) ∙ only i other in
          ground arith
    ]
Step-NoLost w e _ only (notifies_nobody i some_ none_) inv timed s h =
    elim (put-cases i w (woken (e.waiters i)) e timed h) [
      | inl same ↦ absurd (not_asleep (e.waiters i) timed same)
      | inr (other, before) ↦ absurd (none_ w timed before)
    ]
Step-NoLost w e _ only resets inv timed s h = let clash : false ≡ true = s in ground arith
Step-NoLost w e _ only (calls i t at) inv timed s h =
    put-NoLost i w (checking t) e (λ u c. ground arith) inv timed s h
Step-NoLost w e _ only (looks i t at) inv timed s h =
    put-NoLost i w (looked e.signaled (e.waiters i)) e
      (λ u c. let back : returned true ≡ asleep u = sym (ap₂ looked s at) ∙ c in ground arith) inv
      timed s h
Step-NoLost w e _ only (wakes i t at) inv timed s h =
    put-NoLost i w (checking t) e (λ u c. ground arith) inv timed s h
Step-NoLost w e _ only (times_out i at) inv timed s h =
    put-NoLost i w (returned e.signaled) e (λ u c. ground arith) inv timed s h

Reach-NoLost : (w : ℕ) (b : Bool) (e : ManualResetEvent) → Reach w b e → NoLost w e
Reach-NoLost w b _ made = λ timed s h. let clash : outside ≡ asleep timed = h in ground arith
Reach-NoLost w b _ (next e e' r step only) = Step-NoLost w e e' only step (Reach-NoLost w b e r)

-- The thread waits: it is about to look, or it sleeps.
abbrev pub Waits : Waiter → Type 0
Waits outside = ⊥
Waits (checking t) = Unit {0}
Waits (asleep t) = Unit {0}
Waits (returned b) = ⊥

-- All the calls of notify_one that are pending are made, and then the thread looks.
abbrev pub notify_all_pending : ℕ → ℕ → ManualResetEvent → ManualResetEvent
notify_all_pending w zero e = e
notify_all_pending w (suc n) e = notify_all_pending w n (notify w e)

notified-checking :
    (w n : ℕ) (e : ManualResetEvent)
    → (t : Bool) × (e.waiters w ≡ checking t)
    → (t : Bool) × ((notify_all_pending w n e).waiters w ≡ checking t)
unfolding notify
notified-checking w zero e h = h
notified-checking w (suc n) e (t, h) =
    notified-checking w n (notify w e)
      (t, put_self w (woken (e.waiters w)) (record e { pending = e.pending - 1 }) ∙ ap woken h)

notified-signaled :
    (w n : ℕ) (e : ManualResetEvent) → (notify_all_pending w n e).signaled ≡ e.signaled
unfolding notify
notified-signaled w zero e = refl
notified-signaled w (suc n) e = notified-signaled w n (notify w e)

others-outside :
    (w : ℕ) (b : Bool) (e : ManualResetEvent)
    → Reach w b e
    → (j : ℕ) → j ≢ w
    → e.waiters j ≡ outside
others-outside w b _ made = λ j h. refl
others-outside w b _ (next e e' r step only) = only

asleep-cases : (x : Waiter) → ((t : Bool) × (x ≡ asleep t)) ⊎ ((t : Bool) → x ≢ asleep t)
asleep-cases outside = inr (λ t h. ground arith)
asleep-cases (checking t) = inr (λ u h. ground arith)
asleep-cases (asleep t) = inl (t, refl)
asleep-cases (returned b) = inr (λ t h. ground arith)

put-outside :
    (w : ℕ) (b : Bool) (x : Waiter) (e : ManualResetEvent)
    → Reach w b e
    → (j : ℕ) → j ≢ w
    → (put_waiter w x e).waiters j ≡ outside
put-outside w b x e r j h =
    let other : (w == j) ≡ false = ground arith in rw other (others-outside w b e r j h)

Reach-notify :
    (w : ℕ) (b : Bool) (e : ManualResetEvent) → 1 ≤ e.pending → Reach w b e → Reach w b (notify w e)
unfolding notify
Reach-notify w b e some_ r =
    next e (notify w e) r
      (elim (asleep-cases (e.waiters w)) [
        | inl (t, at) ↦ notifies w t some_ at
        | inr awake ↦ notifies_nobody w some_ (λ j t h. elim (Bool-cases (j == w)) [
          | inl same ↦ let is_w : j ≡ w = ground arith in awake t (sym (ap e.waiters is_w) ∙ h)
          | inr other ↦
              let clash : outside ≡ asleep t = sym (others-outside w b e r j (ground arith)) ∙ h in
              ground arith
        ])
      ])
      (put-outside w b (woken (e.waiters w)) e r)

Reach-notify_all :
    (w : ℕ) (b : Bool) (n : ℕ) (e : ManualResetEvent)
    → n ≤ e.pending
    → Reach w b e
    → Reach w b (notify_all_pending w n e)
unfolding notify
Reach-notify_all w b zero e le r = r
Reach-notify_all w b (suc n) e le r =
    Reach-notify_all w b n (notify w e) (omega arith) (Reach-notify w b e (omega arith) r)

waiting-checking :
    (w n : ℕ) (e : ManualResetEvent)
    → ((t : Bool) → e.waiters w ≡ asleep t → 1 ≤ n)
    → (x : Waiter) → e.waiters w ≡ x
    → Waits x
    → (t : Bool) × ((notify_all_pending w n e).waiters w ≡ checking t)
unfolding notify
waiting-checking w n e some_ outside is waits = absurd waits
waiting-checking w n e some_ (returned b) is waits = absurd waits
waiting-checking w n e some_ (checking t) is waits = notified-checking w n e (t, is)
waiting-checking w zero e some_ (asleep t) is waits = let clash = some_ t is in absurd (omega arith)
waiting-checking w (suc n) e some_ (asleep t) is waits =
    notified-checking w n (notify w e)
      (t, put_self w (woken (e.waiters w)) (record e { pending = e.pending - 1 }) ∙ ap woken is)

-- A thread that waits alone, with a timeout or without, in a state that is reached and in which the event
-- is signaled: the calls of notify_one that the calls of set have still to make, and then a look of the
-- thread, are steps that can be taken, and wait has then returned true. So no wake-up is lost, however
-- the steps before were mixed.
pub wait-returns :
    (w : ℕ) (b : Bool) (e : ManualResetEvent)
    → Reach w b e
    → e.signaled ≡ true
    → Waits (e.waiters w)
    → Reach w b (look w (notify_all_pending w e.pending e))
      × ((look w (notify_all_pending w e.pending e)).waiters w ≡ returned true)
unfolding look
wait-returns w b e r s waits =
    let e' = notify_all_pending w e.pending e in
    let (t, at) =
      waiting-checking w e.pending e (λ u h. Reach-NoLost w b e r u s h) (e.waiters w) refl waits in
    let r' = Reach-notify_all w b e.pending e (omega arith) r in
    let says : looked e'.signaled (e'.waiters w) ≡ returned true =
      ap₂ looked (notified-signaled w e.pending e ∙ s) at in
    (
      next e' (look w e') r' (looks w t at)
          (put-outside w b (looked e'.signaled (e'.waiters w)) e' r'),
      put_self w (looked e'.signaled (e'.waiters w)) e' ∙ says,
    )
