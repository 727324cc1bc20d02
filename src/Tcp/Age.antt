-- ===== src/Tcp/Age.antt =====
-- The server's thread that accepts and its timer, interleaved: what the timer may close.
use miscellaneous_repo.Prelude.{
  ℕ, ◌+◌, ◌<◌, ◌≤◌, ◌≡◌, refl, sym, ◌∙◌, inl, inr, ◌⊎◌, ◌≢◌, Bool, true, false, not, ◌&&◌, Option,
  none, some, arith, ltb, ◌==◌, if◌then◌else◌, Bool-cases,
}
use miscellaneous_repo.Tcp.{
  fd_age, max_fd, Fds, is_old, timer_handler, accept_failed, is_too_big, enter,
}
use miscellaneous_repo.Tcp.Sweep.{mem, due, timer_handler-due}

-- The process: the time, which descriptors are open and since when, the table, con_fd, and the descriptor
-- that accept has given and main has not yet closed or entered.
pub record World : Type 0 where
  pub now : ℕ
  pub is_open : ℕ → Bool
  pub since : ℕ → ℕ
  pub fds : Fds
  pub con_fd : Option ℕ
  pub pending : Option ℕ

abbrev pub ticked : (ℕ → Bool) → ℕ → World → World
ticked closes seen w = record w {
  fds = (timer_handler closes seen w.fds).0;
  is_open = λ j. w.is_open j && not (mem j (timer_handler closes seen w.fds).1);
}

-- The steps. accept gives a descriptor that was not open; close takes only one that is. The timer reads the
-- time before it has the lock, so that time may have passed since. Its sweep over the table is one step; accept
-- does not take the lock, and what it could do in the middle of a sweep it does here before or after it.
pub data Step : World → World → Type 0 where
  clock : {w : World} → Step w (record w { now = w.now + 1 })
  fail : {w : World} → w.pending ≡ none → Step w (record w { con_fd = accept_failed })
  accept :
      {w : World} (fd : ℕ)
      → w.pending ≡ none
      → w.is_open fd ≡ false
      → Step w (record w {
        con_fd = some fd;
        pending = some fd;
        is_open = λ j. if fd == j then true else w.is_open j;
        since = λ j. if fd == j then w.now else w.since j;
      })
  reject :
      {w : World} (fd : ℕ)
      → w.pending ≡ some fd
      → is_too_big fd ≡ true
      → Step w (record w { pending = none; is_open = λ j. if fd == j then false else w.is_open j })
  enters :
      {w : World} (fd : ℕ)
      → w.pending ≡ some fd
      → is_too_big fd ≡ false
      → Step w (record w { pending = none; fds = enter fd w.now w.fds })
  tick :
      {w : World} (closes : ℕ → Bool) (seen : ℕ)
      → seen ≤ w.now
      → ((j : ℕ) → closes j ≡ true → w.is_open j ≡ true)
      → Step w (ticked closes seen w)

-- main starts with an empty table.
pub record IsStart (w : World) : Type 0 where
  pub empty : (j : ℕ) → w.fds j ≡ 0
  pub none_pending : w.pending ≡ none
  pub past : (j : ℕ) → w.since j ≤ w.now

pub data Reach : World → Type 0 where
  start : {w : World} → IsStart w → Reach w
  step : {v w : World} → Reach v → Step v w → Reach w

-- Each entry is of an open descriptor and no older than it, and the pending descriptor is open and has no
-- entry.
pub record IsSafe (w : World) : Type 0 where
  pub entered : (j : ℕ) → 0 < w.fds j → (w.is_open j ≡ true) × (w.since j ≤ w.fds j)
  pub past : (j : ℕ) → w.since j ≤ w.now
  pub waiting : (j : ℕ) → w.pending ≡ some j → (w.is_open j ≡ true) × (w.fds j ≡ 0)

start-IsSafe : {w : World} → IsStart w → IsSafe w
start-IsSafe s = record {
  entered = λ j h. ground (arith, s.empty j);
  past = s.past;
  waiting = λ j e. ground (arith, s.none_pending);
}

closed_no_entry : {w : World} → IsSafe w → (j : ℕ) → w.is_open j ≡ false → w.fds j ≡ 0
closed_no_entry {w} i j c = elim (Bool-cases (ltb 0 (w.fds j))) [
  | inr none_there ↦ ground arith
  | inl there ↦
      let is_there : 0 < w.fds j = ground arith in ground (arith, (i.entered j is_there).0)
]

-- What the timer leaves at a descriptor: it has closed it, or nothing there has changed.
ticked-entry :
    (closes : ℕ → Bool) (seen : ℕ) (w : World) (j : ℕ)
    → ((due closes seen (max_fd + 1) 0 w.fds j ≡ true)
        × (mem j (timer_handler closes seen w.fds).1 ≡ true)
        × ((ticked closes seen w).fds j ≡ 0))
      ⊎ ((mem j (timer_handler closes seen w.fds).1 ≡ false)
          × ((ticked closes seen w).fds j ≡ w.fds j))
ticked-entry closes seen w j =
    let (left, closed) = timer_handler-due closes seen w.fds j in
    elim (Bool-cases (due closes seen (max_fd + 1) 0 w.fds j)) [
      | inl d ↦ inl (d, closed ∙ d, left ∙ rw d refl)
      | inr d ↦ inr (closed ∙ d, left ∙ rw d refl)
    ]

due-is_old :
    (closes : ℕ → Bool) (seen : ℕ) (fds : Fds) (j : ℕ)
    → due closes seen (max_fd + 1) 0 fds j ≡ true
    → (0 < fds j) × (fds j + fd_age < seen) × (closes j ≡ true) × (j ≤ max_fd)
unfolding is_old
due-is_old closes seen fds j d = (ground arith, ground arith, ground arith, ground arith)

Step-IsSafe : {v w : World} → IsSafe v → Step v w → IsSafe w
unfolding is_too_big enter is_old
Step-IsSafe i clock = record {
  entered = i.entered;
  past = λ j. omega (arith, i.past j);
  waiting = i.waiting;
}
Step-IsSafe i (fail e) = record { entered = i.entered; past = i.past; waiting = i.waiting }
Step-IsSafe i (accept fd e c) = record {
  entered = λ j h. (ground (arith, i.entered j h), ground (arith, i.entered j h, c));
  past = λ j. ground (arith, i.past j);
  waiting = λ j p. (ground arith, ground (arith, closed_no_entry i fd c));
}
Step-IsSafe i (reject fd e c) = record {
  entered = λ j h. (ground (arith, i.entered j h, i.waiting fd e), ground (arith, i.entered j h));
  past = i.past;
  waiting = λ j p. ground arith;
}
Step-IsSafe i (enters fd e c) = record {
  entered =
      λ j h. (ground (arith, i.entered j, i.waiting fd e), ground (arith, i.entered j, i.past j));
  past = i.past;
  waiting = λ j p. ground arith;
}
Step-IsSafe {v} i (tick closes seen h c) = record {
  entered = λ j h'. elim (ticked-entry closes seen v j) [
    | inl gone ↦ absurd (omega (arith, gone.2))
    | inr same ↦
        let is_there : 0 < v.fds j = omega (arith, same.1) in
        (
          rw (same.0, (i.entered j is_there).0) refl,
          omega (arith, same.1, (i.entered j is_there).1),
        )
  ];
  past = i.past;
  waiting = λ j p. elim (ticked-entry closes seen v j) [
    | inl gone ↦
        absurd (omega (arith, (due-is_old closes seen v.fds j gone.0).0, (i.waiting j p).1))
    | inr same ↦ (rw (same.0, (i.waiting j p).0) refl, same.1 ∙ (i.waiting j p).1)
  ];
}

-- However main's thread, the timer and the clock are interleaved, from an empty table: every entry is of an
-- open descriptor and no older than it, and a descriptor that main has accepted and not yet entered is open
-- and has no entry.
pub Reach-IsSafe : {w : World} → Reach w → IsSafe w
Reach-IsSafe (start s) = start-IsSafe s
Reach-IsSafe (step r s) = Step-IsSafe (Reach-IsSafe r) s

-- In every state that is reached, what the timer closes is a connection that is open for more than 20
-- seconds and that main has entered: not one that main has only just accepted, nor another that has taken
-- over the number of an old one.
pub Reach-closed :
    {w : World} (closes : ℕ → Bool) (seen j : ℕ)
    → Reach w
    → seen ≤ w.now
    → mem j (timer_handler closes seen w.fds).1 ≡ true
    → (w.is_open j ≡ true) × (w.since j + fd_age < w.now) × (w.pending ≢ some j)
Reach-closed {w} closes seen j r h m =
    let safe = Reach-IsSafe r in
    let old = due-is_old closes seen w.fds j (sym (timer_handler-due closes seen w.fds j).1 ∙ m) in
    let (opened, early) = safe.entered j old.0 in
    (opened, omega (arith, early, old.1), λ p. absurd (omega (arith, old.0, (safe.waiting j p).1)))
