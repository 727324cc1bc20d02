-- ===== src/Event/Poll/Run.antt =====
-- event_process_active runs the body for each active event once, where the callbacks leave the active list.
use miscellaneous_repo.Prelude.{
  ℕ, zero, suc, ◌+◌, ◌<◌, ◌≡◌, refl, sym, ap, ◌∙◌, inl, inr, true, ◌&&◌, Option, none, some, subst,
  if◌then◌else◌, List, [], ◌∷◌, arith, Bool-cases, length,
}
use miscellaneous_repo.Prelude.Int.{ℤ}
use miscellaneous_repo.Event.Time.{Timeval}
use miscellaneous_repo.Event.Members.{member, remove, head?}
use miscellaneous_repo.Event.{Mask, World, Os, ListLib, TreeLib}
use miscellaneous_repo.Event.Ops.{now_or_stale, remove_active, event_add, event_del}
use miscellaneous_repo.Event.Ops.Inv.{Inv, env-Inv}
use miscellaneous_repo.Event.Ops.Inv.Active.{remove_active-Inv}
use miscellaneous_repo.Event.Ops.Inv.Api.{event_add-Inv, event_del-Inv}
use miscellaneous_repo.Event.Ops.Kept.{
  Call, call_of, Keeps, event_add-Keeps, Leaves, Leaves-Keeps, remove_active-Leaves,
  event_del-Leaves,
}
use miscellaneous_repo.Event.Poll.{
  is_zero, next_deadline, rearm, settle, call_back, run_from, process_active,
}

module _ {E C : Type 0} (os : Os E C) (ll : ListLib C) (tl : TreeLib) where
  -- A base whose active events have it as their base.
  pub record IsReady (w : World E C) : Type 0 where
    pub inv : Inv ll w
    pub based : (j : ℕ) → (w.evts j).flags.active ≡ true → (w.evts j).based ≡ true

  rearm-Inv : (p : ℕ) (w : World E C) → Inv ll w → Inv ll (rearm os ll tl p w)
  unfolding rearm now_or_stale
  rearm-Inv p w v =
      elim (Bool-cases (is_zero (w.evts p).timeout.sec && is_zero (w.evts p).timeout.usec)) [
        | inl none_ ↦ rw none_ v
        | inr some_ ↦ rw some_ (event_add-Inv os ll tl (some p) _ true _ (env-Inv ll w _ v))
      ]

  rearm-Keeps : (p : ℕ) (w : World E C) → Keeps os ll tl w (rearm os ll tl p w)
  unfolding rearm now_or_stale
  rearm-Keeps p w =
      elim (Bool-cases (is_zero (w.evts p).timeout.sec && is_zero (w.evts p).timeout.usec)) [
        | inl none_ ↦ rw none_ (record { active = refl; call = λ j. refl; based = λ j. refl })
        | inr some_ ↦
            let w' = record w { env = (os.clock w.env).1 } in
            let k = event_add-Keeps os ll tl p _ true w' in
            rw some_ (record { active = k.active; call = k.call; based = k.based })
      ]

  settle-Inv : (p : ℕ) (w : World E C) → Inv ll w → Inv ll (settle os ll tl p w)
  unfolding settle
  settle-Inv p w v = elim (Bool-cases (w.evts p).events.persist) [
    | inl stays ↦ rw stays (rearm-Inv p _ (remove_active-Inv os ll tl p w v))
    | inr once ↦ rw once (event_del-Inv os ll tl (some p) w v)
  ]

  settle-Leaves :
      (p : ℕ) (w : World E C)
      → Inv ll w
      → (w.evts p).based ≡ true
      → (w.evts p).flags.active ≡ true
      → Leaves os ll tl p w (settle os ll tl p w)
  unfolding settle
  settle-Leaves p w v based on = elim (Bool-cases (w.evts p).events.persist) [
    | inl stays ↦ rw stays (
        Leaves-Keeps os ll tl (remove_active-Leaves os ll tl p w v on)
          (rearm-Keeps p (remove_active os ll tl p w)))
    | inr once ↦ rw once (event_del-Leaves os ll tl p w v based on)
  ]

  -- What a callback leaves alone.
  pub record Calm (w w' : World E C) : Type 0 where
    pub inv : Inv ll w'
    pub active : ll.items w'.base.active ≡ ll.items w.base.active
    pub based : (j : ℕ) → (w.evts j).based ≡ true → (w'.evts j).based ≡ true

  -- What a turn of the loop does to the event `p`: one that does not persist is deleted; a persistent one is
  -- taken off the active list, and added again with its next deadline if it has an interval. Then its
  -- callback is called, with the descriptor, the result and the argument that the event had.
  abbrev pub serve : ℕ → World E C → World E C
  serve p w =
      let e = w.evts p in
      let w₁ = remove_active os ll tl p w in
      let w₂ = record w₁ { env = (os.clock w₁.env).1 } in
      let now : Timeval = elim (os.clock w₁.env).0 [ none ↦ os.stale w₁.env | some now ↦ now ] in
      let again =
        (event_add os ll tl (some p) (some (next_deadline os ll tl (w₂.evts p) now)) true w₂).1 in
      os.call e.fn e.fd e.res e.arg (
        if e.events.persist
        then (if is_zero (w₁.evts p).timeout.sec && is_zero (w₁.evts p).timeout.usec
            then w₁
            else again)
        else (event_del os ll tl (some p) w).1)

  -- The events of a list are served, one after the other.
  abbrev pub serve_all : List ℕ → World E C → World E C
  serve_all [] w = w
  serve_all (p ∷ ps) w = serve_all ps (serve p w)

  settled-call :
      (p : ℕ) (w w' : World E C)
      → call_of (w'.evts p) ≡ call_of (w.evts p)
      → call_back os ll tl p w'
        ≡ os.call (w.evts p).fn (w.evts p).fd (w.evts p).res (w.evts p).arg w'
  unfolding call_back
  settled-call p w w' same = ap (λ (c : Call). os.call c.fn c.fd c.res c.arg w') same

  body-serve :
      (p : ℕ) (w : World E C)
      → call_of ((settle os ll tl p w).evts p) ≡ call_of (w.evts p)
      → call_back os ll tl p (settle os ll tl p w) ≡ serve p w
  unfolding settle rearm now_or_stale
  body-serve p w same = settled-call p w (settle os ll tl p w) same

  -- The events of the list `ps` have been served.
  pub record Served (before : World E C) (ps : List ℕ) (n : ℕ) (result : Option (ℕ × World E C))
      : Type 0 where
    pub is_result : result ≡ some (n, serve_all ps before)
    pub ready : IsReady (serve_all ps before)
    pub bases : (j : ℕ) → (before.evts j).based ≡ true → ((serve_all ps before).evts j).based ≡ true
    pub idle : ll.items (serve_all ps before).base.active ≡ []

  module _
      (calm : (fn : ℕ) (fd : ℤ) (res : Mask) (arg : ℕ) (w : World E C)
        → Inv ll w
        → Calm w (os.call fn fd res arg w)) where
    -- The body of the loop for the first active event.
    body-IsReady :
        (p : ℕ) (ps : List ℕ) (w : World E C)
        → IsReady w
        → ll.items w.base.active ≡ p ∷ ps
        → (call_back os ll tl p (settle os ll tl p w) ≡ serve p w)
          × IsReady (serve p w)
          × (ll.items (serve p w).base.active ≡ ps)
          × ((j : ℕ) → (w.evts j).based ≡ true → ((serve p w).evts j).based ≡ true)
    unfolding call_back
    body-IsReady p ps w r is =
        let there : member p (ll.items w.base.active) ≡ true = rw is (ground arith) in
        let on = sym (r.inv.active.listed.has p) ∙ there in
        let w₁ = settle os ll tl p w in
        let v₁ = settle-Inv p w r.inv in
        let leaves = settle-Leaves p w r.inv (r.based p on) on in
        let c = calm (w₁.evts p).fn (w₁.evts p).fd (w₁.evts p).res (w₁.evts p).arg w₁ v₁ in
        let items = c.active ∙ leaves.active ∙ ap (remove p) is ∙ ground arith in
        let eq = body-serve p w (leaves.call p) in
        let ready : IsReady (call_back os ll tl p w₁) = record {
          inv = c.inv;
          based = λ j a.
              let in_ps : member j ps ≡ true =
                sym (ap (member j) items) ∙ c.inv.active.listed.has j ∙ a in
              let in_w : member j (ll.items w.base.active) ≡ true = rw is (ground (arith, in_ps)) in
              c.based j (leaves.based j ∙ r.based j (sym (r.inv.active.listed.has j) ∙ in_w));
        } in
        (
          eq,
          subst IsReady eq ready,
          ap (λ x. ll.items x.base.active) (sym eq) ∙ items,
          λ j b. ap (λ x. (x.evts j).based) (sym eq) ∙ c.based j (leaves.based j ∙ b),
        )

    run_from-Served :
        (ps : List ℕ) (f cnt : ℕ) (w : World E C)
        → IsReady w
        → ll.items w.base.active ≡ ps
        → length ps < f
        → Served w ps
            (cnt + length ps)
            (run_from os ll tl f (head? ps) (ll.next w.base.active (head? ps)) cnt w)
    unfolding run_from
    run_from-Served ps zero cnt w r is h = absurd (omega arith)
    run_from-Served [] (suc f) cnt w r is h = record {
      is_result = ap (λ n. some (n, w)) (omega arith);
      ready = r;
      bases = λ j b. b;
      idle = is;
    }
    run_from-Served (p ∷ ps) (suc f) cnt w r is h =
        let next : ll.next w.base.active (some p) ≡ head? ps =
          ll.next-entry w.base.active [] ps p is refl in
        let (eq, r', is', bases) = body-IsReady p ps w r is in
        let rest = run_from-Served ps f (suc cnt) (serve p w) r' is' (omega arith) in
        let count : suc cnt + length ps ≡ cnt + suc (length ps) = omega arith in
        let go = λ (n : Option ℕ) (x : World E C).
          run_from os ll tl f n (ll.next x.base.active n) (suc cnt) x in
        record {
          is_result =
              ap (λ n. go n (call_back os ll tl p (settle os ll tl p w))) next
              ∙ ap (go (head? ps)) eq
              ∙ rest.is_result
              ∙ ap (λ n. some (n, serve_all ps (serve p w))) count;
          ready = rest.ready;
          bases = λ j b. rest.bases j (bases j b);
          idle = rest.idle;
        }

    -- event_process_active, of a base that keeps the invariant and that is the base of its active events,
    -- and with callbacks that keep the invariant, the active list and the bases of events: with more fuel
    -- than there are active events it ends and returns their number, and each event that was active at the
    -- start has been served once, in their order: deleted, or taken off the list and added again with its
    -- next deadline, and then called back with its descriptor, result and argument. Then no event is
    -- active, the invariant holds, and no event has lost its base.
    pub process_active-Served :
        (fuel : ℕ) (w : World E C)
        → IsReady w
        → length (ll.items w.base.active) < fuel
        → Served w
            (ll.items w.base.active)
            (length (ll.items w.base.active))
            (process_active os ll tl fuel w)
    unfolding process_active
    process_active-Served fuel w r h =
        let served = run_from-Served (ll.items w.base.active) fuel 0 w r refl h in
        let count : 0 + length (ll.items w.base.active) ≡ length (ll.items w.base.active) =
          omega arith in
        record {
          is_result =
              ap (λ p. run_from os ll tl fuel p (ll.next w.base.active p) 0 w)
                (ll.next-head w.base.active)
              ∙ served.is_result
              ∙ ap (λ n. some (n, serve_all (ll.items w.base.active) w)) count;
          ready = served.ready;
          bases = served.bases;
          idle = served.idle;
        }
