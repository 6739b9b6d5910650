-- ===== src/Supervisor/Ending.antt =====
-- Stopping services: that the waits end, and how a service is left.
use embla.Prelude.{
  ℕ, zero, suc, ◌+◌, ◌≡◌, ◌≢◌, refl, sym, ap, ◌∙◌, ◌⊎◌, inl, inr, Bool, true, false, Option, none,
  some, List, [], ◌∷◌, arith, ◌==◌, ==_iff, Bool-cases, Option-cases, if◌then◌else◌, update,
  update_self, eqb_ℤ, eqb_ℤ_iff, ltb_ℤ, ◌+ℤ◌, success, failure, ℤ, pos,
}
use embla.Process.{Ptr, null}
use embla.Service.{Service, stopped, reap, stop, kill, is_running}
use embla.Runtime.{Embla, Signals}
use embla.Registry.{Services, ServiceRegistry}
use embla.Supervisor.{
  System, runs, Round, wait_for_termination, drain_one_event, Stop, kill_wait, escalate,
  stop_service, stop_next, stop_loop, stop_all, start_order,
}

-- Some reading of the clock is not before the deadline.
abbrev pub Expires : (deadline : ℤ) → List Round → Type 0
Expires deadline [] = ⊥
Expires deadline (round ∷ rounds) = (ltb_ℤ round.clock deadline ≡ false) ⊎ Expires deadline rounds

-- A result of a wait: the service has ended and is marked as stopped, or is as it was but for what
-- the process told of its end.
abbrev pub Waited : Service → ℤ × Service × Embla → Type 0
Waited s (code, s', e) =
    ((code ≡ pos 1) × (s'.state ≡ stopped) × (s'.process ≡ null))
    ⊎ ((code ≢ pos 1) × (s'.state ≡ s.state) × (s'.process ≡ s.process))

reap-cases :
    (s : Service) (e : Embla)
    → (((reap s e).0 ≡ pos 1) × ((reap s e).1.state ≡ stopped) × ((reap s e).1.process ≡ null))
      ⊎ (((reap s e).0 ≢ pos 1)
          × ((reap s e).1.state ≡ s.state)
          × ((reap s e).1.process ≡ s.process))
unfolding reap
reap-cases s e = ground arith

Waited-trans :
    (s s' : Service) (res : ℤ × Service × Embla)
    → s'.state ≡ s.state
    → s'.process ≡ s.process
    → Waited s' res
    → Waited s res
Waited-trans s s' res state process (inl ended) = inl ended
Waited-trans s s' res state process (inr (code, a, b)) = inr (code, a ∙ state, b ∙ process)

-- The wait ends by its deadline, and tells the truth about the service.
pub wait_for_termination-Waited :
    (deadline : ℤ) (rounds : List Round) (s : Service) (e : Embla)
    → Expires deadline rounds
    → (res : ℤ × Service × Embla) × (wait_for_termination deadline rounds s e ≡ some res)
      × Waited s res
unfolding wait_for_termination
wait_for_termination-Waited deadline [] s e late = absurd late
wait_for_termination-Waited deadline (round ∷ rounds) s e late =
    elim (Bool-cases (ltb_ℤ round.clock deadline)) [
      | inr over ↦ ((pos 0, s, e), rw over refl, inr (ground arith, refl, refl))
      | inl time ↦ elim (reap-cases s e) [
        | inl (code, state, process) ↦ (
          (pos 1, (reap s e).1, (reap s e).2),
          rw time (rw code refl),
          inl (refl, state, process),
        )
        | inr (code, state, process) ↦
            let s' = (reap s e).1 in
            let drained = drain_one_event (reap s e).2 round.poll in
            let open_end : eqb_ℤ (reap s e).0 (pos 1) ≡ false =
              ground (arith, eqb_ℤ_iff (reap s e).0 (pos 1)) in
            elim (Bool-cases (ltb_ℤ (reap s e).0 (pos 0))) [
              | inl broken ↦ (
                (failure, s', (reap s e).2),
                rw time (rw open_end (rw broken refl)),
                inr (ground arith, state, process),
              )
              | inr fine ↦ elim (Bool-cases (ltb_ℤ drained.0 (pos 0))) [
                | inl unpolled ↦ (
                  (failure, s', drained.1),
                  rw time (rw open_end (rw fine (rw unpolled refl))),
                  inr (ground arith, state, process),
                )
                | inr polled ↦
                    let (res, found, waited) =
                      wait_for_termination-Waited deadline rounds s' drained.1 (later late time) in
                    (
                      res,
                      rw time (rw open_end (rw fine (rw polled found))),
                      Waited-trans s s' res state process waited,
                    )
              ]
            ]
      ]
    ]
  where
    later :
        (ltb_ℤ round.clock deadline ≡ false) ⊎ Expires deadline rounds
        → ltb_ℤ round.clock deadline ≡ true
        → Expires deadline rounds
    later (inl over) time = cc
    later (inr rest) time = rest

-- The two waits of one stop are not cut short by the host.
abbrev pub IsTimed : (timeout : ℤ) → Stop → Type 0
IsTimed timeout env =
    Expires (env.clock +ℤ timeout) env.rounds
    × Expires (env.kill_clock +ℤ kill_wait) env.kill_rounds

module _ (signals : Signals) where
  escalate-Waited :
      (s : Service) (e : Embla) (env : Stop)
      → Expires (env.kill_clock +ℤ kill_wait) env.kill_rounds
      → (res : ℤ × Service × Embla) × (escalate signals s e env ≡ some res) × Waited s res
  unfolding escalate
  escalate-Waited s e env late =
      elim (Bool-cases (eqb_ℤ (kill signals s e env.kill_delivered).0 success)) [
        | inl killed ↦
            let (res, found, waited) =
              wait_for_termination-Waited (env.kill_clock +ℤ kill_wait) env.kill_rounds s e late in
            (res, rw killed found, waited)
        | inr missed ↦ ((pos 0, s, e), rw missed refl, inr (ground arith, refl, refl))
      ]

  stop-kept :
      (s : Service) (e : Embla) (delivered : Bool)
      → ((stop signals s e delivered).1.state ≡ s.state)
        × ((stop signals s e delivered).1.process ≡ s.process)
  unfolding stop
  stop-kept s e delivered = ground arith

  stop_service-Waited :
      (timeout : ℤ) (s : Service) (e : Embla) (env : Stop)
      → IsTimed timeout env
      → (res : ℤ × Service × Embla) × (stop_service signals timeout s e env ≡ some res)
        × Waited s res
  unfolding stop_service
  stop_service-Waited timeout s e env (late, late') =
      let s' = (stop signals s e env.delivered).1 in
      let (state, process) = stop-kept s e env.delivered in
      elim (Bool-cases (eqb_ℤ (stop signals s e env.delivered).0 success)) [
        | inr refusal ↦ ((pos 0, s', e), rw refusal refl, inr (ground arith, state, process))
        | inl sent ↦
            let ((ended, s'', e'), found, waited) =
              wait_for_termination-Waited (env.clock +ℤ timeout) env.rounds s' e late in
            elim (Bool-cases (eqb_ℤ ended (pos 1))) [
              | inl over ↦ (
                (ended, s'', e'),
                rw sent (rw (found, over) refl),
                Waited-trans s s' (ended, s'', e') state process waited,
              )
              | inr alive ↦
                  let (res, then', last) = escalate-Waited s'' e' env late' in
                  let (_, same, same') = still s' s'' e' ended waited alive in
                  (
                    res,
                    rw sent (rw (found, alive) then'),
                    Waited-trans s s' res state process (Waited-trans s' s'' res same same' last),
                  )
            ]
      ]
    where
      still :
          (s' s'' : Service) (e' : Embla) (ended : ℤ)
          → Waited s' (ended, s'', e')
          → eqb_ℤ ended (pos 1) ≡ false
          → (ended ≢ pos 1) × (s''.state ≡ s'.state) × (s''.process ≡ s'.process)
      still s' s'' e' ended (inl (code, _, _)) alive =
          absurd (cc (alive, (eqb_ℤ_iff ended (pos 1)).1 code))
      still s' s'' e' ended (inr rest) alive = rest

-- What one round of `stop_all` does to the services: it counts the service as stopped exactly if it
-- ran and runs no more, leaves whether it runs as it was otherwise, and touches no other service.
abbrev pub Halts : Services → Ptr → Bool → Services → Type 0
Halts ss p fresh ss' =
    ((q : Ptr) → (p == q) ≡ false → ss' q ≡ ss q)
    × (((fresh ≡ true) × (runs ss p ≡ true) × (runs ss' p ≡ false))
        ⊎ ((fresh ≡ false) × (runs ss' p ≡ runs ss p)))

Halts-update :
    (ss : Services) (p : Ptr) (s s' : Service) (ended : ℤ) (e : Embla)
    → ss p ≡ some s
    → is_running s.state ≡ true
    → Waited s (ended, s', e)
    → Halts ss p (eqb_ℤ ended (pos 1)) (update ss p (some s'))
Halts-update ss p s s' ended e there ran (inl (code, state, _)) = (
  (λ q apart. rw apart refl),
  inl (
    (eqb_ℤ_iff ended (pos 1)).1 code,
    rw (there, runs) ran,
    rw (update_self ss p (some s'), runs) (rw state refl),
  ),
)
Halts-update ss p s s' ended e there ran (inr (code, state, _)) = (
  (λ q apart. rw apart refl),
  inr (
    ground (arith, eqb_ℤ_iff ended (pos 1)),
    rw (update_self ss p (some s'), runs) (rw (there, runs) (ap is_running state)),
  ),
)

module _ (signals : Signals) (timeout : ℤ) where
  stop_next-Halts :
      (sys : System) (p : Ptr) (env : Stop)
      → IsTimed timeout env
      → (fresh : Bool) × (sys' : System) × (stop_next signals timeout sys p env
          ≡ some (fresh, sys'))
        × Halts sys.services p fresh sys'.services
  unfolding stop_next
  stop_next-Halts sys p env timed = elim (Option-cases (sys.services p)) [
    | inl gone ↦ (false, sys, rw (gone, stop_next) refl, ((λ q apart. refl), inr (refl, refl)))
    | inr (s, there) ↦ elim (Bool-cases (is_running s.state)) [
      | inr idle ↦
          (false, sys, rw (there, stop_next) (rw idle refl), ((λ q apart. refl), inr (refl, refl)))
      | inl ran ↦
          let ((ended, s', e), found, waited) =
            stop_service-Waited signals timeout s sys.embla env timed in
          (
            eqb_ℤ ended (pos 1),
            record { embla = e; services = update sys.services p (some s') },
            rw (there, stop_next) (rw ran (rw found refl)),
            Halts-update sys.services p s s' ended e there ran waited,
          )
    ]
  ]

  abbrev still_runs : Option Service → Bool
  still_runs o = elim o [ none ↦ false | some s ↦ is_running s.state ]

  Halts-run :
      (ss ss' : Services) (p q : Ptr) (fresh : Bool)
      → Halts ss p fresh ss'
      → runs ss' q ≡ true
      → runs ss q ≡ true
  Halts-run ss ss' p q fresh (others, kept) now = elim (Bool-cases (p == q)) [
    | inr apart ↦ sym (ap still_runs (others q apart)) ∙ now
    | inl same ↦ elim kept [
      | inl (_, _, over) ↦ absurd (cc (over, now, ap (runs ss') ((==_iff p q).0 same)))
      | inr (_, still) ↦ cc (still, now, (==_iff p q).0 same)
    ]
  ]

  -- What the services of the loop come to: none of them begins to run.
  NoneBegins : System → System → Type 0
  NoneBegins sys sys' = (p : Ptr) → runs sys'.services p ≡ true → runs sys.services p ≡ true

  stop_loop-Ends :
      (order : ℕ → Ptr) (envs : ℕ → Stop) (i k : ℕ) (sys : System)
      → ((j : ℕ) → IsTimed timeout (envs j))
      → (n : ℕ) × (sys' : System) × (stop_loop signals timeout order envs i k sys ≡ some (n, sys'))
        × NoneBegins sys sys'
  unfolding stop_loop NoneBegins
  stop_loop-Ends order envs zero k sys timed = (k, sys, refl, λ p now. now)
  stop_loop-Ends order envs (suc i) k sys timed =
      let (fresh, sys', found, halts) = stop_next-Halts sys (order i) (envs i) (timed i) in
      let (n, sys'', ends, kept) =
        stop_loop-Ends order envs i (if fresh then k + 1 else k) sys' timed in
      (
        n,
        sys'',
        rw (found, stop_loop) ends,
        λ p now. Halts-run sys.services sys'.services (order i) p fresh halts (kept p now),
      )

-- When the clock passes the deadlines, `stop_all` ends. It reports an error and changes nothing, or
-- gives a number that is not negative; in both cases no service begins to run.
pub stop_all-Ends :
    (signals : Signals) (r : ServiceRegistry) (sys : System) (buffer sorting : Bool)
    (garbage : ℕ → Ptr) (timeout : ℤ) (envs : ℕ → Stop)
    → ((j : ℕ) → IsTimed timeout (envs j))
    → (code : ℤ) × (sys' : System) × (stop_all signals r sys buffer sorting garbage timeout envs
        ≡ some (code, sys'))
      × (((code ≡ failure) × (sys' ≡ sys)) ⊎ ((n : ℕ) × (code ≡ pos n)))
      × ((p : Ptr) → runs sys'.services p ≡ true → runs sys.services p ≡ true)
unfolding stop_all NoneBegins
stop_all-Ends signals r sys buffer sorting garbage timeout envs timed =
    elim (Bool-cases (r.count == 0)) [
      | inl empty ↦ (pos 0, sys, rw empty refl, inr (0, refl), λ p now. now)
      | inr some_left ↦ elim (Bool-cases buffer) [
        | inr failed ↦ (failure, sys, rw some_left (rw failed refl), inl (refl, refl), λ p now. now)
        | inl okay ↦ elim (Option-cases (start_order r sys.services sorting garbage)) [
          | inl refusal ↦ (
            failure,
            sys,
            rw some_left (rw okay (rw refusal refl)),
            inl (refl, refl),
            λ p now. now,
          )
          | inr ((count, order), found) ↦
              let (n, sys', ends, kept) =
                stop_loop-Ends signals timeout order envs count 0 sys timed in
              (pos n, sys', rw some_left (rw okay (rw found (rw ends refl))), inr (n, refl), kept)
        ]
      ]
    ]
