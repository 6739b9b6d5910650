-- ===== src/Service/Restart.antt =====
-- The restart policy of one service: the delay before a restart, and the sequence of crashes that a
-- service survives before it is given up.
use embla.Prelude.{
  ap₂, sym, some, ◌==◌, ℕ, zero, suc, ap, ◌∙◌, subst, add-zero, ◌≡◌, ◌≤◌, ◌<◌, ◌+◌, ◌*◌, ◌^◌, true,
  false, arith, refl, ℤ, pos, ◌-ℤ◌, ltb_ℤ, ltb, List, [], ◌∷◌, length, if◌then◌else◌, scale, ◌+ℤ◌,
}
use embla.Process.{Ptr, null, get_exit_code, get_term_signal}
use embla.Runtime.{Embla, spawn}
use embla.Service.{
  Service, Start, stopped, running, should_restart, was_clean_exit, backoff_exponent, compute_delay,
  schedule_restart, after_reap, reap, start, tick, TickResult, tick_nothing, tick_restarted,
  tick_gave_up, reaped_restart_scheduled,
}

abbrev pub min : ℕ → ℕ → ℕ
min a b = if ltb b a then b else a

-- With n restarts behind it, a service waits for base · 2 ^ min (n - 1) 30, and at most for the
-- maximal delay.
pub compute_delay_closed :
    (s : Service) (base most n : ℕ)
    → s.restart_base_delay ≡ pos base
    → s.restart_max_delay ≡ pos most
    → s.consecutive_restart_count ≡ pos (suc n)
    → compute_delay s ≡ pos (min (base * 2 ^ min n 30) most)
unfolding compute_delay backoff_exponent scale ◌-ℤ◌
compute_delay_closed s base most n b m c = rw b (rw m (rw c (ground arith)))

-- The life of a process of the service, between two ticks that do something: how the runtime stands
-- and what the clock says when a tick finds that it has ended, and when a later tick starts the next
-- one, with what that start draws on.
pub record Crash : Type 0 where
  pub ended : Embla
  pub now : ℤ
  pub later : Embla
  pub later_now : ℤ
  pub restart : Start

-- The tick that finds the end. It starts nothing, whatever it could draw on.
abbrev pub reaping : Service → Crash → TickResult × Service × Embla
reaping s c = tick s c.ended c.now c.restart

-- The tick after the delay.
abbrev pub restarting : Service → Crash → TickResult × Service × Embla
restarting s c = tick (reaping s c).1 c.later c.later_now c.restart

-- What the ticks of a sequence of crashes return, and the service that they leave.
abbrev pub crashes : Service → List Crash → List TickResult × Service
crashes s [] = ([], s)
crashes s (c ∷ cs) =
    let rest = crashes (restarting s c).1 cs in
    ((reaping s c).0 ∷ (restarting s c).0 ∷ rest.0, rest.1)

-- The process of the service has ended and can be reaped; it ended before it counts as stable, in a
-- way that the policy answers with a restart.
abbrev pub IsFailure : Service → Crash → Type 0
IsFailure s c =
    ((reap s c.ended).0 ≡ pos 1)
    × (ltb_ℤ (c.now -ℤ s.last_start_time) s.restart_stability_threshold ≡ true)
    × (should_restart s.restart_policy (was_clean_exit (reap s c.ended).1) ≡ true)

-- The delay is over at the later tick, and the runtime can spawn.
abbrev pub IsRestarted : Service → Crash → Type 0
IsRestarted s c =
    (ltb_ℤ c.later_now (reaping s c).1.restart_allowed_at ≡ false)
    × (((spawn c.later c.restart.group_memory c.restart.memory (some s.name) true c.restart.host).0
          == null)
        ≡ false)

abbrev pub AllFailures : Service → List Crash → Type 0
AllFailures s [] = Unit
AllFailures s (c ∷ cs) = IsFailure s c × IsRestarted s c × AllFailures (restarting s c).1 cs

-- Nobody stops the service, no restart is pending, and it has been restarted `k` times out of `most`.
pub record IsCrashing (s : Service) (k most : ℕ) : Type 0 where
  pub unstopped : s.stop_requested ≡ false
  pub settled : s.restart_pending ≡ false
  pub counted : s.consecutive_restart_count ≡ pos k
  pub bounded : s.max_consecutive_restarts ≡ pos most

-- The service is marked as failed for good, does not run, and no restart is scheduled.
pub record IsGivenUp (s : Service) (count : ℕ) : Type 0 where
  pub failed : s.permanently_failed ≡ true
  pub off : s.state ≡ stopped
  pub unscheduled : s.restart_pending ≡ false
  pub counted : s.consecutive_restart_count ≡ pos count

-- The service that a successful `reap` leaves.
abbrev reaped : Service → Embla → Service
reaped s e = record s {
  last_exit_code = get_exit_code e.heap s.process;
  last_term_signal = get_term_signal e.heap s.process;
  process = null;
  state = stopped;
}

reap-reaped : (s : Service) (e : Embla) → (reap s e).0 ≡ pos 1 → (reap s e).1 ≡ reaped s e
unfolding reap
reap-reaped s e done = ground arith

after_reap-schedules :
    (s : Service) (now : ℤ)
    → s.stop_requested ≡ false
    → should_restart s.restart_policy (was_clean_exit s) ≡ true
    → after_reap s now ≡ schedule_restart s now
unfolding after_reap
after_reap-schedules s now a b = rw a (rw b refl)

-- The state that the tick leaves when it schedules the restart number `k + 1`.
abbrev scheduled : Service → (now : ℤ) → ℕ → Service
scheduled s now k =
    let s' = record s { consecutive_restart_count = pos (suc k) } in
    record s' { restart_allowed_at = now +ℤ compute_delay s'; restart_pending = true }

next_count : (k : ℕ) → pos k +ℤ pos 1 ≡ pos (suc k)
unfolding ◌+ℤ◌
next_count k = ground arith

within : (a b : ℕ) → b ≤ a → ltb_ℤ (pos a) (pos b) ≡ false
within a b le = ground arith

beyond : (a b : ℕ) → a < b → ltb_ℤ (pos a) (pos b) ≡ true
beyond a b lt = ground arith

schedule_restart-lt :
    (s : Service) (now : ℤ) (k most : ℕ)
    → ltb_ℤ (now -ℤ s.last_start_time) s.restart_stability_threshold ≡ true
    → s.consecutive_restart_count ≡ pos k
    → s.max_consecutive_restarts ≡ pos most
    → k < most
    → schedule_restart s now ≡ (reaped_restart_scheduled, scheduled s now k)
unfolding schedule_restart
schedule_restart-lt s now k most u counted bounded lt =
    rw u (rw counted (rw (next_count k) (rw bounded (rw (within most (suc k) (omega arith)) refl))))

schedule_restart-full :
    (s : Service) (now : ℤ) (k : ℕ)
    → ltb_ℤ (now -ℤ s.last_start_time) s.restart_stability_threshold ≡ true
    → s.consecutive_restart_count ≡ pos k
    → s.max_consecutive_restarts ≡ pos k
    → schedule_restart s now ≡ (
      tick_gave_up,
      record s { consecutive_restart_count = pos (suc k); permanently_failed = true },
    )
unfolding schedule_restart
schedule_restart-full s now k u counted bounded =
    rw u (rw counted (rw (next_count k) (rw bounded (rw (beyond k (suc k) (omega arith)) refl))))

tick-after_reap :
    (s : Service) (e : Embla) (now : ℤ) (env : Start)
    → s.restart_pending ≡ false
    → (reap s e).0 ≡ pos 1
    → ((tick s e now env).0 ≡ (after_reap (reap s e).1 now).0)
      × ((tick s e now env).1 ≡ (after_reap (reap s e).1 now).1)
unfolding tick
tick-after_reap s e now env settled done = ground arith

-- The service that a tick restarts.
abbrev restarted : Service → (process : Ptr) → (clock : ℤ) → Service
restarted s process clock = record s {
  restart_pending = false;
  process = process;
  last_start_time = clock;
  permanently_failed = false;
  state = running;
}

tick-restarted :
    (s : Service) (e : Embla) (now : ℤ) (env : Start)
    → s.restart_pending ≡ true
    → s.state ≡ stopped
    → ltb_ℤ now s.restart_allowed_at ≡ false
    → ((spawn e env.group_memory env.memory (some s.name) true env.host).0 == null) ≡ false
    → ((tick s e now env).0 ≡ tick_restarted)
      × ((tick s e now env).1
          ≡ restarted s
              (spawn e env.group_memory env.memory (some s.name) true env.host).0
              env.clock)
unfolding tick start
tick-restarted s e now env waits off due spawned =
    rw (waits, tick, due, off, start, spawned) (refl, refl)

reaping-lt :
    (s : Service) (c : Crash) (k most : ℕ)
    → IsCrashing s k most
    → IsFailure s c
    → k < most
    → ((reaping s c).0 ≡ reaped_restart_scheduled)
      × ((reaping s c).1 ≡ scheduled (reaped s c.ended) c.now k)
reaping-lt s c k most i (done, early, failed) lt =
    let (code, left) = tick-after_reap s c.ended c.now c.restart i.settled done in
    let is = reap-reaped s c.ended done in
    let after =
      ap (λ (x : Service). after_reap x c.now) is
      ∙ after_reap-schedules (reaped s c.ended) c.now i.unstopped (
          ap (λ (x : Service). should_restart s.restart_policy (was_clean_exit x)) (sym is)
          ∙ failed)
      ∙ schedule_restart-lt (reaped s c.ended) c.now k most early i.counted i.bounded lt in
    (
      code ∙ ap (λ (r : TickResult × Service). r.0) after,
      left ∙ ap (λ (r : TickResult × Service). r.1) after,
    )

given_up-tick :
    (s : Service) (count : ℕ) (e : Embla) (now : ℤ) (env : Start)
    → IsGivenUp s count
    → tick s e now env ≡ (tick_nothing, s, e)
unfolding tick reap
given_up-tick s count e now env g =
    let off = g.off in let unscheduled = g.unscheduled in ground arith

reaping-full :
    (s : Service) (c : Crash) (k : ℕ)
    → IsCrashing s k k
    → IsFailure s c
    → ((reaping s c).0 ≡ tick_gave_up) × IsGivenUp (reaping s c).1 (suc k)
reaping-full s c k i (done, early, failed) =
    let (code, left) = tick-after_reap s c.ended c.now c.restart i.settled done in
    let is = reap-reaped s c.ended done in
    let after =
      ap (λ (x : Service). after_reap x c.now) is
      ∙ after_reap-schedules (reaped s c.ended) c.now i.unstopped (
          ap (λ (x : Service). should_restart s.restart_policy (was_clean_exit x)) (sym is)
          ∙ failed)
      ∙ schedule_restart-full (reaped s c.ended) c.now k early i.counted i.bounded in
    (
      code ∙ ap (λ (r : TickResult × Service). r.0) after,
      subst (λ x. IsGivenUp x (suc k)) (sym (left ∙ ap (λ (r : TickResult × Service). r.1) after))
          (record { failed = refl; off = refl; unscheduled = i.settled; counted = refl }),
    )

-- One whole round: the tick that schedules and the tick that restarts.
round :
    (s : Service) (c : Crash) (k most : ℕ)
    → IsCrashing s k most
    → IsFailure s c
    → IsRestarted s c
    → k < most
    → ((reaping s c).0 ≡ reaped_restart_scheduled)
      × ((restarting s c).0 ≡ tick_restarted)
      × IsCrashing (restarting s c).1 (suc k) most
round s c k most i failure (due, spawned) lt =
    let (scheduling, left) = reaping-lt s c k most i failure lt in
    let s' = (reaping s c).1 in
    let named =
      ap
        (λ (x : Service).
          (spawn c.later c.restart.group_memory c.restart.memory (some x.name) true
            c.restart.host).0
          == null)
        left in
    let (code, next) =
      tick-restarted s' c.later c.later_now c.restart (ap (λ (x : Service). x.restart_pending) left)
        (ap (λ (x : Service). x.state) left) due (named ∙ spawned) in
    (
      scheduling,
      code,
      subst (λ x. IsCrashing x (suc k) most) (sym next)
          (record {
            unstopped = ap (λ (x : Service). x.stop_requested) left ∙ i.unstopped;
            settled = refl;
            counted = ap (λ (x : Service). x.consecutive_restart_count) left;
            bounded = ap (λ (x : Service). x.max_consecutive_restarts) left ∙ i.bounded;
          }),
    )

-- `n` restarts, each scheduled by one tick and done by another.
abbrev pub restarts : ℕ → List TickResult
restarts zero = []
restarts (suc n) = reaped_restart_scheduled ∷ tick_restarted ∷ restarts n

-- A service that nobody stops and whose processes keep failing before they are stable, and that can
-- be restarted each time, is restarted exactly as often as its limit allows: with `k` restarts
-- counted and a limit of `k + n`, the ticks of the next `n` crashes schedule a restart and do it
-- each, and the tick of the crash after those gives the service up. It is then marked as failed, and
-- no later tick does anything.
pub crashes-gives_up :
    (s : Service) (cs : List Crash) (last : Crash) (k : ℕ)
    → IsCrashing s k (k + length cs)
    → AllFailures s cs
    → IsFailure (crashes s cs).1 last
    → let s' = (reaping (crashes s cs).1 last).1 in
      ((crashes s cs).0 ≡ restarts (length cs))
      × ((reaping (crashes s cs).1 last).0 ≡ tick_gave_up)
      × IsGivenUp s' (suc (k + length cs))
      × ((e : Embla) (now : ℤ) (env : Start) → tick s' e now env ≡ (tick_nothing, s', e))
crashes-gives_up s [] last k i us u =
    let (code, given_up) = reaping-full s last k (subst (IsCrashing s k) (add-zero k) i) u in
    (
      refl,
      code,
      subst (IsGivenUp (reaping s last).1) (ap suc (sym (add-zero k))) given_up,
      λ e now env. given_up-tick (reaping s last).1 (suc k) e now env given_up,
    )
crashes-gives_up s (c ∷ cs) last k i (failure, again, us) u =
    let same : k + suc (length cs) ≡ suc k + length cs = omega arith in
    let (scheduling, restart, i') =
      round s c k (k + suc (length cs)) i failure again (omega arith) in
    let s' = (restarting s c).1 in
    let (results, code, given_up, quiet) =
      crashes-gives_up s' cs last (suc k) (subst (IsCrashing s' (suc k)) same i') us u in
    (
      ap₂ ◌∷◌ scheduling (ap₂ ◌∷◌ restart results),
      code,
      subst (IsGivenUp (reaping (crashes s' cs).1 last).1) (ap suc (sym same)) given_up,
      quiet,
    )
