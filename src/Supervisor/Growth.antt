-- ===== src/Supervisor/Growth.antt =====
-- The ready queue under supervision: one entry more for each restart, and none less ever.
use embla.Prelude.{
  ℕ, zero, suc, ◌+◌, ◌≡◌, ◌≢◌, ◌≤◌, ◌⊎◌, inl, inr, refl, ap, ◌∙◌, true, false, subst, some, List,
  [], ◌∷◌, arith, ℤ, failure, success, Option-cases,
}
use embla.Process.{Ptr}
use embla.Scheduler.{Scheduler}
use embla.Runtime.{Embla}
use embla.Runtime.Growth.{spawn-Grows}
use embla.Service.{
  Service, Start, start, reap, tick, TickResult, tick_nothing, tick_waiting, tick_restarted,
  reaped_no_restart, reaped_restart_scheduled, tick_gave_up, tick_error, after_reap,
}
use embla.Registry.{ServiceRegistry, get_at}
use embla.Supervisor.{System}
use embla.Supervisor.Loop.{drain_all, TickInput, tick_at, tick_loop, Turn, turn, turns}
use embla.Supervisor.Kept.{drain_all-scheduler, reap-scheduler, after_reap-ne-restarted}

-- The restarts among results of ticks, and of the ticks of several turns.
abbrev pub restart : TickResult → ℕ
restart tick_restarted = 1
restart _ = 0

abbrev pub restarts : List TickResult → ℕ
restarts [] = 0
restarts (result ∷ results) = restart result + restarts results

abbrev pub all_restarts : List (List TickResult) → ℕ
all_restarts [] = 0
all_restarts (results ∷ rest) = restarts results + all_restarts rest

-- `t` has `n` entries more than `s`, and the capacity still holds them if it held those of `s`.
abbrev pub GrowsBy : Scheduler → ℕ → Scheduler → Type 0
GrowsBy s n t =
    (t.capacity ≡ s.capacity) × (t.count ≡ s.count + n) × ((n ≡ 0) ⊎ (t.count ≤ t.capacity))

start-Grows :
    (s : Service) (e : Embla) (env : Start)
    → ((start s e env).2.scheduler.capacity ≡ e.scheduler.capacity)
      × ((((start s e env).0 ≡ failure) × ((start s e env).2.scheduler.count ≡ e.scheduler.count))
          ⊎ (((start s e env).0 ≡ success)
              × ((start s e env).2.scheduler.count ≡ suc e.scheduler.count)
              × (suc e.scheduler.count ≤ e.scheduler.capacity)))
unfolding start
start-Grows s e env =
    let spawned = spawn-Grows e env.group_memory env.memory (some s.name) true env.host in
    ground arith

restart-others : (result : TickResult) → result ≢ tick_restarted → restart result ≡ 0
restart-others tick_nothing other = refl
restart-others tick_waiting other = refl
restart-others tick_restarted other = absurd (other refl)
restart-others reaped_no_restart other = refl
restart-others reaped_restart_scheduled other = refl
restart-others tick_gave_up other = refl
restart-others tick_error other = refl

GrowsBy-same : (s t : Scheduler) (n : ℕ) → n ≡ 0 → t ≡ s → GrowsBy s n t
GrowsBy-same s t n none_new same = (
  ap (λ (u : Scheduler). u.capacity) same,
  omega (arith, ap (λ (u : Scheduler). u.count) same),
  inl none_new,
)

GrowsBy-trans : (s t u : Scheduler) (n k : ℕ) → GrowsBy s n t → GrowsBy t k u → GrowsBy s (n + k) u
GrowsBy-trans s t u n k (a, b, within) (c, d, later) = (c ∙ a, omega arith, held within later)
  where
    held :
        (n ≡ 0) ⊎ (t.count ≤ t.capacity)
        → (k ≡ 0) ⊎ (u.count ≤ u.capacity)
        → (n + k ≡ 0) ⊎ (u.count ≤ u.capacity)
    held within (inr fits) = inr fits
    held (inl zero_n) (inl zero_k) = inl (omega arith)
    held (inr fits) (inl zero_k) = inr (omega arith)

tick-GrowsBy :
    (s : Service) (e : Embla) (now : ℤ) (env : Start)
    → GrowsBy e.scheduler (restart (tick s e now env).0) (tick s e now env).2.scheduler
unfolding tick
tick-GrowsBy s e now env =
    let started = start-Grows (record s { restart_pending = false }) e env in
    let same = reap-scheduler s e in
    let others =
      restart-others (after_reap (reap s e).1 now).0 (after_reap-ne-restarted (reap s e).1 now) in
    let same_capacity = ap (λ (u : Scheduler). u.capacity) same in
    let same_count = ap (λ (u : Scheduler). u.count) same in ground arith

tick_at-GrowsBy :
    (sys : System) (p : Ptr) (input : TickInput)
    → GrowsBy sys.embla.scheduler
        (restart (tick_at sys p input).0)
        (tick_at sys p input).1.embla.scheduler
unfolding tick_at
tick_at-GrowsBy sys p input = elim (Option-cases (sys.services p)) [
  | inl gone ↦ rw (gone, tick_at) (GrowsBy-same sys.embla.scheduler sys.embla.scheduler 0 refl refl)
  | inr (s, there) ↦ rw (there, tick_at) (tick-GrowsBy s sys.embla input.now input.start)
]

tick_loop-GrowsBy :
    (r : ServiceRegistry) (inputs : ℕ → TickInput) (left i : ℕ) (sys : System)
    → GrowsBy sys.embla.scheduler
        (restarts (tick_loop r inputs left i sys).0)
        (tick_loop r inputs left i sys).1.embla.scheduler
unfolding tick_loop
tick_loop-GrowsBy r inputs zero i sys =
    GrowsBy-same sys.embla.scheduler sys.embla.scheduler 0 refl refl
tick_loop-GrowsBy r inputs (suc left) i sys =
    let (result, sys') = tick_at sys (get_at r i) (inputs i) in
    let (results, sys'') = tick_loop r inputs left (i + 1) sys' in
    GrowsBy-trans sys.embla.scheduler sys'.embla.scheduler sys''.embla.scheduler (restart result)
      (restarts results) (tick_at-GrowsBy sys (get_at r i) (inputs i))
      (tick_loop-GrowsBy r inputs left (i + 1) sys')

turn-GrowsBy :
    (r : ServiceRegistry) (t : Turn) (sys : System)
    → GrowsBy sys.embla.scheduler (restarts (turn r t sys).0) (turn r t sys).1.embla.scheduler
unfolding turn
turn-GrowsBy r t sys =
    let e = drain_all t.polls sys.embla in
    let drained = record sys { embla = e } in
    let (results, sys') = tick_loop r t.inputs r.count 0 drained in
    subst (λ before. GrowsBy before (restarts results) sys'.embla.scheduler)
      (drain_all-scheduler t.polls sys.embla) (tick_loop-GrowsBy r t.inputs r.count 0 drained)

-- Through any number of turns of supervision, whatever the host answers, the ready queue gets one
-- entry for each tick that restarts a service and loses none, and its capacity stays; if a service
-- is restarted at all, the entries are in the end no more than the capacity. So no more services are
-- restarted than there were places left.
pub turns-GrowsBy :
    (r : ServiceRegistry) (ts : List Turn) (sys : System)
    → GrowsBy sys.embla.scheduler
        (all_restarts (turns r ts sys).0)
        (turns r ts sys).1.embla.scheduler
unfolding turns
turns-GrowsBy r [] sys = GrowsBy-same sys.embla.scheduler sys.embla.scheduler 0 refl refl
turns-GrowsBy r (t ∷ ts) sys =
    let (results, sys') = turn r t sys in
    let (rest, sys'') = turns r ts sys' in
    GrowsBy-trans sys.embla.scheduler sys'.embla.scheduler sys''.embla.scheduler (restarts results)
      (all_restarts rest) (turn-GrowsBy r t sys) (turns-GrowsBy r ts sys')
