-- ===== src/Supervisor/Kept.antt =====
-- Which steps of the supervision leave the ready queue alone: the events and the reaping do.
use embla.Prelude.{◌≡◌, ◌≢◌, refl, List, [], ◌∷◌, arith, ℤ}
use embla.Process.{Ptr}
use embla.Executor.{
  WaitStatus, exited, signaled, stopped_by, continued, other_status, Usage, Poll, poll_error,
  nothing, event,
}
use embla.Runtime.{Embla}
use embla.Runtime.Capacity.{reap_process-scheduler}
use embla.Service.{Service, reap, tick_restarted, after_reap, schedule_restart}
use embla.Process.{get_id}
use embla.ProcessManager.{get_by_host_id}
use embla.Supervisor.{drain_status, drain_one_event}
use embla.Supervisor.Loop.{drain_all}

drain_status-scheduler :
    (e : Embla) (p : Ptr) (status : WaitStatus) (usage : Usage)
    → (drain_status e p status usage).scheduler ≡ e.scheduler
unfolding drain_status
drain_status-scheduler e p (exited code) usage = refl
drain_status-scheduler e p (signaled number) usage = refl
drain_status-scheduler e p (stopped_by number) usage = refl
drain_status-scheduler e p continued usage = refl
drain_status-scheduler e p other_status usage = refl

pub drain_one_event-scheduler :
    (e : Embla) (poll : Poll) → (drain_one_event e poll).1.scheduler ≡ e.scheduler
unfolding drain_one_event
drain_one_event-scheduler e poll_error = refl
drain_one_event-scheduler e nothing = refl
drain_one_event-scheduler e (event host_id status usage) =
    let p = get_by_host_id e.process_manager e.heap host_id in
    let kept = drain_status-scheduler e p status usage in ground arith

pub drain_all-scheduler :
    (polls : List Poll) (e : Embla) → (drain_all polls e).scheduler ≡ e.scheduler
unfolding drain_all
drain_all-scheduler [] e = refl
drain_all-scheduler (poll ∷ polls) e =
    let one = drain_one_event-scheduler e poll in
    let rest = drain_all-scheduler polls (drain_one_event e poll).1 in ground arith

pub reap-scheduler : (s : Service) (e : Embla) → (reap s e).2.scheduler ≡ e.scheduler
unfolding reap
reap-scheduler s e = let gone = reap_process-scheduler e (get_id e.heap s.process) in ground arith

pub after_reap-ne-restarted : (s : Service) (now : ℤ) → (after_reap s now).0 ≢ tick_restarted
unfolding after_reap schedule_restart
after_reap-ne-restarted s now = ground arith
