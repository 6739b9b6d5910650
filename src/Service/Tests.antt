-- ===== src/Service/Tests.antt =====
-- Inputs on which the theorems about restarts are applied.
use embla.Prelude.{
  ◌≡◌, ◌≤◌, ◌⊎◌, refl, ℤ, pos, List, [], ◌∷◌, ◌-ℤ◌, length, some, none, true, false, arith, update,
  scale, ◌+ℤ◌,
}
use embla.Process
use embla.ProcessManager
use embla.ProcessGroup
use embla.ProcessGroupManager
use embla.Executor
use embla.Scheduler
use embla.Table.{find_from, close_gap}
use embla.Process.{CString, Process, fresh_process, terminated}
use embla.ProcessGroup.{ProcessGroup, fresh_group, has_max_members}
use embla.Executor.{forked}
use embla.Runtime
use embla.Runtime.{Embla}
use embla.Service.{
  Service, Start, running, always, compute_delay, was_clean_exit, should_restart, tick,
  reaped_restart_scheduled, tick_gave_up, tick_restarted, tick_nothing,
}
use embla.Service
use embla.Service.Fields.{get_dependency_name, name_at, null_name, outside, to_int}
use embla.Service.Dependencies.{
  Call, dependency, restart_policy, call_all, IsSound, create-call_all-IsSound, StandsAt,
  get_dependency_name-StandsAt,
}
use embla.Service.Restart.{
  Crash, crashes, reaping, IsGivenUp, crashes-gives_up, compute_delay_closed,
}

abbrev web : Service
web = record (Service.fresh_service (97 ∷ [])) {
  restart_policy = always;
  max_consecutive_restarts = pos 1;
  state = running;
  process = 64;
  last_start_time = pos 5000000000;
}

-- Its process, which has ended with code 1, in a group of its own.
abbrev failed_process : Process
failed_process = record (fresh_process 1 0 1 (97 ∷ [])) { state = terminated; exit_code = pos 1 }

abbrev its_group : ProcessGroup
its_group = record (fresh_group 1 0) {
  processes = update (λ _. 0) 0 64;
  count = 1;
  host_id = pos 400;
}

abbrev ended : Embla
ended =
    record (Runtime.create (update (λ _. none) 64 (some failed_process))
      (update (λ _. none) 96 (some its_group))) {
        process_manager = record {
          processes = update (λ _. 0) 0 64;
          count = 1;
          capacity = 16;
          next_pid = 2;
          iterator_index = 0;
        };
        process_group_manager = record {
          groups = update (λ _. 0) 0 96;
          count = 1;
          capacity = 16;
          next_id = 2;
        };
      }

abbrev restart : Start
restart = record {
  group_memory = record { block = 96; members = true; garbage = 0 };
  memory = record { block = 64; copied = true };
  host = record { fork = forked (pos 401); setpgid = true; eacces = false };
  clock = pos 7000000000;
}

-- Each process ends after one second; the next one is started a second later.
abbrev early : Crash
early = record {
  ended = ended;
  now = pos 6000000000;
  later = Runtime.create (λ _. none) (λ _. none);
  later_now = pos 7000000000;
  restart = restart;
}

abbrev early_again : Crash
early_again = record early { now = pos 8000000000 }

crashes-gives_up_example :
    let s' = (reaping (crashes web (early ∷ [])).1 early_again).1 in
    ((crashes web (early ∷ [])).0 ≡ reaped_restart_scheduled ∷ tick_restarted ∷ [])
    × ((reaping (crashes web (early ∷ [])).1 early_again).0 ≡ tick_gave_up)
    × IsGivenUp s' 2
    × ((e : Embla) (now : ℤ) (env : Start) → tick s' e now env ≡ (tick_nothing, s', e))
unfolding tick Service.reap Process.get_state Runtime.create Runtime.reap_process ProcessManager.get
    ProcessManager.find_index find_from Process.get_id Runtime.reap_found_process
    ProcessGroupManager.get Process.get_group_id ProcessGroupManager.find_index ProcessGroup.get_id
    ProcessGroup.remove ProcessGroup.remove_at ProcessGroup.find_index
    ProcessManager.destroy_process Executor.spawn scale ◌+ℤ◌ ◌-ℤ◌ Process.can_transition
    Process.create Process.destroy Process.get_exit_code Process.get_host_id Process.get_term_signal
    Process.modify Process.set_host_id Process.transition ProcessGroup.add ProcessGroup.create
    ProcessGroup.destroy ProcessGroup.get_host_id has_max_members ProcessGroup.member_count
    ProcessGroup.set_host_id ProcessGroupManager.allocate_id ProcessGroupManager.create
    ProcessGroupManager.create_group ProcessGroupManager.destroy_at
    ProcessGroupManager.destroy_group ProcessManager.allocate_pid ProcessManager.create
    ProcessManager.create_process ProcessManager.destroy_at Runtime.spawn Runtime.spawn_enqueue
    Runtime.spawn_internal Runtime.spawn_lead Runtime.spawn_member Runtime.spawn_rollback
    Scheduler.add Scheduler.advance Scheduler.create Service.after_reap Service.backoff_exponent
    compute_delay Service.schedule_restart should_restart Service.start was_clean_exit close_gap
crashes-gives_up_example =
    crashes-gives_up web (early ∷ []) early_again 0
      (record { unstopped = refl; settled = refl; counted = refl; bounded = refl })
      ((refl, refl, refl), (refl, refl), tt) (refl, refl, refl)

abbrev third : Service
third = record web { consecutive_restart_count = pos 3 }

compute_delay_closed_example : compute_delay third ≡ pos 4000000000
compute_delay_closed_example = compute_delay_closed third 1000000000 300000000000 2 refl refl refl

-- The service `b` (98), with the dependencies `a` and, in vain, itself.
abbrev calls : List Call
calls =
    dependency (some (97 ∷ [])) true ∷ dependency (some (98 ∷ [])) true ∷ restart_policy always ∷ []

create-call_all-IsSound_example :
    (s : Service) × (call_all calls (some (Service.fresh_service (98 ∷ []))) ≡ some s)
    × IsSound (98 ∷ []) s
unfolding Service.create
create-call_all-IsSound_example =
    create-call_all-IsSound (98 ∷ []) true true true (Service.fresh_service (98 ∷ [])) calls refl

abbrev client : Service
client = record (Service.fresh_service (98 ∷ [])) { dependencies = (97 ∷ []) ∷ [] }

get_dependency_name-StandsAt_example :
    ((name : CString) × (get_dependency_name (some client) 0 ≡ name_at name)
      × StandsAt 0 name client.dependencies)
    ⊎ ((length client.dependencies ≤ 0) × (get_dependency_name (some client) 0 ≡ null_name))
get_dependency_name-StandsAt_example = get_dependency_name-StandsAt client 0 (omega arith)

-- An index that `int` cannot hold passes the guard.
negative_index : get_dependency_name (some client) 4294967295 ≡ outside
unfolding get_dependency_name to_int
negative_index = refl
