-- ===== src/Runtime/Tests.antt =====
-- A runtime whose ready queue is full.
use embla.Prelude.{
  ◌≡◌, refl, Option, Bool, inl, inr, List, ℤ, success, true, false, none, some, pos, [], ◌∷◌,
  update,
}
use embla.Process.{Heap, Process, fresh_process, terminated, running}
use embla.Executor.{SpawnHost, forked, Poll, poll_error, nothing, event, exited, Usage}
use embla.Runtime.{Embla, Memory, GroupMemory, spawn, handle_child_event, reap_process}
use embla.Runtime.Loop.{run}
use embla.Runtime
use embla.Runtime.Shutdown.{Ended, run-Halts}
use embla.ProcessGroup.{ProcessGroup}
use embla.Runtime.Spawn.{Spawns, spawn-Spawns}
use embla.Runtime.Invariant.{create-IsRuntime}
use embla.Runtime.Grouped.Steps.{IsSound, reached-IsSound}
use embla.Runtime.Steps.{Reached, start, then_step, spawns, handles, reaps}
use embla.Runtime.Capacity.{Refused, reap_all, spawn-reap_all_full}

abbrev zombie : Process
zombie = record (fresh_process 1 0 1 []) { state = terminated }

abbrev heap : Heap
heap = update (λ _. none) 64 (some zombie)

abbrev crowded : Embla
crowded = record (Runtime.create heap (λ _. none)) {
  scheduler = record {
    ready_queue = λ _. 64;
    capacity = 16;
    head = 3;
    tail = 3;
    count = 16;
    current = 0;
  };
}

abbrev group_memory : GroupMemory
group_memory = record { block = 96; members = true; garbage = 0 }

abbrev memory : Memory
memory = record { block = 65; copied = true }

abbrev host : SpawnHost
host = record { fork = forked (pos 400); setpgid = true; eacces = false }

spawn-reap_all_full_example :
    Refused
      (reap_all (1 ∷ []) crowded)
      (spawn (reap_all (1 ∷ []) crowded) group_memory memory (some (119 ∷ [])) true host)
unfolding Runtime.create
spawn-reap_all_full_example =
    spawn-reap_all_full crowded (1 ∷ []) group_memory memory (some (119 ∷ [])) true host refl

abbrev fresh_runtime : Embla
fresh_runtime = Runtime.create (λ _. none) (λ _. none)

spawn-Spawns_example :
    Spawns fresh_runtime group_memory memory
      (some (119 ∷ []))
      true
      host
      (spawn fresh_runtime group_memory memory (some (119 ∷ [])) true host)
unfolding Runtime.create
spawn-Spawns_example =
    spawn-Spawns fresh_runtime group_memory memory (some (119 ∷ [])) true host
      (create-IsRuntime (λ _. none) (λ _. none)) refl refl

-- A process is spawned, ends, and is reaped.
abbrev busy_runtime : Embla
busy_runtime = (spawn fresh_runtime group_memory memory (some (119 ∷ [])) true host).1

abbrev usage : Usage
usage = record { user = pos 20; system = pos 10; max_rss = pos 4096 }

abbrev ended_runtime : Embla
ended_runtime = (handle_child_event busy_runtime (pos 400) (exited (pos 3)) usage true).1

abbrev history : Reached (λ _. none) (λ _. none) (reap_process ended_runtime 1).1
unfolding Runtime.create
history =
    then_step
      (then_step
        (then_step start (spawns group_memory memory (some (119 ∷ [])) true host refl refl))
        (handles (pos 400) (exited (pos 3)) usage true))
      (reaps 1)

reached-IsSound_example : IsSound (reap_process ended_runtime 1).1
reached-IsSound_example =
    reached-IsSound (λ _. none) (λ _. none) (reap_process ended_runtime 1).1 history

-- A stopped runtime with one process of the root, which runs on the host.
abbrev job : Process
job = record (fresh_process 2 0 1 []) { state = running; host_id = pos 400 }

abbrev member : ProcessGroup
member = record {
  id = 1;
  processes = update (λ _. 0) 0 80;
  count = 1;
  capacity = 16;
  host_id = pos 400;
  has_max_members = false;
  max_members = 0;
}

abbrev working : Embla
working =
    record (Runtime.create (update (λ _. none) 80 (some job))
      (update (λ _. none) 90 (some member))) {
        process_manager = record {
          processes = update (λ _. 0) 0 80;
          count = 1;
          capacity = 16;
          next_pid = 3;
          iterator_index = 0;
        };
        scheduler = record (Runtime.create (λ _. none) (λ _. none)).scheduler { current = 80 };
        process_group_manager = record {
          groups = update (λ _. 0) 0 90;
          count = 1;
          capacity = 16;
          next_id = 2;
        };
      }

-- Nothing at first; then the process exits; the last poll is not reached.
abbrev polls : List (Poll × Bool)
polls = (nothing, true) ∷ (event (pos 400) (exited (pos 3)) usage, true) ∷ (poll_error, true) ∷ []

run-Halts_example : Ended (run polls working)
unfolding Runtime.create
run-Halts_example = run-Halts polls working refl (inr (inr (inl refl)))

abbrev code_of : Option (ℤ × Embla) → Option ℤ
code_of none = none
code_of (some (code, e)) = some code

-- This run reaps the process and stops the runtime.
run_polls : code_of (run polls working) ≡ some success
unfolding embla.Runtime.create embla.Runtime.handle_child_event
    embla.Runtime.Loop.reap_root_children embla.Runtime.Loop.shutdown embla.Runtime.Loop.round
    embla.Runtime.Loop.finish embla.Runtime.Loop.loop embla.Runtime.Loop.run embla.Scheduler.create
    embla.Scheduler.remove embla.Scheduler.ready_count embla.ProcessManager.get_by_host_id
    embla.ProcessManager.live_count embla.ProcessManager.wait_child
    embla.ProcessManager.child_iterator_create embla.ProcessManager.child_from
    embla.ProcessManager.child_iterator_next embla.ProcessManager.reparent_loop
    embla.ProcessManager.reparent_children embla.Executor.apply_rusage embla.Process.get_id
    embla.Process.get_parent_id embla.Process.get_host_id embla.Process.get_state
    embla.Process.transition embla.Process.set_exit_code embla.Process.set_cpu_user_seconds
    embla.Process.set_cpu_system_seconds embla.Process.set_max_rss_bytes embla.Table.find_from
    embla.Runtime.reap_child embla.Runtime.reap_found_process embla.Process.get_group_id
    embla.ProcessGroupManager.get embla.ProcessGroupManager.find_index embla.ProcessGroup.get_id
    embla.ProcessGroup.remove embla.ProcessGroup.remove_at embla.ProcessGroup.find_index
    embla.ProcessGroup.member_count embla.ProcessManager.destroy_process
    embla.ProcessManager.destroy_at embla.ProcessManager.find_index
    embla.ProcessGroupManager.destroy_group embla.ProcessGroupManager.destroy_at
run_polls = refl
