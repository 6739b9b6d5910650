-- ===== src/Executor/Tests.antt =====
-- A configuration that a child is started with, and hosts that grant or refuse its calls.
use embla.Prelude.{
  ◌≡◌, refl, ℕ, Bool, true, false, none, some, List, [], ◌∷◌, pos, inr, Option, update,
  if◌then◌else◌, eqb_ℤ,
}
use embla.Process.{Heap, fresh_process, running, Process}
use embla.Platform.{linux, memory_limit_supported}
use embla.ProcessConfig.{ProcessConfig}
use embla.Executor.{
  exited, poll, wait, Usage, interrupted, no_change, failed, changed, wait4_retry, poll_any, event,
  nothing,
}
use embla.Executor.Polling.{record_usage, wait-poll}
use embla.Executor.Child.{
  Host, Syscall, setuid, child_exec, Child, next, exits, attempt, perform, limit, limit_memory,
  change_directory, redirect, close_redirected, Resource,
}
use embla.Executor.Child.Trace.{all_calls, child_exec-calls}
use embla.Executor.Child.ExitCodes.{Blames, child_exec-Blames}
use embla.Executor.Child.Descriptors.{Files, effects, wanted, IsOutside}

abbrev worker : Process
worker = record (fresh_process 1 0 1 []) { state = running; host_id = pos 400 }

abbrev heap : Heap
heap = update (λ _. none) 64 (some worker)

abbrev usage : Usage
usage = record { user = pos 20; system = pos 10; max_rss = pos 4096 }

wait-poll_example :
    wait heap 64 (some (exited (pos 3), usage))
    ≡ record_usage 64 usage (poll heap 64 (some (some (exited (pos 3)))))
wait-poll_example = wait-poll heap 64 (exited (pos 3)) usage refl

-- An interrupted wait is repeated.
poll_again :
    poll_any (wait4_retry (interrupted ∷ []) (changed (pos 400) (exited (pos 3)) usage))
    ≡ event (pos 400) (exited (pos 3)) usage
unfolding poll_any wait4_retry
poll_again = refl

poll_childless : poll_any (wait4_retry (failed true ∷ []) no_change) ≡ nothing
unfolding poll_any wait4_retry
poll_childless = refl

-- Two redirected streams, a limit and another user.
abbrev config : ProcessConfig
config = record {
  path = 47 ∷ 120 ∷ [];
  argv = (120 ∷ []) ∷ [];
  working_directory = some (47 ∷ []);
  envp = none;
  stdin_fd = pos 5;
  stdout_fd = pos 7;
  stderr_fd = pos 7;
  has_umask = true;
  umask_value = 18;
  has_credentials = true;
  uid = 1000;
  gid = 1000;
  has_memory_limit = true;
  memory_limit = 65536;
  has_cpu_limit = false;
  cpu_limit = 0;
  has_fd_limit = true;
  fd_limit = 64;
}

abbrev hard_limit : Resource → Option ℕ
hard_limit resource = some 1024

abbrev generous : Host
generous = record {
  succeeds = λ calls call. true;
  rlimit = hard_limit;
  platform = linux;
  environ = [];
}

abbrev trace_of : Child → List Syscall
trace_of (next t) = t
trace_of (exits code t) = t

child_exec-calls_example :
    trace_of (child_exec generous (pos 0) config []) ≡ all_calls generous (pos 0) config
unfolding child_exec attempt perform limit limit_memory change_directory redirect close_redirected
    memory_limit_supported
child_exec-calls_example =
    child_exec-calls generous (pos 0) config (trace_of (child_exec generous (pos 0) config [])) refl

-- A host that lets nobody change the user.
abbrev refuses : Syscall → Bool
refuses (setuid uid) = false
refuses _ = true

abbrev strict : Host
strict = record {
  succeeds = λ calls call. refuses call;
  rlimit = hard_limit;
  platform = linux;
  environ = [];
}

child_exec-Blames_example : Blames strict 125 (trace_of (child_exec strict (pos 0) config []))
unfolding child_exec attempt perform limit limit_memory change_directory redirect close_redirected
    memory_limit_supported
child_exec-Blames_example =
    child_exec-Blames strict (pos 0) config (trace_of (child_exec strict (pos 0) config [])) 125
      (inr refl) refl

-- Descriptor 9 has FD_CLOEXEC, and so has 7, which standard output and standard error come from.
abbrev files : Files
files fd =
    if eqb_ℤ fd (pos 5)
    then some (record { file = 50; cloexec = false })
    else if eqb_ℤ fd (pos 7)
    then some (record { file = 70; cloexec = true })
    else if eqb_ℤ fd (pos 9)
    then some (record { file = 90; cloexec = true })
    else none

abbrev outside : IsOutside config
outside = record { stdin_outside = refl; stdout_outside = refl; stderr_outside = refl }

wanted_error_stream : wanted config files (pos 2) ≡ some (record { file = 70; cloexec = false })
wanted_error_stream = refl

wanted_cloexec : wanted config files (pos 9) ≡ none
wanted_cloexec = refl

-- With standard input redirected to 5 and standard output to 0, the child's standard output is the
-- file of 5: the first `dup2` has overwritten what the second one copies.
swapped_streams :
    effects
      (all_calls generous (pos 0) (record config { stdin_fd = pos 5; stdout_fd = pos 0 }))
      (λ fd. if eqb_ℤ fd (pos 0) then some (record { file = 1; cloexec = false }) else files fd)
      (pos 1)
    ≡ some (record { file = 50; cloexec = false })
swapped_streams = refl
