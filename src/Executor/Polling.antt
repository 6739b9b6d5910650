-- ===== src/Executor/Polling.antt =====
-- `executor_poll` beside `executor_wait`.
use embla.Prelude.{◌≡◌, Bool, true, false, some, arith, ℤ, pos, failure, eqb_ℤ, if◌then◌else◌}
use embla.Process.{Ptr, Heap}
use embla.Executor.{
  WaitStatus, exited, signaled, stopped_by, continued, other_status, Usage, poll, poll_status,
  apply_rusage, wait,
}

-- What `executor_wait` does behind a poll: the usage is recorded too.
abbrev pub record_usage : Ptr → Usage → ℤ × Heap → ℤ × Heap
record_usage p usage (code, h) = if eqb_ℤ code (pos 1) then apply_rusage h p usage else (failure, h)

abbrev pub is_end : WaitStatus → Bool
is_end (exited n) = true
is_end (signaled n) = true
is_end _ = false

-- On the status of a process that has ended, `executor_wait` comes to the same as `executor_poll`
-- followed by the recording of the usage, its errors included.
pub wait-poll :
    (h : Heap) (p : Ptr) (status : WaitStatus) (usage : Usage)
    → is_end status ≡ true
    → wait h p (some (status, usage)) ≡ record_usage p usage (poll h p (some (some status)))
unfolding poll poll_status wait apply_rusage
wait-poll h p (exited n) usage ended = ground arith
wait-poll h p (signaled n) usage ended = ground arith
wait-poll h p (stopped_by n) usage ended = absurd (cc ended)
wait-poll h p continued usage ended = absurd (cc ended)
wait-poll h p other_status usage ended = absurd (cc ended)
