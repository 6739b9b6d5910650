-- ===== src/Runtime/GroupSignals.antt =====
-- src/embla.c, the signals to a whole group: to the host's group that its first process leads.
use embla.Prelude.{ℕ, Bool, ◌||◌, Option, none, ℤ, failure, ◌==◌, eqb_ℤ, if◌then◌else◌}
use embla.Process.{Ptr, null}
use embla.ProcessGroup
use embla.ProcessGroup.{invalid_host_pgid}
use embla.Executor
use embla.Executor.{Sent, SpawnHost, forked}
use embla.Runtime.{Embla, Signals}

unfoldable pub signal_group : Embla → (group : Ptr) → ℕ → (delivered : Bool) → ℤ × Option Sent
signal_group e group number delivered =
    let host = ProcessGroup.get_host_id e.groups group in
    if group == null || eqb_ℤ host invalid_host_pgid
    then (failure, none)
    else Executor.signal_group host number delivered

module _ (signals : Signals) where
  unfoldable pub stop_group : Embla → (group : Ptr) → (delivered : Bool) → ℤ × Option Sent
  unfolding signal_group
  stop_group e group delivered =
      if group == null then (failure, none) else signal_group e group signals.sigstop delivered

  unfoldable pub continue_group : Embla → (group : Ptr) → (delivered : Bool) → ℤ × Option Sent
  unfolding signal_group
  continue_group e group delivered =
      if group == null then (failure, none) else signal_group e group signals.sigcont delivered

  unfoldable pub terminate_group : Embla → (group : Ptr) → (delivered : Bool) → ℤ × Option Sent
  unfolding signal_group
  terminate_group e group delivered =
      if group == null then (failure, none) else signal_group e group signals.sigterm delivered

  unfoldable pub kill_group : Embla → (group : Ptr) → (delivered : Bool) → ℤ × Option Sent
  unfolding signal_group
  kill_group e group delivered =
      if group == null then (failure, none) else signal_group e group signals.sigkill delivered
