-- ===== src/Process.antt =====
-- src/process.c and include/embla/process.h: one supervised process and its state machine.
-- A `Process *` is an address, `null` among them; the heap maps the address of a live object to
-- its fields, and `null` (or any other address without an object) to `none`. What `malloc` and
-- `embla_strdup` return is an argument of `create`. CPU times are in microseconds.
pub mod Machine
pub mod Calls
mod Tests
use embla.Prelude.{
  ℕ, Bool, true, false, ◌||◌, Option, none, some, List, ℤ, pos, negsuc, success, failure, update,
  ◌==◌, if◌then◌else◌,
}

abbrev pub Ptr : Type 0
Ptr = ℕ

abbrev pub null : Ptr
null = 0

-- The bytes of a C string, its terminator left out; `none` is a NULL `char *`.
abbrev pub CString : Type 0
CString = List ℕ

abbrev pub root_pid : ℕ
root_pid = 0

-- UINT32_MAX
abbrev pub invalid_pid : ℕ
invalid_pid = 4294967295

abbrev pub invalid_pgid : ℕ
invalid_pgid = 4294967295

abbrev pub invalid_host_pid : ℤ
invalid_host_pid = pos 0

pub data ProcessState : Type 0 where
  created ready running stopped blocked terminated : ProcessState

pub record Process : Type 0 where
  pub id : ℕ
  pub parent_id : ℕ
  pub group_id : ℕ
  pub host_id : ℤ
  pub state : ProcessState
  pub name : CString
  pub exit_code : ℤ
  pub term_signal : ℤ
  pub cpu_user_seconds : ℤ
  pub cpu_system_seconds : ℤ
  pub max_rss_bytes : ℤ

abbrev pub Heap : Type 0
Heap = ℕ → Option Process

-- -1.0 seconds.
abbrev pub no_seconds : ℤ
no_seconds = negsuc 999999

abbrev pub fresh_process : ℕ → ℕ → ℕ → CString → Process
fresh_process id parent group name = record {
  id = id;
  parent_id = parent;
  group_id = group;
  host_id = invalid_host_pid;
  state = created;
  name = name;
  exit_code = negsuc 0;
  term_signal = negsuc 0;
  cpu_user_seconds = no_seconds;
  cpu_system_seconds = no_seconds;
  max_rss_bytes = negsuc 0;
}

-- `block` is what `malloc` returns, `copied` whether `embla_strdup` succeeds.
unfoldable pub create :
    Heap → (block : Ptr) → (copied : Bool) → ℕ → ℕ → ℕ → Option CString → Ptr × Heap
create h block copied id parent group none = (null, h)
create h block copied id parent group (some name) =
    if id == invalid_pid || block == null
    then (null, h)
    else if copied
    then (block, update h block (some (fresh_process id parent group name)))
    else (null, h)

-- `free`: the object is gone. NULL is left alone.
unfoldable pub destroy : Heap → Ptr → Heap
destroy h p = if p == null then h else update h p none

-- A setter returns -1 on NULL, and otherwise changes the object.
unfoldable pub modify : Heap → Ptr → (Process → Process) → ℤ × Heap
modify h p f = elim (h p) [ none ↦ (failure, h) | some pr ↦ (success, update h p (some (f pr))) ]

unfoldable pub get_id : Heap → Ptr → ℕ
get_id h p = elim (h p) [ none ↦ invalid_pid | some pr ↦ pr.id ]

unfoldable pub set_parent_id : Heap → Ptr → ℕ → ℤ × Heap
unfolding modify
set_parent_id h p parent = modify h p (λ pr. record pr { parent_id = parent })

unfoldable pub get_parent_id : Heap → Ptr → ℕ
get_parent_id h p = elim (h p) [ none ↦ invalid_pid | some pr ↦ pr.parent_id ]

unfoldable pub set_group_id : Heap → Ptr → ℕ → ℤ × Heap
unfolding modify
set_group_id h p group = modify h p (λ pr. record pr { group_id = group })

unfoldable pub get_group_id : Heap → Ptr → ℕ
get_group_id h p = elim (h p) [ none ↦ invalid_pgid | some pr ↦ pr.group_id ]

unfoldable pub set_host_id : Heap → Ptr → ℤ → ℤ × Heap
unfolding modify
set_host_id h p host = modify h p (λ pr. record pr { host_id = host })

unfoldable pub get_host_id : Heap → Ptr → ℤ
get_host_id h p = elim (h p) [ none ↦ invalid_host_pid | some pr ↦ pr.host_id ]

unfoldable pub get_state : Heap → Ptr → ProcessState
get_state h p = elim (h p) [ none ↦ terminated | some pr ↦ pr.state ]

-- The `switch` over the current state, one clause for each `next == …` that it accepts.
unfoldable pub can_transition : ProcessState → ProcessState → Bool
can_transition created ready = true
can_transition ready running = true
can_transition ready stopped = true
can_transition ready terminated = true
can_transition running ready = true
can_transition running stopped = true
can_transition running blocked = true
can_transition running terminated = true
can_transition stopped running = true
can_transition stopped terminated = true
can_transition blocked ready = true
can_transition blocked terminated = true
can_transition _ _ = false

unfoldable pub transition : Heap → Ptr → ProcessState → ℤ × Heap
unfolding can_transition
transition h p next = elim (h p) [
  | none ↦ (failure, h)
  | some pr ↦
      if can_transition pr.state next
      then (success, update h p (some (record pr { state = next })))
      else (failure, h)
]

unfoldable pub set_exit_code : Heap → Ptr → ℤ → ℤ × Heap
unfolding modify
set_exit_code h p code = modify h p (λ pr. record pr { exit_code = code })

unfoldable pub get_exit_code : Heap → Ptr → ℤ
get_exit_code h p = elim (h p) [ none ↦ failure | some pr ↦ pr.exit_code ]

unfoldable pub set_term_signal : Heap → Ptr → ℤ → ℤ × Heap
unfolding modify
set_term_signal h p signal = modify h p (λ pr. record pr { term_signal = signal })

unfoldable pub get_term_signal : Heap → Ptr → ℤ
get_term_signal h p = elim (h p) [ none ↦ failure | some pr ↦ pr.term_signal ]

unfoldable pub set_cpu_user_seconds : Heap → Ptr → ℤ → ℤ × Heap
unfolding modify
set_cpu_user_seconds h p seconds = modify h p (λ pr. record pr { cpu_user_seconds = seconds })

unfoldable pub get_cpu_user_seconds : Heap → Ptr → ℤ
get_cpu_user_seconds h p = elim (h p) [ none ↦ no_seconds | some pr ↦ pr.cpu_user_seconds ]

unfoldable pub set_cpu_system_seconds : Heap → Ptr → ℤ → ℤ × Heap
unfolding modify
set_cpu_system_seconds h p seconds = modify h p (λ pr. record pr { cpu_system_seconds = seconds })

unfoldable pub get_cpu_system_seconds : Heap → Ptr → ℤ
get_cpu_system_seconds h p = elim (h p) [ none ↦ no_seconds | some pr ↦ pr.cpu_system_seconds ]

unfoldable pub set_max_rss_bytes : Heap → Ptr → ℤ → ℤ × Heap
unfolding modify
set_max_rss_bytes h p bytes = modify h p (λ pr. record pr { max_rss_bytes = bytes })

unfoldable pub get_max_rss_bytes : Heap → Ptr → ℤ
get_max_rss_bytes h p = elim (h p) [ none ↦ failure | some pr ↦ pr.max_rss_bytes ]
