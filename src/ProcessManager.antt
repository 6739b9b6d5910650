-- ===== src/ProcessManager.antt =====
-- src/process_manager.c: the table that owns every process, and the process ids that it gives out.
-- The receiver is a live manager, so the NULL guards on it have no counterpart; the `Process *`s
-- are addresses on the heap of `Process`. An `int` is 0 or -1 as in the code.
pub mod Frame
pub mod Invariant
pub mod Create
pub mod Destroy
pub mod Reap
pub mod Sweep
pub mod Reparent
mod Tests
use embla.Prelude.{
  ℕ, zero, suc, ◌+◌, ◌-◌, ◌%◌, Bool, true, false, ◌&&◌, Option, none, some, ℤ, success, failure,
  update, ◌==◌, leb, eqb_ℤ, if◌then◌else◌,
}
use embla.Process.{
  Ptr, null, CString, invalid_pid, invalid_host_pid, ProcessState, terminated, Heap, get_id,
  get_parent_id, get_host_id, get_state, set_parent_id,
}
use embla.Process
use embla.Table.{find_from, close_gap}
use embla.Table.Keyed.{slot}

abbrev pub initial_capacity : ℕ
initial_capacity = 16

pub record ProcessManager : Type 0 where
  pub processes : ℕ → Ptr
  pub count : ℕ
  pub capacity : ℕ
  pub next_pid : ℕ
  pub iterator_index : ℕ

unfoldable pub create : ProcessManager
create = record {
  processes = λ _. null;
  count = 0;
  capacity = initial_capacity;
  next_pid = 1;
  iterator_index = 0;
}

-- The post-increment of a `uint32_t`.
unfoldable pub allocate_pid : ProcessManager → ℕ × ProcessManager
allocate_pid m =
    if m.next_pid == 4294967295
    then (invalid_pid, m)
    else (m.next_pid, record m { next_pid = (m.next_pid + 1) % 4294967296 })

-- `block` and `copied` are what the allocations in `process_create` come to.
unfoldable pub create_process :
    ProcessManager
    → Heap
    → (block : Ptr) → (copied : Bool) → (parent group : ℕ) → Option CString
    → Ptr × Heap × ProcessManager
unfolding allocate_pid
create_process m h block copied parent group none = (null, h, m)
create_process m h block copied parent group (some name) =
    if leb m.capacity m.count
    then (null, h, m)
    else let (id, m') = allocate_pid m in
      let (p, h') = Process.create h block copied id parent group (some name) in
      if id == invalid_pid
      then (null, h, m')
      else if p == null
      then (null, h', m')
      else (p, h', record m' { processes = update m'.processes m'.count p; count = m'.count + 1 })

unfoldable pub find_index : ProcessManager → Heap → ℕ → Option ℕ
find_index m h id = find_from m.processes (λ p. get_id h p == id) m.count 0

unfoldable pub get : ProcessManager → Heap → ℕ → Ptr
get m h id = slot m.processes (find_index m h id)

unfoldable pub get_by_host_id : ProcessManager → Heap → ℤ → Ptr
get_by_host_id m h host =
    if eqb_ℤ host invalid_host_pid
    then null
    else slot m.processes (find_from m.processes (λ p. eqb_ℤ (get_host_id h p) host) m.count 0)

-- A counting loop over the first `n` slots.
unfoldable pub count_where : (Ptr → Bool) → (ℕ → Ptr) → ℕ → ℕ
count_where test slots zero = 0
count_where test slots (suc n) =
    let rest = count_where test slots n in if test (slots n) then rest + 1 else rest

abbrev pub is_terminated : ProcessState → Bool
is_terminated terminated = true
is_terminated _ = false

abbrev pub is_live : ProcessState → Bool
is_live terminated = false
is_live _ = true

unfoldable pub live_count : ProcessManager → Heap → ℕ
unfolding count_where
live_count m h = count_where (λ p. is_live (get_state h p)) m.processes m.count

unfoldable pub child_count : ProcessManager → Heap → ℕ → ℕ
unfolding count_where
child_count m h parent =
    if parent == invalid_pid
    then 0
    else count_where (λ p. get_parent_id h p == parent) m.processes m.count

-- What destroying the process in slot `index` comes to.
unfoldable pub destroy_at : ProcessManager → Heap → Option ℕ → ℤ × Heap × ProcessManager
destroy_at m h none = (failure, h, m)
destroy_at m h (some index) = (
  success,
  Process.destroy h (m.processes index),
  record m {
    processes = close_gap m.processes index (m.count - 1);
    count = m.count - 1;
    iterator_index = 0;
  },
)

unfoldable pub destroy_process : ProcessManager → Heap → ℕ → ℤ × Heap × ProcessManager
destroy_process m h id =
    if id == invalid_pid then (failure, h, m) else destroy_at m h (find_index m h id)

unfoldable pub first : ProcessManager → Ptr × ProcessManager
first m = if m.count == 0 then (null, m) else (m.processes 0, record m { iterator_index = 0 })

unfoldable pub next : ProcessManager → Ptr × ProcessManager
next m =
    if leb m.count (m.iterator_index + 1)
    then (null, m)
    else (m.processes (m.iterator_index + 1), record m { iterator_index = m.iterator_index + 1 })

unfoldable pub wait_child : ProcessManager → Heap → ℕ → Ptr
wait_child m h parent =
    if parent == invalid_pid
    then null
    else slot m.processes (
        find_from m.processes (λ p. get_parent_id h p == parent && is_terminated (get_state h p))
          m.count 0)

-- The id that the caller asked for (`child_id` is not NULL) is the last part; 0 where none is set.
unfoldable pub reap_child : ProcessManager → Heap → ℕ → ℤ × ℕ × Heap × ProcessManager
reap_child m h parent =
    if parent == invalid_pid
    then (failure, 0, h, m)
    else let child = wait_child m h parent in
      let (code, h', m') = destroy_process m h (get_id h child) in
      if child == null then (failure, 0, h, m) else (code, get_id h child, h', m')

pub record ChildIterator : Type 0 where
  pub parent_id : ℕ
  pub index : ℕ

-- `allocated` is whether `malloc` gives the iterator.
unfoldable pub child_iterator_create : (allocated : Bool) → ℕ → Option ChildIterator
child_iterator_create allocated parent =
    if parent == invalid_pid
    then none
    else if allocated
    then some (record { parent_id = parent; index = 0 })
    else none

-- The loop of `next`, with the slots left; the index behind the slot that it stops at.
unfoldable pub child_from : ProcessManager → Heap → ℕ → (left index : ℕ) → Ptr × ℕ
child_from m h parent zero index = (null, index)
child_from m h parent (suc left) index =
    let rest = child_from m h parent left (index + 1) in
    if get_parent_id h (m.processes index) == parent then (m.processes index, index + 1) else rest

unfoldable pub child_iterator_next : ProcessManager → Heap → ChildIterator → Ptr × ChildIterator
child_iterator_next m h it =
    let (child, index) = child_from m h it.parent_id (m.count - it.index) it.index in
    (child, record it { index = index })

-- The `while` loop, on fuel: each round takes the iterator at least one slot further.
unfoldable pub reparent_loop : ProcessManager → ℕ → (fuel : ℕ) → Heap → ChildIterator → ℤ × Heap
reparent_loop m parent' zero h it = (failure, h)
reparent_loop m parent' (suc fuel) h it =
    let (child, it') = child_iterator_next m h it in
    let (code, h') = set_parent_id h child parent' in
    let rest = reparent_loop m parent' fuel h' it' in
    if child == null then (success, h) else if eqb_ℤ code success then rest else (failure, h')

unfoldable pub reparent_children : ProcessManager → Heap → (allocated : Bool) → ℕ → ℕ → ℤ × Heap
reparent_children m h allocated parent parent' = elim (child_iterator_create allocated parent) [
  | none ↦ (failure, h)
  | some it ↦ reparent_loop m parent' (m.count + 1) h it
]
