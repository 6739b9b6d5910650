-- ===== src/Scheduler.antt =====
-- src/scheduler.c: the ready queue, a ring buffer of process pointers, and the dispatched process.
mod Ring
pub mod Queue
pub mod Remove
pub mod Dispatch
mod Tests
use embla.Prelude.{
  ℕ, zero, suc, ◌+◌, ◌-◌, ◌%◌, true, not, ℤ, success, failure, update, ◌==◌, leb, eqb_ℤ,
  if◌then◌else◌,
}
use embla.Process.{Ptr, null, Heap, running, ready, transition}

abbrev pub initial_capacity : ℕ
initial_capacity = 16

pub record Scheduler : Type 0 where
  pub ready_queue : ℕ → Ptr
  pub capacity : ℕ
  pub head : ℕ
  pub tail : ℕ
  pub count : ℕ
  pub current : Ptr

-- `calloc` gives an array of NULLs.
unfoldable pub create : Scheduler
create = record {
  ready_queue = λ _. null;
  capacity = initial_capacity;
  head = 0;
  tail = 0;
  count = 0;
  current = null;
}

unfoldable pub advance : Scheduler → ℕ → ℕ
advance s index = (index + 1) % s.capacity

unfoldable pub retreat : Scheduler → ℕ → ℕ
retreat s index = (index + s.capacity - 1) % s.capacity

unfoldable pub index_at : Scheduler → ℕ → ℕ
index_at s offset = (s.head + offset) % s.capacity

unfoldable pub add : Scheduler → Ptr → ℤ × Scheduler
unfolding advance
add s process =
    if process == null then (failure, s) else if leb s.capacity s.count then (failure, s) else (
      success,
      record s {
        ready_queue = update s.ready_queue s.tail process;
        tail = advance s s.tail;
        count = s.count + 1;
      },
    )

-- The inner loop from `j` on, with the rounds left.
unfoldable pub shift : Scheduler → (rounds j : ℕ) → (ℕ → Ptr) → ℕ → Ptr
unfolding index_at
shift s zero j queue = queue
shift s (suc rounds) j queue =
    shift s rounds (j + 1) (update queue (index_at s j) (queue (index_at s (j + 1))))

-- What the loop's body does once the process stands at offset `i`.
unfoldable pub take_out : Scheduler → ℕ → Scheduler
unfolding shift retreat
take_out s i = record s {
  ready_queue = update (shift s (s.count - 1 - i) i s.ready_queue) (index_at s (s.count - 1)) null;
  tail = retreat s s.tail;
  count = s.count - 1;
}

-- The outer loop at offset `i`, with the offsets left.
unfoldable pub remove_from : Scheduler → Ptr → (left i : ℕ) → ℤ × Scheduler
unfolding take_out
remove_from s process zero i = (failure, s)
remove_from s process (suc left) i =
    let rest = remove_from s process left (i + 1) in
    if s.ready_queue (index_at s i) == process then (success, take_out s i) else rest

unfoldable pub remove : Scheduler → Ptr → ℤ × Scheduler
unfolding remove_from
remove s process =
    if process == null
    then (failure, s)
    else if s.current == process
    then (success, record s { current = null })
    else remove_from s process s.count 0

unfoldable pub next : Scheduler → Ptr × Scheduler
unfolding advance
next s = if s.count == 0 then (null, s) else (
  s.ready_queue s.head,
  record s {
    ready_queue = update s.ready_queue s.head null;
    head = advance s s.head;
    count = s.count - 1;
  },
)

-- The process taken from the queue is transitioned to RUNNING, or put back at the end.
unfoldable pub dispatch : Heap → Scheduler → ℤ × Heap × Scheduler
dispatch h s =
    if not (s.current == null)
    then (failure, h, s)
    else let (process, s') = next s in
      if process == null
      then (failure, h, s')
      else let (code, h') = transition h process running in
        if eqb_ℤ code success
        then (success, h', record s' { current = process })
        else (failure, h', (add s' process).1)

unfoldable pub yield : Heap → Scheduler → ℤ × Heap × Scheduler
yield h s =
    if s.current == null
    then (failure, h, s)
    else if leb s.capacity s.count
    then (failure, h, s)
    else let (code, h') = transition h s.current ready in
      let (added, s') = add (record s { current = null }) s.current in
      if eqb_ℤ code success then (added, h', s') else (failure, h', s)

unfoldable pub ready_count : Scheduler → ℕ
ready_count s = s.count
