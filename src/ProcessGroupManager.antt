-- ===== src/ProcessGroupManager.antt =====
-- src/process_group_manager.c: the table that owns every process group, and the group ids.
-- The receiver is a live manager, so the NULL guards on it have no counterpart.
pub mod Frame
pub mod Directory
pub mod Destroy
mod Tests
use embla.Prelude.{
  ℕ, ◌+◌, ◌-◌, ◌%◌, Bool, true, false, not, ◌||◌, Option, none, some, ℤ, success, failure, update,
  ◌==◌, leb, if◌then◌else◌,
}
use embla.Process.{Ptr, null, invalid_pgid}
use embla.ProcessGroup.{Groups, get_id}
use embla.ProcessGroup
use embla.Table.{find_from, close_gap}
use embla.Table.Keyed.{slot}

abbrev pub initial_capacity : ℕ
initial_capacity = 16

pub record ProcessGroupManager : Type 0 where
  pub groups : ℕ → Ptr
  pub count : ℕ
  pub capacity : ℕ
  pub next_id : ℕ

unfoldable pub create : ProcessGroupManager
create = record { groups = λ _. null; count = 0; capacity = initial_capacity; next_id = 1 }

unfoldable pub allocate_id : ProcessGroupManager → ℕ × ProcessGroupManager
allocate_id m =
    if m.next_id == invalid_pgid
    then (invalid_pgid, m)
    else (m.next_id, record m { next_id = (m.next_id + 1) % 4294967296 })

-- `block`, `members` and `garbage` are what `process_group_create` gets from its allocations.
unfoldable pub create_group :
    ProcessGroupManager
    → Groups
    → (block : Ptr) → (members : Bool) → (garbage : ℕ) → Ptr × Groups × ProcessGroupManager
unfolding allocate_id
create_group m gs block members garbage =
    if leb m.capacity m.count
    then (null, gs, m)
    else let (id, m') = allocate_id m in
      let (g, gs') = ProcessGroup.create gs block members garbage id in
      if id == invalid_pgid
      then (null, gs, m')
      else if g == null
      then (null, gs', m')
      else (g, gs', record m' { groups = update m'.groups m'.count g; count = m'.count + 1 })

unfoldable pub find_index : ProcessGroupManager → Groups → ℕ → Option ℕ
find_index m gs id = find_from m.groups (λ g. get_id gs g == id) m.count 0

unfoldable pub get : ProcessGroupManager → Groups → ℕ → Ptr
get m gs id = if id == invalid_pgid then null else slot m.groups (find_index m gs id)

-- What destroying the group in slot `index` comes to: a group with members is refused.
unfoldable pub destroy_at :
    ProcessGroupManager → Groups → Option ℕ → ℤ × Groups × ProcessGroupManager
destroy_at m gs none = (failure, gs, m)
destroy_at m gs (some index) =
    if not (ProcessGroup.member_count gs (m.groups index) == 0) then (failure, gs, m) else (
      success,
      ProcessGroup.destroy gs (m.groups index),
      record m { groups = close_gap m.groups index (m.count - 1); count = m.count - 1 },
    )

unfoldable pub destroy_group : ProcessGroupManager → Groups → ℕ → ℤ × Groups × ProcessGroupManager
destroy_group m gs id =
    if id == invalid_pgid then (failure, gs, m) else destroy_at m gs (find_index m gs id)
