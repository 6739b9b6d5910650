-- ===== src/ProcessGroup.antt =====
-- src/process_group.c: the members of a process group. A `ProcessGroup *` is an address on a heap
-- of its own; `null` is mapped to `none`. `max_members` is not set by `process_group_create`: its
-- first value is what `malloc` happens to give, an argument here.
pub mod Members
mod Tests
use embla.Prelude.{
  ℕ, ◌+◌, ◌-◌, Bool, true, false, not, ◌||◌, Option, none, some, ℤ, pos, success, failure, update,
  ◌==◌, leb, if◌then◌else◌,
}
use embla.Process.{Ptr, null, Heap, get_group_id, invalid_pgid}
use embla.Table.{find_from, close_gap}

abbrev pub initial_capacity : ℕ
initial_capacity = 16

abbrev pub invalid_host_pgid : ℤ
invalid_host_pgid = pos 0

pub record ProcessGroup : Type 0 where
  pub id : ℕ
  pub host_id : ℤ
  pub processes : ℕ → Ptr
  pub count : ℕ
  pub capacity : ℕ
  pub has_max_members : Bool
  pub max_members : ℕ

abbrev pub Groups : Type 0
Groups = ℕ → Option ProcessGroup

abbrev pub fresh_group : ℕ → ℕ → ProcessGroup
fresh_group id garbage = record {
  id = id;
  host_id = invalid_host_pgid;
  processes = λ _. null;
  count = 0;
  capacity = initial_capacity;
  has_max_members = false;
  max_members = garbage;
}

-- `block` is what `malloc` gives, `members` whether `calloc` gives the member array.
unfoldable pub create : Groups → (block : Ptr) → (members : Bool) → (garbage : ℕ) → ℕ → Ptr × Groups
create gs block members garbage id =
    if id == invalid_pgid || block == null
    then (null, gs)
    else if members
    then (block, update gs block (some (fresh_group id garbage)))
    else (null, gs)

unfoldable pub destroy : Groups → Ptr → Groups
destroy gs g = if g == null then gs else update gs g none

unfoldable pub get_id : Groups → Ptr → ℕ
get_id gs g = elim (gs g) [ none ↦ invalid_pgid | some grp ↦ grp.id ]

unfoldable pub member_count : Groups → Ptr → ℕ
member_count gs g = elim (gs g) [ none ↦ 0 | some grp ↦ grp.count ]

unfoldable pub find_index : ProcessGroup → Ptr → Option ℕ
find_index grp p = find_from grp.processes (λ q. q == p) grp.count 0

abbrev pub is_found : Option ℕ → Bool
is_found none = false
is_found (some i) = true

unfoldable pub add : Groups → Heap → Ptr → Ptr → ℤ × Groups
add gs h g p = elim (gs g) [
  | none ↦ (failure, gs)
  | some grp ↦
      if p == null
      then (failure, gs)
      else if leb grp.capacity grp.count
      then (failure, gs)
      else if not (get_group_id h p == grp.id)
      then (failure, gs)
      else if is_found (find_index grp p)
      then (failure, gs)
      else (
        success,
        update gs g (
            some
              (record grp { processes = update grp.processes grp.count p; count = grp.count + 1 })),
      )
]

-- What removing the member in slot `index` comes to.
unfoldable pub remove_at : Groups → Ptr → ProcessGroup → Option ℕ → ℤ × Groups
remove_at gs g grp none = (failure, gs)
remove_at gs g grp (some index) = (
  success,
  update gs g (
      some (record grp {
        processes = close_gap grp.processes index (grp.count - 1);
        count = grp.count - 1;
      })),
)

unfoldable pub remove : Groups → Ptr → Ptr → ℤ × Groups
remove gs g p = elim (gs g) [
  | none ↦ (failure, gs)
  | some grp ↦ if p == null then (failure, gs) else remove_at gs g grp (find_index grp p)
]

unfoldable pub set_host_id : Groups → Ptr → ℤ → ℤ × Groups
set_host_id gs g host = elim (gs g) [
  | none ↦ (failure, gs)
  | some grp ↦ (success, update gs g (some (record grp { host_id = host })))
]

unfoldable pub get_host_id : Groups → Ptr → ℤ
get_host_id gs g = elim (gs g) [ none ↦ invalid_host_pgid | some grp ↦ grp.host_id ]

unfoldable pub set_max_members : Groups → Ptr → ℕ → ℤ × Groups
set_max_members gs g limit = elim (gs g) [
  | none ↦ (failure, gs)
  | some grp ↦
      (success, update gs g (some (record grp { has_max_members = true; max_members = limit })))
]

unfoldable pub has_max_members : Groups → Ptr → Bool
has_max_members gs g = elim (gs g) [ none ↦ false | some grp ↦ grp.has_max_members ]

unfoldable pub get_max_members : Groups → Ptr → ℕ
get_max_members gs g = elim (gs g) [ none ↦ 0 | some grp ↦ grp.max_members ]
