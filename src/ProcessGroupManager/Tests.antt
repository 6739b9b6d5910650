-- ===== src/ProcessGroupManager/Tests.antt =====
-- Inputs on which the theorems about the table of groups are applied, and small runs.
use embla.Prelude.{ℕ, ◌≡◌, ◌<◌, refl, true, none, some, arith, update, failure}
use embla.ProcessGroup.{ProcessGroup, Groups, fresh_group, get_id, member_count}
use embla.ProcessGroupManager.{
  ProcessGroupManager, create_group, destroy_group, destroy_at, find_index,
}
use embla.ProcessGroupManager.Directory.{IsGroups, Opens, create_group-Opens}
use embla.ProcessGroupManager.Destroy.{Closes, destroy_group-Closes}
use embla.Table.{find_from}

abbrev solo : ProcessGroup
solo = fresh_group 1 0

abbrev groups : Groups
groups = update (λ _. none) 96 (some solo)

-- Group 1, at address 96.
abbrev one : ProcessGroupManager
one = record { groups = update (λ _. 0) 0 96; count = 1; capacity = 16; next_id = 2 }

below_one : (i : ℕ) → i < 1 → i ≡ 0
below_one i lt = omega arith

one-IsGroups : IsGroups one groups
one-IsGroups = record {
  fixed = refl;
  fits = omega arith;
  next_min = omega arith;
  next_max = omega arith;
  object = λ i lt. rw (below_one i lt) (solo, refl, omega arith, omega arith);
  address = λ i lt e. ground arith;
  distinct = λ i j lt lt'. absurd (omega arith);
}

create_group-Opens_example : Opens one groups 97 true 5 (create_group one groups 97 true 5)
create_group-Opens_example = create_group-Opens one groups 97 true 5 one-IsGroups refl

destroy_group-Closes_example : Closes one groups 1 (destroy_group one groups 1)
destroy_group-Closes_example = destroy_group-Closes one groups 1 one-IsGroups (omega arith)

-- A group with a member stays.
abbrev busy : Groups
busy = update groups 96 (some (record solo { processes = update (λ _. 0) 0 64; count = 1 }))

destroy_busy : destroy_group one busy 1 ≡ (failure, busy, one)
unfolding destroy_group destroy_at find_index find_from get_id member_count
destroy_busy = refl
