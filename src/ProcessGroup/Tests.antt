-- ===== src/ProcessGroup/Tests.antt =====
-- Inputs on which the theorems about the members of a group are applied, and small runs.
use embla.Prelude.{◌≡◌, refl, none, some, [], arith, update, failure}
use embla.Process.{Heap, fresh_process, get_group_id}
use embla.ProcessGroup.{ProcessGroup, Groups, add, remove, fresh_group, find_index}
use embla.ProcessGroup.Members.{IsGroup, Joins, add-Joins, Leaves, remove-Leaves}
use embla.Table.{find_from}

abbrev heap : Heap
heap =
    update (update (λ _. none) 64 (some (fresh_process 1 0 7 []))) 65
      (some (fresh_process 2 1 7 []))

abbrev single : ProcessGroup
single = record (fresh_group 7 0) { processes = update (λ _. 0) 0 64; count = 1 }

abbrev groups : Groups
groups = update (λ _. none) 96 (some single)

single-IsGroup : IsGroup single
single-IsGroup = record {
  fixed = refl;
  fits = omega arith;
  distinct = λ i j lt lt'. absurd (omega arith);
}

add-Joins_example : Joins groups heap 96 65 single (add groups heap 96 65)
add-Joins_example = add-Joins groups heap 96 65 single refl single-IsGroup

remove-Leaves_example : Leaves groups 96 64 single (remove groups 96 64)
remove-Leaves_example = remove-Leaves groups 96 64 single refl single-IsGroup (omega arith)

-- A member is not admitted twice.
add_twice : add groups heap 96 64 ≡ (failure, groups)
unfolding add find_index find_from get_group_id
add_twice = refl
