-- ===== src/ProcessManager/Tests.antt =====
-- Inputs on which the theorems about the process table are applied, and small runs.
use embla.Prelude.{
  ℕ, ◌≡◌, ◌≢◌, ◌<◌, ◌⊎◌, refl, inl, inr, sym, ◌∙◌, ap, true, none, some, [], ◌∷◌, arith, update,
  failure,
}
use embla.Process.{
  null, invalid_pid, Heap, Process, ready, terminated, fresh_process, get_id, get_parent_id,
  get_state,
}
use embla.ProcessManager.{
  reparent_children, ProcessManager, create_process, destroy_process, wait_child, reap_child,
  destroy_at, find_index,
}
use embla.ProcessManager.Invariant.{IsTable}
use embla.ProcessManager.Create.{Adds, create_process-Adds}
use embla.ProcessManager.Destroy.{Removes, destroy_process-Removes}
use embla.ProcessManager.Reparent.{Adopts, reparent_children-Adopts}
use embla.Table.{contents, find_from, close_gap}

abbrev empty : Heap
empty = λ _. none

abbrev worker : Process
worker = record (fresh_process 1 0 1 (119 ∷ [])) { state = ready }

abbrev zombie : Process
zombie = record (fresh_process 2 1 1 (122 ∷ [])) { state = terminated }

abbrev heap : Heap
heap = update (update empty 64 (some worker)) 65 (some zombie)

-- Process 1 at address 64, and its dead child 2 at 65.
abbrev two : ProcessManager
two = record {
  processes = update (update (λ _. null) 0 64) 1 65;
  count = 2;
  capacity = 16;
  next_pid = 3;
  iterator_index = 1;
}

below_two : (i : ℕ) → i < 2 → (i ≡ 0) ⊎ (i ≡ 1)
below_two i lt = ground arith

abbrev id_at : ℕ → ℕ
id_at i = get_id heap (two.processes i)

one_two : get_id heap 64 ≢ get_id heap 65
unfolding get_id
one_two e = omega (arith, e)

two-IsTable : IsTable two heap
two-IsTable = record {
  fixed = refl;
  fits = omega arith;
  next_min = omega arith;
  next_max = omega arith;
  object = λ i lt. elim (below_two i lt) [
    | inl e ↦ rw e (worker, refl, omega arith, omega arith)
    | inr e ↦ rw e (zombie, refl, omega arith, omega arith)
  ];
  address = λ i lt e. ground arith;
  distinct = λ i j lt lt' e. elim (below_two j lt') [
    | inl first ↦ absurd (omega arith)
    | inr second ↦ elim (below_two i (omega arith)) [
      | inl zeroth ↦ one_two (sym (ap id_at zeroth) ∙ e ∙ ap id_at second)
      | inr same ↦ absurd (omega arith)
    ]
  ];
}

create_process-Adds_example :
    Adds two heap 66 true 1 1 (some []) (create_process two heap 66 true 1 1 (some []))
create_process-Adds_example = create_process-Adds two heap 66 true 1 1 (some []) two-IsTable refl

destroy_process-Removes_example : Removes two heap 1 (destroy_process two heap 1)
destroy_process-Removes_example = destroy_process-Removes two heap 1 two-IsTable (omega arith)

-- Destroying closes the gap.
destroy_first : contents (destroy_process two heap 1).2.processes 1 ≡ 65 ∷ []
unfolding destroy_process destroy_at find_index find_from get_id close_gap
destroy_first = refl

reap_zombie : (reap_child two heap 1).1 ≡ 2
unfolding reap_child wait_child find_from get_parent_id get_state get_id
reap_zombie = refl

reparent_children-Adopts_example :
    ((◌≢◌ {A = ℕ} 1 invalid_pid) × Adopts two heap 1 0 (reparent_children two heap true 1 0))
    ⊎ ((◌≡◌ {A = ℕ} 1 invalid_pid) × (reparent_children two heap true 1 0 ≡ (failure, heap)))
reparent_children-Adopts_example = reparent_children-Adopts two heap 1 0 two-IsTable
