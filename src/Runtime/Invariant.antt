-- ===== src/Runtime/Invariant.antt =====
-- The invariant of the runtime: process table, group table and ready queue are well formed; and the
-- changes of the two heaps that keep it.
use embla.Prelude.{
  ℕ, zero, suc, ◌+◌, ◌≡◌, refl, ◌∙◌, Bool, true, false, List, [], ◌∷◌, ℤ, ◌==◌, ◌||◌, ◌&&◌, not,
  eqb_ℤ, success, if-both, inl, inr, Option-cases, arith,
}
use embla.Process.{
  Ptr, null, Heap, Process, ProcessState, modify, can_transition, transition, set_parent_id,
  set_host_id, set_exit_code, set_term_signal, set_cpu_user_seconds, set_cpu_system_seconds,
  set_max_rss_bytes,
}
use embla.Process.Calls.{
  Call, run, step, moves, sets_group, sets_parent, sets_host, sets_exit_code, sets_term_signal,
  sets_user, sets_system, sets_rss,
}
use embla.Executor.{Usage, apply_rusage}
use embla.ProcessManager.{
  ProcessManager, ChildIterator, child_iterator_create, child_iterator_next, reparent_loop,
  reparent_children,
}
use embla.ProcessManager.Invariant.{IsTable, create-IsTable}
use embla.ProcessManager.Frame.{IsTable-frame}
use embla.ProcessManager.Frame.{Alike, Alike-KeepsIds, write-Alike}
use embla.ProcessGroup.{Groups}
use embla.ProcessGroupManager.Directory.{IsGroups, create-IsGroups}
use embla.Scheduler.Queue.{IsRing, create-IsRing}
use embla.Runtime
use embla.Runtime.{Embla}

-- Process table, group table and ready queue are well formed.
pub record IsRuntime (e : Embla) : Type 0 where
  pub table : IsTable e.process_manager e.heap
  pub directory : IsGroups e.process_group_manager e.groups
  pub ring : IsRing e.scheduler

pub create-IsRuntime : (heap : Heap) (groups : Groups) → IsRuntime (Runtime.create heap groups)
unfolding Runtime.create
create-IsRuntime heap groups = record {
  table = create-IsTable heap;
  directory = create-IsGroups groups;
  ring = create-IsRing.0;
}

pub heap-IsRuntime :
    (e : Embla) (h : Heap) → Alike e.heap h → IsRuntime e → IsRuntime (record e { heap = h })
heap-IsRuntime e h keeps v = record {
  table = IsTable-frame e.process_manager e.heap h (Alike-KeepsIds e.heap h keeps) v.table;
  directory = v.directory;
  ring = v.ring;
}

-- Any calls on processes but those that set their group.
abbrev pub keeps_group : Call → Bool
keeps_group (sets_group _) = false
keeps_group _ = true

abbrev pub keep_groups : List (Ptr × Call) → Bool
keep_groups [] = true
keep_groups ((p, c) ∷ calls) = keeps_group c && keep_groups calls

modify-Alike :
    (h : Heap) (p : Ptr) (f : Process → Process)
    → ((pr : Process) → (f pr).id ≡ pr.id)
    → ((pr : Process) → (f pr).group_id ≡ pr.group_id)
    → Alike h (modify h p f).1
unfolding modify
modify-Alike h p f same same_group = elim (Option-cases (h p)) [
  | inl gone ↦ rw (gone, modify) (λ q. refl)
  | inr (pr, there) ↦ rw (there, modify) (write-Alike h p pr (f pr) there (same pr) (same_group pr))
]

pub transition-Alike : (h : Heap) (p : Ptr) (next : ProcessState) → Alike h (transition h p next).1
unfolding transition
transition-Alike h p next = elim (Option-cases (h p)) [
  | inl gone ↦ rw (gone, transition) (λ q. refl)
  | inr (pr, there) ↦
      rw (there, transition)
        (if-both (λ (r : ℤ × Heap). Alike h r.1) (can_transition pr.state next)
          (write-Alike h p pr (record pr { state = next }) there refl refl) (λ q. refl))
]

step-Alike : (h : Heap) (p : Ptr) (c : Call) → keeps_group c ≡ true → Alike h (step h (p, c))
unfolding step set_parent_id set_host_id set_exit_code set_term_signal set_cpu_user_seconds
    set_cpu_system_seconds set_max_rss_bytes
step-Alike h p (sets_group v) keeps = absurd (ground arith)
step-Alike h p (sets_parent v) keeps = modify-Alike h p _ (λ pr. refl) (λ pr. refl)
step-Alike h p (sets_host v) keeps = modify-Alike h p _ (λ pr. refl) (λ pr. refl)
step-Alike h p (sets_exit_code v) keeps = modify-Alike h p _ (λ pr. refl) (λ pr. refl)
step-Alike h p (sets_term_signal v) keeps = modify-Alike h p _ (λ pr. refl) (λ pr. refl)
step-Alike h p (sets_user v) keeps = modify-Alike h p _ (λ pr. refl) (λ pr. refl)
step-Alike h p (sets_system v) keeps = modify-Alike h p _ (λ pr. refl) (λ pr. refl)
step-Alike h p (sets_rss v) keeps = modify-Alike h p _ (λ pr. refl) (λ pr. refl)
step-Alike h p (moves next) keeps = transition-Alike h p next

pub run-Alike :
    (h : Heap) (calls : List (Ptr × Call)) → keep_groups calls ≡ true → Alike h (run h calls)
unfolding run
run-Alike h [] keeps = λ q. refl
run-Alike h ((p, c) ∷ calls) keeps =
    λ q. run-Alike (step h (p, c)) calls (ground arith) q ∙ step-Alike h p c (ground arith) q

pub set_host_id-Alike : (h : Heap) (p : Ptr) (host : ℤ) → Alike h (set_host_id h p host).1
unfolding run step
set_host_id-Alike h p host = run-Alike h ((p, sets_host host) ∷ []) refl

pub set_exit_code-Alike : (h : Heap) (p : Ptr) (code : ℤ) → Alike h (set_exit_code h p code).1
unfolding run step
set_exit_code-Alike h p code = run-Alike h ((p, sets_exit_code code) ∷ []) refl

pub set_term_signal-Alike :
    (h : Heap) (p : Ptr) (number : ℤ) → Alike h (set_term_signal h p number).1
unfolding run step
set_term_signal-Alike h p number = run-Alike h ((p, sets_term_signal number) ∷ []) refl

pub same-Alike : (h : Heap) → Alike h h
same-Alike h q = refl

pub then-Alike : (h h' h'' : Heap) → Alike h h' → Alike h' h'' → Alike h h''
then-Alike h h' h'' first second q = second q ∙ first q

pub apply_rusage-Alike : (h : Heap) (p : Ptr) (usage : Usage) → Alike h (apply_rusage h p usage).1
unfolding apply_rusage run step
apply_rusage-Alike h p usage =
    let keeps = λ (r : ℤ × Heap). Alike h r.1 in
    let user : Ptr × Call = (p, sets_user usage.user) in
    let system : Ptr × Call = (p, sets_system usage.system) in
    let rss : Ptr × Call = (p, sets_rss usage.max_rss) in
    let h₁ = run h (user ∷ []) in
    let h₂ = run h (user ∷ system ∷ []) in
    if-both keeps (p == null || not (eqb_ℤ (set_cpu_user_seconds h p usage.user).0 success))
      (same-Alike h)
      (if-both keeps (not (eqb_ℤ (set_cpu_system_seconds h₁ p usage.system).0 success))
        (run-Alike h (user ∷ []) refl)
        (if-both keeps (not (eqb_ℤ (set_max_rss_bytes h₂ p usage.max_rss).0 success))
          (run-Alike h (user ∷ system ∷ []) refl) (run-Alike h (user ∷ system ∷ rss ∷ []) refl)))

reparent_loop-Alike :
    (m : ProcessManager) (parent : ℕ) (fuel : ℕ) (h : Heap) (it : ChildIterator)
    → Alike h (reparent_loop m parent fuel h it).1
unfolding reparent_loop run step
reparent_loop-Alike m parent zero h it = same-Alike h
reparent_loop-Alike m parent (suc fuel) h it =
    let keeps = λ (r : ℤ × Heap). Alike h r.1 in
    let (child, it') = child_iterator_next m h it in
    let once = run-Alike h ((child, sets_parent parent) ∷ []) refl in
    if-both keeps (child == null) (same-Alike h) (
      if-both keeps (eqb_ℤ (set_parent_id h child parent).0 success)
        (then-Alike h (run h ((child, sets_parent parent) ∷ [])) _ once
          (reparent_loop-Alike m parent fuel (run h ((child, sets_parent parent) ∷ [])) it'))
        once)

pub reparent_children-Alike :
    (m : ProcessManager) (h : Heap) (allocated : Bool) (parent parent' : ℕ)
    → Alike h (reparent_children m h allocated parent parent').1
unfolding reparent_children
reparent_children-Alike m h allocated parent parent' =
    elim (Option-cases (child_iterator_create allocated parent)) [
      | inl failed ↦ rw (failed, reparent_children) (same-Alike h)
      | inr (it, made) ↦
          rw (made, reparent_children) (reparent_loop-Alike m parent' (m.count + 1) h it)
    ]
