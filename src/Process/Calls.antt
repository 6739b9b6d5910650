-- ===== src/Process/Calls.antt =====
-- Any sequence of the calls of process.c that change a live process.
use mathlib.Core.Option.{none-ne-some}
use embla.Prelude.{
  ap, sym, ◌≢◌, Bool, Option, none, ==_iff, ==_ne, ℕ, ◌==◌, ◌≡◌, refl, ◌∙◌, inl, inr, Bool-cases,
  some, List, [], ◌∷◌, ℤ, arith,
}
use embla.Process.{
  CString, create, destroy, Ptr, Heap, Process, ProcessState, terminated, set_parent_id,
  set_group_id, set_host_id, transition, set_exit_code, set_term_signal, set_cpu_user_seconds,
  set_cpu_system_seconds, set_max_rss_bytes, can_transition, modify, get_state,
}
use embla.Process.Machine.{
  ◌⟶◌, admit, run as dispatched, preempt, block, wake, pause_ready, pause_running, resume, end,
  ◌⟶*◌, here, then_by, can_transition-⟶,
}

pub data Call : Type 0 where
  sets_parent sets_group : ℕ → Call
  sets_host sets_exit_code sets_term_signal sets_user sets_system sets_rss : ℤ → Call
  moves : ProcessState → Call

unfoldable pub step : Heap → Ptr × Call → Heap
step h (p, sets_parent v) = (set_parent_id h p v).1
step h (p, sets_group v) = (set_group_id h p v).1
step h (p, sets_host v) = (set_host_id h p v).1
step h (p, sets_exit_code v) = (set_exit_code h p v).1
step h (p, sets_term_signal v) = (set_term_signal h p v).1
step h (p, sets_user v) = (set_cpu_user_seconds h p v).1
step h (p, sets_system v) = (set_cpu_system_seconds h p v).1
step h (p, sets_rss v) = (set_max_rss_bytes h p v).1
step h (p, moves next) = (transition h p next).1

unfoldable pub run : Heap → List (Ptr × Call) → Heap
run h [] = h
run h (c ∷ cs) = run (step h c) cs

-- What a call may do to the process at `p`: follow the diagram, and keep its identity.
abbrev pub Follows : Process → Process → Type 0
Follows old new = (old.state ⟶* new.state) × (new.id ≡ old.id) × (new.name ≡ old.name)

⟶*-trans : {s t u : ProcessState} → s ⟶* t → t ⟶* u → s ⟶* u
⟶*-trans a here = a
⟶*-trans a (then_by b e) = then_by (⟶*-trans a b) e

Follows-refl : (a : Process) → Follows a a
Follows-refl a = (here, refl, refl)

abbrev Stays : Heap → Ptr → Process → Type 0
Stays h p pr = (new : Process) × (h p ≡ some new) × Follows pr new

modify-Stays :
    (h : Heap) (p q : Ptr) (pr : Process) (f : Process → Process)
    → h p ≡ some pr
    → Follows pr (f pr)
    → Stays (modify h q f).1 p pr
unfolding modify
modify-Stays h p q pr f e keeps = elim (Bool-cases (q == p)) [
  | inl same ↦ (f pr, ground arith, keeps)
  | inr other ↦ (pr, ground arith, Follows-refl pr)
]

transition-Stays :
    (h : Heap) (p q : Ptr) (pr : Process) (next : ProcessState)
    → h p ≡ some pr
    → Stays (transition h q next).1 p pr
unfolding transition
transition-Stays h p q pr next e = elim (Bool-cases (q == p)) [
  | inl same ↦ elim (Bool-cases (can_transition pr.state next)) [
    | inl okay ↦ (
      record pr { state = next },
      ground arith,
      (then_by here (can_transition-⟶ pr.state next okay), refl, refl),
    )
    | inr refused ↦ (pr, ground arith, Follows-refl pr)
  ]
  | inr other ↦ (pr, ground arith, Follows-refl pr)
]

step-Stays :
    (h : Heap) (c : Ptr × Call) (p : Ptr) (pr : Process) → h p ≡ some pr → Stays (step h c) p pr
unfolding step set_parent_id set_group_id set_host_id set_exit_code set_term_signal
    set_cpu_user_seconds set_cpu_system_seconds set_max_rss_bytes
step-Stays h (q, sets_parent v) p pr e = modify-Stays h p q pr _ e (Follows-refl pr)
step-Stays h (q, sets_group v) p pr e = modify-Stays h p q pr _ e (Follows-refl pr)
step-Stays h (q, sets_host v) p pr e = modify-Stays h p q pr _ e (Follows-refl pr)
step-Stays h (q, sets_exit_code v) p pr e = modify-Stays h p q pr _ e (Follows-refl pr)
step-Stays h (q, sets_term_signal v) p pr e = modify-Stays h p q pr _ e (Follows-refl pr)
step-Stays h (q, sets_user v) p pr e = modify-Stays h p q pr _ e (Follows-refl pr)
step-Stays h (q, sets_system v) p pr e = modify-Stays h p q pr _ e (Follows-refl pr)
step-Stays h (q, sets_rss v) p pr e = modify-Stays h p q pr _ e (Follows-refl pr)
step-Stays h (q, moves next) p pr e = transition-Stays h p q pr next e

-- Whatever setters and transitions are called, on this process or on others, it stays on the heap
-- with its identity, and its state moves along the diagram only.
pub run-Follows :
    (h : Heap) (cs : List (Ptr × Call)) (p : Ptr) (pr : Process)
    → h p ≡ some pr
    → (new : Process) × (run h cs p ≡ some new) × Follows pr new
unfolding run
run-Follows h [] p pr e = (pr, e, Follows-refl pr)
run-Follows h (c ∷ cs) p pr e =
    let (mid, now, (path, id, name)) = step-Stays h c p pr e in
    let (new, later, (path', id', name')) = run-Follows (step h c) cs p mid now in
    (new, later, (⟶*-trans path path', id' ∙ id, name' ∙ name))

-- A call of process.c that changes the heap: one on a live process, a creation with what `malloc`
-- gives, or a destruction.
pub data Event : Type 0 where
  calls : Ptr → Call → Event
  creates : (memory : Ptr) (copied : Bool) (id parent group : ℕ) (name : Option CString) → Event
  destroys : Ptr → Event

abbrev pub happen : Heap → Event → Heap
happen h (calls p c) = step h (p, c)
happen h (creates memory copied id parent group name) =
    (create h memory copied id parent group name).1
happen h (destroys p) = destroy h p

abbrev pub happen_all : Heap → List Event → Heap
happen_all h [] = h
happen_all h (event ∷ events) = happen_all (happen h event) events

-- `malloc` gives a block that is not in use, and the process at `p` is not destroyed.
abbrev pub IsSpared : Ptr → Heap → List Event → Type 0
IsSpared p h [] = Unit
IsSpared p h (calls q c ∷ events) = IsSpared p (happen h (calls q c)) events
IsSpared p h (creates memory copied id parent group name ∷ events) =
    (h memory ≡ none) × IsSpared p (happen h (creates memory copied id parent group name)) events
IsSpared p h (destroys q ∷ events) = (q ≢ p) × IsSpared p (happen h (destroys q)) events

create-Stays :
    (h : Heap) (memory : Ptr) (copied : Bool) (id parent group : ℕ) (name : Option CString)
    (p : Ptr) (pr : Process)
    → h p ≡ some pr
    → h memory ≡ none
    → (create h memory copied id parent group name).1 p ≡ some pr
unfolding create
create-Stays h memory copied id parent group none p pr e fresh = e
create-Stays h memory copied id parent group (some name) p pr e fresh =
    elim (Bool-cases (memory == p)) [
      | inl same ↦ absurd (none-ne-some pr (sym fresh ∙ ap h ((==_iff memory p).0 same) ∙ e))
      | inr off ↦ ground (arith, off, e)
    ]

destroy-Stays :
    (h : Heap) (q p : Ptr) (pr : Process) → h p ≡ some pr → q ≢ p → destroy h q p ≡ some pr
unfolding destroy
destroy-Stays h q p pr e other = let off = ==_ne q p other in ground (arith, off, e)

-- Whatever calls of process.c are made, creations and destructions of other processes included, a
-- process that is not destroyed stays on the heap with its identity, and its state moves along the
-- diagram only, if `malloc` gives blocks that are not in use.
pub happen_all-Follows :
    (h : Heap) (events : List Event) (p : Ptr) (pr : Process)
    → h p ≡ some pr
    → IsSpared p h events
    → (new : Process) × (happen_all h events p ≡ some new) × Follows pr new
happen_all-Follows h [] p pr e spared = (pr, e, Follows-refl pr)
happen_all-Follows h (calls q c ∷ events) p pr e spared =
    let (mid, now, (path, id, name)) = step-Stays h (q, c) p pr e in
    let (new, later, (path', id', name')) =
      happen_all-Follows (step h (q, c)) events p mid now spared in
    (new, later, (⟶*-trans path path', id' ∙ id, name' ∙ name))
happen_all-Follows h (creates memory copied id parent group name ∷ events) p pr e (fresh, spared) =
    happen_all-Follows _ events p pr
      (create-Stays h memory copied id parent group name p pr e fresh) spared
happen_all-Follows h (destroys q ∷ events) p pr e (other, spared) =
    happen_all-Follows _ events p pr (destroy-Stays h q p pr e other) spared

⟶*-from_terminated : {s t : ProcessState} → s ⟶* t → s ≡ terminated → t ≡ terminated
⟶*-from_terminated here e = e
⟶*-from_terminated (then_by path edge) e = absurd (stuck edge (⟶*-from_terminated path e))
  where
    stuck : {s t : ProcessState} → s ⟶ t → s ≡ terminated → ⊥
    stuck admit h = cc
    stuck dispatched h = cc
    stuck preempt h = cc
    stuck block h = cc
    stuck wake h = cc
    stuck pause_ready h = cc
    stuck pause_running h = cc
    stuck resume h = cc
    stuck (end a b) h = b h

-- A process that has terminated stays so under every later sequence of calls.
terminated_absorbs :
    (h : Heap) (cs : List (Ptr × Call)) (p : Ptr) (pr : Process)
    → h p ≡ some pr
    → pr.state ≡ terminated
    → get_state (run h cs) p ≡ terminated
unfolding get_state
terminated_absorbs h cs p pr e t =
    let (new, later, (path, id, name)) = run-Follows h cs p pr e in
    rw (later, get_state) (⟶*-from_terminated path t)
