-- ===== src/ProcessManager/Create.antt =====
-- `create_process`: what it returns on every branch, and the table as a map from ids.
use native.Mathlib.Numerals.{add-one}
use embla.Prelude.{
  ap₂, ℕ, ◌+◌, ◌%◌, ◌<◌, ◌≤◌, ◌≡◌, refl, sym, ap, ◌∙◌, ◌≢◌, ◌⊎◌, inl, inr, Bool, true, false,
  Option, none, some, arith, ◌==◌, ==_iff, ==_ne, Bool-cases, last_or_before, update, update_self,
  update_ne, leb, ltb, if◌then◌else◌, ◌∷◌, subst,
}
use embla.Process.{Ptr, null, Heap, Process, get_id, CString, invalid_pid, fresh_process}
use embla.Process
use embla.Table.{contents}
use embla.Table.Keyed
use embla.Table.Laws.{contents-push}
use embla.ProcessManager.{ProcessManager, create_process, get, find_index}
use embla.ProcessManager.Invariant.{IsTable, get_id-ext}

module _ (m : ProcessManager) (h : Heap) (block : Ptr) (parent group : ℕ) (name : CString) where
  abbrev pub created_heap : Heap
  created_heap = update h block (some (fresh_process m.next_pid parent group name))

  abbrev pub created_table : ProcessManager
  created_table = record m {
    processes = update m.processes m.count block;
    count = m.count + 1;
    next_pid = (m.next_pid + 1) % 4294967296;
  }

  create_process-okay :
      IsTable m h
      → m.count < 16
      → m.next_pid < 4294967295
      → block ≢ null
      → create_process m h block true parent group (some name)
        ≡ (block, created_heap, created_table)
  unfolding create_process Process.create
  create_process-okay v room ids live =
      let a : leb m.capacity m.count ≡ false = ground arith in
      let b : (m.next_pid == 4294967295) ≡ false = ==_ne _ _ (omega arith) in
      let c : (block == null) ≡ false = ==_ne _ _ live in rw (a, b, b, c, c)

  module _ (v : IsTable m h) (room : m.count < 16) (ids : m.next_pid < 4294967295)
      (live : block ≢ null) (fresh : h block ≡ none) where
    frame-slot : (k : ℕ) → k < m.count → created_table.processes k ≡ m.processes k
    frame-slot k lt = update_ne m.processes m.count k block (omega arith)

    -- A fresh block is no process of the table.
    other_block : (k : ℕ) → k < m.count → block ≢ m.processes k
    other_block k lt e = let (pr, object, _, _) = v.object k lt in cc (object, fresh, ap h e)

    frame-object :
        (k : ℕ) → k < m.count → created_heap (created_table.processes k) ≡ h (m.processes k)
    frame-object k lt =
        ap created_heap (frame-slot k lt) ∙ update_ne h block (m.processes k) _ (other_block k lt)

    frame-id :
        (k : ℕ)
        → k < m.count
        → get_id created_heap (created_table.processes k) ≡ get_id h (m.processes k)
    frame-id k lt = get_id-ext created_heap h _ _ (frame-object k lt)

    new-slot : created_table.processes m.count ≡ block
    new-slot = update_self m.processes m.count block

    new-object :
        created_heap (created_table.processes m.count)
        ≡ some (fresh_process m.next_pid parent group name)
    new-object = ap created_heap new-slot ∙ update_self h block _

    new-id : get_id created_heap (created_table.processes m.count) ≡ m.next_pid
    unfolding get_id
    new-id = rw (new-object, get_id)

    old-id-lt : (k : ℕ) → k < m.count → get_id h (m.processes k) < m.next_pid
    unfolding get_id
    old-id-lt k lt = let (pr, object, _, below) = v.object k lt in rw (object, get_id) below

    block-id : get_id created_heap block ≡ m.next_pid
    block-id = sym (ap (get_id created_heap) new-slot) ∙ new-id

    old_frame :
        (k : ℕ) → k < m.count → get_id created_heap (m.processes k) ≡ get_id h (m.processes k)
    old_frame k lt = sym (ap (get_id created_heap) (frame-slot k lt)) ∙ frame-id k lt

    new_key : (k : ℕ) → k < m.count → get_id h (m.processes k) ≢ get_id created_heap block
    new_key k lt e = omega (arith, old-id-lt k lt, e, block-id)

    pub created-IsTable : IsTable created_table created_heap
    created-IsTable = record {
      fixed = v.fixed;
      fits = omega arith;
      next_min = omega (arith, v.next_min);
      next_max = omega (arith, v.next_min);
      object = λ i lt. elim (last_or_before i m.count lt) [
        | inl last ↦ (
          fresh_process m.next_pid parent group name,
          ap (λ k. created_heap (created_table.processes k)) last ∙ new-object,
          v.next_min,
          omega arith,
        )
        | inr old ↦
            let (pr, object, low, high) = v.object i old in
            (pr, frame-object i old ∙ object, low, omega arith)
      ];
      address = λ i lt e. elim (last_or_before i m.count lt) [
        | inl last ↦ live (sym new-slot ∙ ap created_table.processes (sym last) ∙ e)
        | inr old ↦ v.address i old (sym (frame-slot i old) ∙ e)
      ];
      distinct =
          Keyed.Distinct-push ◌==◌ ==_iff m.processes (get_id h) (get_id created_heap) m.count block
            v.distinct old_frame new_key;
    }

    pub get-created :
        (id : ℕ)
        → get created_table created_heap id ≡ (if id == m.next_pid then block else get m h id)
    unfolding get find_index
    get-created id =
        Keyed.lookup-push ◌==◌ ==_iff m.processes (get_id h) (get_id created_heap) m.count block
          v.distinct old_frame new_key id
        ∙ ap (λ j. if id == j then block else get m h id) block-id

-- The process table is as it was, but for an id that may have been used up.
pub record Unchanged (m m' : ProcessManager) : Type 0 where
  pub processes : m'.processes ≡ m.processes
  pub count : m'.count ≡ m.count
  pub capacity : m'.capacity ≡ m.capacity
  pub next_low : m.next_pid ≤ m'.next_pid
  pub next_high : m'.next_pid ≤ 4294967295

module _ (m : ProcessManager) (h : Heap) (block : Ptr) (parent group : ℕ) where
  -- The conditions under which a process is made.
  pub record Admitted (copied : Bool) (name : Option CString) (bytes : CString) : Type 0 where
    pub named : name ≡ some bytes
    pub copied_name : copied ≡ true
    pub room : m.count < 16
    pub ids_left : m.next_pid < 4294967295
    pub allocated : block ≢ null

  -- The conditions under which none is.
  abbrev pub IsRefused : (copied : Bool) → Option CString → Type 0
  IsRefused copied name =
      (name ≡ none) ⊎ (copied ≡ false) ⊎ (m.count ≡ 16) ⊎ (m.next_pid ≡ 4294967295) ⊎ (block ≡ null)

  pub create_process-cases :
      (copied : Bool) (name : Option CString)
      → IsTable m h
      → ((bytes : CString) × Admitted copied name bytes
          × (create_process m h block copied parent group name ≡ (
            block,
            created_heap m h block parent group bytes,
            created_table m h block parent group bytes,
          )))
        ⊎ (((create_process m h block copied parent group name).0 ≡ null)
            × ((create_process m h block copied parent group name).1 ≡ h)
            × Unchanged m (create_process m h block copied parent group name).2
            × IsRefused copied name)
  unfolding create_process Process.create
  create_process-cases copied none v = inr (refl, refl, ground arith, inl refl)
  create_process-cases false (some bytes) v =
      inr (ground arith, ground arith, ground arith, inr (inl refl))
  create_process-cases true (some bytes) v = elim (Bool-cases (ltb m.count 16)) [
    | inl room ↦ elim (Bool-cases (ltb m.next_pid 4294967295)) [
      | inl ids ↦ elim (Bool-cases (block == null)) [
        | inl gone ↦
            inr (ground arith, ground arith, ground arith, inr (inr (inr (inr (ground arith)))))
        | inr live ↦ inl (
          bytes,
          ground arith,
          create_process-okay m h block parent group bytes v (ground arith) (ground arith)
              (ground arith),
        )
      ]
      | inr out ↦ inr (
        ground arith,
        ground arith,
        ground arith,
        inr (inr (inr (inl (ground (arith, v.next_max))))),
      )
    ]
    | inr full ↦
        inr (ground arith, ground arith, ground arith, inr (inr (inl (ground (arith, v.fits)))))
  ]

pub Unchanged-IsTable :
    (m m' : ProcessManager) (h : Heap) → IsTable m h → Unchanged m m' → IsTable m' h
Unchanged-IsTable m m' h v u = record {
  fixed = u.capacity ∙ v.fixed;
  fits = omega (arith, v.fits, u.count);
  next_min = omega (arith, v.next_min, u.next_low);
  next_max = u.next_high;
  object = λ i lt.
      let (pr, object, low, high) = v.object i (omega (arith, u.count)) in
      (pr, ap (λ (f : ℕ → Ptr). h (f i)) u.processes ∙ object, low, omega (arith, u.next_low));
  address = λ i lt e.
      v.address i (omega (arith, u.count)) (ap (λ (f : ℕ → Ptr). f i) (sym u.processes) ∙ e);
  distinct = λ i j lt lt' e. v.distinct i j lt (omega (arith, u.count)) (
      ap (λ (f : ℕ → Ptr). get_id h (f i)) (sym u.processes)
      ∙ e
      ∙ ap (λ (f : ℕ → Ptr). get_id h (f j)) u.processes);
}

pub Unchanged-get :
    (m m' : ProcessManager) (h : Heap) (id : ℕ) → Unchanged m m' → get m' h id ≡ get m h id
unfolding get find_index
Unchanged-get m m' h id u =
    ap₂ (λ (slots : ℕ → Ptr) (n : ℕ). Keyed.lookup ◌==◌ ==_iff slots (get_id h) n id) u.processes
      u.count

Unchanged-contents :
    (m m' : ProcessManager)
    → Unchanged m m'
    → contents m'.processes m'.count ≡ contents m.processes m.count
Unchanged-contents m m' u = ap₂ contents u.processes u.count

-- Whatever the allocations come to, the table stays well formed, if `malloc` gives no block that
-- is in use.
pub create_process-IsTable :
    (m : ProcessManager) (h : Heap) (block : Ptr) (copied : Bool) (parent group : ℕ)
    (name : Option CString)
    → IsTable m h
    → h block ≡ none
    → let (p, h', m') = create_process m h block copied parent group name in IsTable m' h'
create_process-IsTable m h block copied parent group name v fresh =
    elim (create_process-cases m h block parent group copied name v) [
      | inl (bytes, a, e) ↦
          subst (λ (r : Ptr × Heap × ProcessManager). IsTable r.2 r.1) (sym e)
            (created-IsTable m h block parent group bytes v a.room a.ids_left a.allocated fresh)
      | inr (_, same, u, _) ↦
          subst (λ k. IsTable (create_process m h block copied parent group name).2 k) (sym same)
            (Unchanged-IsTable m _ h v u)
    ]

-- A result of `create_process`. If it is a process, that is new in the table under the next id,
-- its fields are those of a fresh process, and every other id leads where it led. If it is NULL,
-- the heap and the entries of the table are as they were, and there was no name, no memory, no slot
-- or no id left.
abbrev pub AddsOrNot :
    ProcessManager
    → Heap
    → Ptr
    → (copied : Bool) → (parent group : ℕ) → Option CString
    → Ptr × Heap × ProcessManager
    → Type 0
AddsOrNot m h block copied parent group name (p, h', m') =
    ((p ≢ null)
      × ((bytes : CString) × (name ≡ some bytes)
          × (h' ≡ update h p (some (fresh_process m.next_pid parent group bytes))))
      × (contents m'.processes m'.count ≡ p ∷ contents m.processes m.count)
      × ((id : ℕ) → get m' h' id ≡ (if id == m.next_pid then p else get m h id)))
    ⊎ ((p ≡ null)
        × (h' ≡ h)
        × (contents m'.processes m'.count ≡ contents m.processes m.count)
        × IsRefused m h block parent group copied name)

-- The same, and the table is well formed behind it.
abbrev pub Adds :
    ProcessManager
    → Heap
    → Ptr
    → (copied : Bool) → (parent group : ℕ) → Option CString
    → Ptr × Heap × ProcessManager
    → Type 0
Adds m h block copied parent group name (p, h', m') =
    IsTable m' h' × AddsOrNot m h block copied parent group name (p, h', m')

-- On a well-formed table, and with a block from `malloc` that is not in use, `create_process`
-- adds a fresh process under the next id and disturbs no other; or it returns NULL and leaves the
-- heap and the entries alone, which it does only without a name, memory, a slot or an id. The table
-- stays well formed.
pub create_process-Adds :
    (m : ProcessManager) (h : Heap) (block : Ptr) (copied : Bool) (parent group : ℕ)
    (name : Option CString)
    → IsTable m h
    → h block ≡ none
    → Adds m h block copied parent group name (create_process m h block copied parent group name)
create_process-Adds m h block copied parent group name v fresh = (
  create_process-IsTable m h block copied parent group name v fresh,
  elim (create_process-cases m h block parent group copied name v) [
    | inl (bytes, a, e) ↦ subst (AddsOrNot m h block copied parent group name) (sym e) (
        inl (
          a.allocated,
          (bytes, a.named, refl),
          ap (contents (update m.processes m.count block)) (add-one m.count)
              ∙ contents-push m.processes m.count block,
          get-created m h block parent group bytes v a.room a.ids_left a.allocated fresh,
        ))
    | inr (p, same, u, why) ↦ inr (p, same, Unchanged-contents m _ u, why)
  ],
)
