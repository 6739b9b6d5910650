-- ===== src/ProcessManager/Invariant.antt =====
-- What every operation of the process table keeps, and how a search answers under it.
use embla.Prelude.{ℕ, ◌<◌, ◌≤◌, ◌≡◌, refl, ◌≢◌, ◌⊎◌, none, some, arith, ◌==◌, ==_iff}
use embla.Process.{Ptr, null, Heap, Process, get_id, invalid_pid}
use embla.Table.Keyed
use embla.ProcessManager.{ProcessManager, create, find_index, get}

-- The table is within its sixteen slots, each slot in use holds a live process, no two the same
-- id, and every id was given out before the next one.
pub record IsTable (m : ProcessManager) (h : Heap) : Type 0 where
  pub fixed : m.capacity ≡ 16
  pub fits : m.count ≤ 16
  pub next_min : 1 ≤ m.next_pid
  pub next_max : m.next_pid ≤ 4294967295
  pub object :
      (i : ℕ)
      → i < m.count
      → (pr : Process) × (h (m.processes i) ≡ some pr) × (1 ≤ pr.id) × (pr.id < m.next_pid)
  pub address : (i : ℕ) → i < m.count → m.processes i ≢ null
  pub distinct : Keyed.Distinct ◌==◌ ==_iff m.processes (get_id h) m.count

pub get_id-ext : (h h' : Heap) (p p' : Ptr) → h p ≡ h' p' → get_id h p ≡ get_id h' p'
unfolding get_id
get_id-ext h h' p p' e = rw (e, get_id)

pub create-IsTable : (h : Heap) → IsTable create h
unfolding create
create-IsTable h = record {
  fixed = refl;
  fits = omega arith;
  next_min = omega arith;
  next_max = omega arith;
  object = λ i lt. absurd (omega arith);
  address = λ i lt. absurd (omega arith);
  distinct = λ i j lt lt'. absurd (omega arith);
}

module _ (m : ProcessManager) (h : Heap) (v : IsTable m h) where
  pub same_slot :
      (i k : ℕ)
      → i < m.count
      → k < m.count
      → get_id h (m.processes k) ≡ get_id h (m.processes i)
      → k ≡ i
  same_slot = Keyed.same_slot ◌==◌ ==_iff m.processes (get_id h) m.count v.distinct

  pub get-at : (i id : ℕ) → i < m.count → get_id h (m.processes i) ≡ id → get m h id ≡ m.processes i
  unfolding get find_index
  get-at = Keyed.lookup-at ◌==◌ ==_iff m.processes (get_id h) m.count v.distinct

-- Every id is that of a slot in use, or of none.
pub id-cases :
    (m : ProcessManager) (h : Heap) (id : ℕ)
    → ((k : ℕ) × (k < m.count) × (find_index m h id ≡ some k) × (get_id h (m.processes k) ≡ id))
      ⊎ ((find_index m h id ≡ none) × ((k : ℕ) → k < m.count → get_id h (m.processes k) ≢ id))
unfolding find_index
id-cases m h = Keyed.search-cases ◌==◌ ==_iff m.processes (get_id h) m.count

pub get-absent :
    (m : ProcessManager) (h : Heap) (id : ℕ)
    → ((k : ℕ) → k < m.count → get_id h (m.processes k) ≢ id)
    → get m h id ≡ null
unfolding get find_index
get-absent m h = Keyed.lookup-absent ◌==◌ ==_iff m.processes (get_id h) m.count

pub id-valid :
    (m : ProcessManager) (h : Heap) (v : IsTable m h) (k : ℕ)
    → k < m.count
    → get_id h (m.processes k) ≢ invalid_pid
unfolding get_id
id-valid m h v k lt =
    let (pr, object, low, high) = v.object k lt in rw (object, get_id) (omega (arith, v.next_max))
