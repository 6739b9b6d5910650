-- ===== src/ProcessManager/Frame.antt =====
-- A change of the heap that keeps every process and its id keeps the table and its lookups.
use embla.Prelude.{
  ℕ, Option, none, Option-cases, ==_iff, ◌<◌, ◌≡◌, refl, sym, ap, ◌∙◌, some, ◌==◌, Bool-cases, inl,
  inr, update, fun_ext, arith,
}
use mathlib.Core.Option.{some-injective, none-ne-some}
use embla.Process.{Ptr, Heap, Process, get_id, get_group_id, invalid_pid, invalid_pgid}
use embla.Table.{find_from}
use embla.Table.Keyed.{slot}
use embla.ProcessManager.{ProcessManager, get, find_index}
use embla.ProcessManager.Invariant.{IsTable}

-- Every process of `h` is one of `h'`, with the same id.
abbrev pub KeepsIds : Heap → Heap → Type 0
KeepsIds h h' =
    (q : Ptr) (pr : Process)
    → h q ≡ some pr
    → (pr' : Process) × (h' q ≡ some pr') × (pr'.id ≡ pr.id)

pub IsTable-frame : (m : ProcessManager) (h h' : Heap) → KeepsIds h h' → IsTable m h → IsTable m h'
unfolding get_id
IsTable-frame m h h' keeps v = record {
  fixed = v.fixed;
  fits = v.fits;
  next_min = v.next_min;
  next_max = v.next_max;
  object = λ i lt.
      let (pr, there, low, high) = v.object i lt in
      let (pr', there', same) = keeps (m.processes i) pr there in
      (pr', there', rw same low, rw same high);
  address = v.address;
  distinct = λ i j lt lt' e. v.distinct i j lt lt' (key i (lt_trans lt lt') ∙ e ∙ sym (key j lt'));
}
  where
    lt_trans : {i j : ℕ} → i < j → j < m.count → i < m.count
    lt_trans a b = omega arith

    key : (i : ℕ) → i < m.count → get_id h (m.processes i) ≡ get_id h' (m.processes i)
    key i lt =
        let (pr, there, _, _) = v.object i lt in
        let (pr', there', same) = keeps (m.processes i) pr there in
        rw (there, get_id) (rw (there', get_id) (sym same))

pub get-frame :
    (m : ProcessManager) (h h' : Heap) (id : ℕ)
    → ((q : Ptr) → get_id h' q ≡ get_id h q)
    → get m h' id ≡ get m h id
unfolding get find_index
get-frame m h h' id same =
    ap (λ (key : Ptr → ℕ). slot m.processes (find_from m.processes (λ p. key p == id) m.count 0))
      (fun_ext same)

-- Writing another process of the same id at an address.
pub update-KeepsIds :
    (h : Heap) (p : Ptr) (x y : Process)
    → y.id ≡ x.id
    → KeepsIds (update h p (some x)) (update h p (some y))
update-KeepsIds h p x y same q pr there = elim (Bool-cases (p == q)) [
  | inl here ↦
      (y, rw here refl, same ∙ ap (λ (z : Process). z.id) (some-injective x pr (rw here at there)))
  | inr off ↦ (pr, rw off (rw off at there), refl)
]

pub update-get_id :
    (h : Heap) (p : Ptr) (x y : Process)
    → y.id ≡ x.id
    → (q : Ptr) → get_id (update h p (some y)) q ≡ get_id (update h p (some x)) q
unfolding get_id
update-get_id h p x y same q = elim (Bool-cases (p == q)) [
  | inl here ↦ rw (here, get_id) same
  | inr off ↦ rw (off, get_id) refl
]

-- What the tables look at in a process: its id and that of its group.
abbrev keys : Option Process → Option (ℕ × ℕ)
keys none = none
keys (some pr) = some (pr.id, pr.group_id)

-- The same addresses hold processes, with the same ids and groups.
abbrev pub Alike : Heap → Heap → Type 0
Alike h h' = (q : Ptr) → keys (h' q) ≡ keys (h q)

pub Alike-KeepsIds : (h h' : Heap) → Alike h h' → KeepsIds h h'
Alike-KeepsIds h h' alike q pr there = go (h' q) (alike q ∙ ap keys there)
  where
    go :
        (o : Option Process)
        → keys o ≡ some (pr.id, pr.group_id)
        → (pr' : Process) × (o ≡ some pr') × (pr'.id ≡ pr.id)
    go none e = absurd (none-ne-some _ e)
    go (some pr') e = (pr', refl, ap (λ (r : ℕ × ℕ). r.0) (some-injective _ _ e))

abbrev id_of : Option (ℕ × ℕ) → ℕ
id_of none = invalid_pid
id_of (some r) = r.0

abbrev group_of : Option (ℕ × ℕ) → ℕ
group_of none = invalid_pgid
group_of (some r) = r.1

get_id-keys : (h : Heap) (q : Ptr) → get_id h q ≡ id_of (keys (h q))
unfolding get_id
get_id-keys h q = elim (Option-cases (h q)) [
  | inl gone ↦ rw (gone, get_id)
  | inr (pr, there) ↦ rw (there, get_id)
]

get_group_id-keys : (h : Heap) (q : Ptr) → get_group_id h q ≡ group_of (keys (h q))
unfolding get_group_id
get_group_id-keys h q = elim (Option-cases (h q)) [
  | inl gone ↦ rw (gone, get_group_id)
  | inr (pr, there) ↦ rw (there, get_group_id)
]

pub Alike-get_id : (h h' : Heap) → Alike h h' → (q : Ptr) → get_id h' q ≡ get_id h q
Alike-get_id h h' alike q = get_id-keys h' q ∙ ap id_of (alike q) ∙ sym (get_id-keys h q)

pub Alike-get_group_id :
    (h h' : Heap) → Alike h h' → (q : Ptr) → get_group_id h' q ≡ get_group_id h q
Alike-get_group_id h h' alike q =
    get_group_id-keys h' q ∙ ap group_of (alike q) ∙ sym (get_group_id-keys h q)

-- Writing a process of the same id and group over another.
pub write-Alike :
    (h : Heap) (p : Ptr) (x y : Process)
    → h p ≡ some x
    → y.id ≡ x.id
    → y.group_id ≡ x.group_id
    → Alike h (update h p (some y))
write-Alike h p x y there same same_group q = elim (Bool-cases (p == q)) [
  | inl here ↦
      rw here (rw (same, same_group) (sym (ap keys (sym (ap h ((==_iff p q).0 here)) ∙ there))))
  | inr off ↦ rw off refl
]
