-- ===== src/ProcessGroupManager/Frame.antt =====
-- A change of the heap of groups that keeps every group and its id keeps the table and its lookups.
use embla.Prelude.{
  ℕ, ◌<◌, ◌≡◌, refl, sym, ap, ◌∙◌, some, ◌==◌, Bool-cases, inl, inr, update, fun_ext, arith,
  if◌then◌else◌,
}
use mathlib.Core.Option.{some-injective}
use embla.Process.{Ptr, invalid_pgid, null}
use embla.ProcessGroup.{ProcessGroup, Groups, get_id}
use embla.Table.{find_from}
use embla.Table.Keyed.{slot}
use embla.ProcessGroupManager.{ProcessGroupManager, get, find_index}
use embla.ProcessGroupManager.Directory.{IsGroups}

-- Every group of `gs` is one of `gs'`, with the same id.
abbrev pub KeepsIds : Groups → Groups → Type 0
KeepsIds gs gs' =
    (q : Ptr) (grp : ProcessGroup)
    → gs q ≡ some grp
    → (grp' : ProcessGroup) × (gs' q ≡ some grp') × (grp'.id ≡ grp.id)

pub IsGroups-frame :
    (m : ProcessGroupManager) (gs gs' : Groups) → KeepsIds gs gs' → IsGroups m gs → IsGroups m gs'
unfolding get_id
IsGroups-frame m gs gs' keeps v = record {
  fixed = v.fixed;
  fits = v.fits;
  next_min = v.next_min;
  next_max = v.next_max;
  object = λ i lt.
      let (grp, there, low, high) = v.object i lt in
      let (grp', there', same) = keeps (m.groups i) grp there in
      (grp', there', rw same low, rw same high);
  address = v.address;
  distinct = λ i j lt lt' e. v.distinct i j lt lt' (key i (lt_trans lt lt') ∙ e ∙ sym (key j lt'));
}
  where
    lt_trans : {i j : ℕ} → i < j → j < m.count → i < m.count
    lt_trans a b = omega arith

    key : (i : ℕ) → i < m.count → get_id gs (m.groups i) ≡ get_id gs' (m.groups i)
    key i lt =
        let (grp, there, _, _) = v.object i lt in
        let (grp', there', same) = keeps (m.groups i) grp there in
        rw (there, get_id) (rw (there', get_id) (sym same))

pub get-frame :
    (m : ProcessGroupManager) (gs gs' : Groups) (id : ℕ)
    → ((q : Ptr) → get_id gs' q ≡ get_id gs q)
    → get m gs' id ≡ get m gs id
unfolding get find_index
get-frame m gs gs' id same =
    ap
      (λ (key : Ptr → ℕ).
        if id == invalid_pgid
        then null
        else slot m.groups (find_from m.groups (λ p. key p == id) m.count 0))
      (fun_ext same)

-- Writing another group of the same id at an address.
pub update-KeepsIds :
    (gs : Groups) (p : Ptr) (x y : ProcessGroup)
    → y.id ≡ x.id
    → KeepsIds (update gs p (some x)) (update gs p (some y))
update-KeepsIds gs p x y same q grp there = elim (Bool-cases (p == q)) [
  | inl here ↦ (
    y,
    rw here refl,
    same ∙ ap (λ (z : ProcessGroup). z.id) (some-injective x grp (rw here at there)),
  )
  | inr off ↦ (grp, rw off (rw off at there), refl)
]

pub update-get_id :
    (gs : Groups) (p : Ptr) (x y : ProcessGroup)
    → y.id ≡ x.id
    → (q : Ptr) → get_id (update gs p (some y)) q ≡ get_id (update gs p (some x)) q
unfolding get_id
update-get_id gs p x y same q = elim (Bool-cases (p == q)) [
  | inl here ↦ rw (here, get_id) same
  | inr off ↦ rw (off, get_id) refl
]
