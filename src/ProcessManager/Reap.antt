-- ===== src/ProcessManager/Reap.antt =====
-- `wait_child` and `reap_child`: the terminated child that is collected.
use embla.Prelude.{
  ℕ, ◌<◌, ◌≡◌, refl, ap, ◌≢◌, ◌⊎◌, inl, inr, Bool, true, false, Option, none, some, arith, ◌==◌,
  ==_ne, ℤ, success, failure, ◌&&◌,
}
use embla.Process.{Ptr, null, Heap, get_parent_id, get_state, terminated, invalid_pid}
use embla.Table.{find_from}
use embla.Table.Keyed.{slot}
use embla.Table.Laws.{Search, find_from-Search}
use embla.ProcessManager.{ProcessManager, get, wait_child, is_terminated}
use embla.ProcessManager.Destroy.{Removes}

-- The process `p` has ended and its parent has not collected it.
abbrev pub IsZombie : Heap → ℕ → Ptr → Type 0
IsZombie h parent p = (get_parent_id h p ≡ parent) × (get_state h p ≡ terminated)

IsZombie-test :
    (h : Heap) (parent : ℕ) (p : Ptr)
    → (get_parent_id h p == parent && is_terminated (get_state h p)) ≡ true
    → IsZombie h parent p
IsZombie-test h parent p e = ground arith

not_IsZombie :
    (h : Heap) (parent : ℕ) (p : Ptr)
    → (get_parent_id h p == parent && is_terminated (get_state h p)) ≡ false
    → ¬ IsZombie h parent p
not_IsZombie h parent p e (a, b) = ground arith

-- `wait_child` gives the zombie in the first slot that holds one, and NULL if none does.
pub wait_child-first :
    (m : ProcessManager) (h : Heap) (parent : ℕ)
    → parent ≢ invalid_pid
    → ((k : ℕ) × (k < m.count)
        × (wait_child m h parent ≡ m.processes k)
        × IsZombie h parent (m.processes k)
        × ((j : ℕ) → j < k → ¬ IsZombie h parent (m.processes j)))
      ⊎ ((wait_child m h parent ≡ null)
          × ((j : ℕ) → j < m.count → ¬ IsZombie h parent (m.processes j)))
wait_child-first m h parent valid =
    go (find_from m.processes test m.count 0) refl (find_from-Search m.processes test m.count 0)
  where
    test : Ptr → Bool
    test p = get_parent_id h p == parent && is_terminated (get_state h p)

    found :
        (r : Option ℕ)
        → find_from m.processes test m.count 0 ≡ r
        → wait_child m h parent ≡ slot m.processes r
    found r e = unfold wait_child in rw (==_ne parent invalid_pid valid) (ap (slot m.processes) e)

    go :
        (r : Option ℕ)
        → find_from m.processes test m.count 0 ≡ r
        → Search m.processes test m.count 0 r
        → ((k : ℕ) × (k < m.count)
            × (wait_child m h parent ≡ m.processes k)
            × IsZombie h parent (m.processes k)
            × ((j : ℕ) → j < k → ¬ IsZombie h parent (m.processes j)))
          ⊎ ((wait_child m h parent ≡ null)
              × ((j : ℕ) → j < m.count → ¬ IsZombie h parent (m.processes j)))
    go none e absent = inr (
      found none e,
      λ j lt. not_IsZombie h parent (m.processes j) (absent j (omega arith) (omega arith)),
    )
    go (some k) e (_, within, pass, before) = inl (
      k,
      omega arith,
      found (some k) e,
      IsZombie-test h parent (m.processes k) pass,
      λ j lt. not_IsZombie h parent (m.processes j) (before j (omega arith) lt),
    )

-- A result of `reap_child`: the reported id is that of a zombie child, and exactly that process
-- is removed; or nothing has changed, and the parent has no zombie child or is EMBLA_INVALID_PID.
abbrev pub Reaps : ProcessManager → Heap → ℕ → ℤ × ℕ × Heap × ProcessManager → Type 0
Reaps m h parent (code, id, h', m') =
    ((code ≡ success) × IsZombie h parent (get m h id) × Removes m h id (success, h', m'))
    ⊎ ((code ≡ failure)
        × (h' ≡ h)
        × (m' ≡ m)
        × ((parent ≡ invalid_pid) ⊎ ((j : ℕ) → j < m.count → ¬ IsZombie h parent (m.processes j))))
