-- ===== src/Registry/Names.antt =====
-- The registry as a map from names to services, under registration and removal.
use embla.Prelude.{
  ℕ, ◌+◌, ◌-◌, ◌<◌, ◌≤◌, ◌≡◌, refl, sym, ap, ◌∙◌, ◌≢◌, ◌↔◌, ◌⊎◌, inl, inr, true, Option, none, some,
  arith, [], ◌∷◌, ◌==◌, ==_iff, Bool-cases, update, update_ne, leb, if◌then◌else◌, ℤ, success,
  failure, last_or_before,
}
use embla.Process.{Ptr, null, CString}
use embla.Service.{bytes_eq}
use embla.Table.{close_gap}
use embla.Table.Keyed
use embla.Table.Keyed.{slot}
use embla.Registry.{
  Services, ServiceRegistry, get_name, find_index, register, get, unregister, unregister_at,
}

pub bytes_eq_iff : (a b : CString) → (bytes_eq a b ≡ true) ↔ (a ≡ b)
unfolding bytes_eq
bytes_eq_iff [] [] = ((λ _. refl), λ _. refl)
bytes_eq_iff [] (b ∷ bs) = ground arith
bytes_eq_iff (a ∷ as') [] = ground arith
bytes_eq_iff (a ∷ as') (b ∷ bs) = let rest = bytes_eq_iff as' bs in ground arith

-- The table is within its sixteen slots, no slot in use is NULL, and no two services have a name.
pub record IsRegistry (r : ServiceRegistry) (ss : Services) : Type 0 where
  pub fixed : r.capacity ≡ 16
  pub fits : r.count ≤ 16
  pub address : (i : ℕ) → i < r.count → r.services i ≢ null
  pub distinct : Keyed.Distinct bytes_eq bytes_eq_iff r.services (get_name ss) r.count

module _ (r : ServiceRegistry) (ss : Services) (v : IsRegistry r ss) where
  -- Every name is that of a slot in use, or of none.
  pub name-cases :
      (name : CString)
      → ((k : ℕ) × (k < r.count)
          × (find_index r ss name ≡ some k)
          × (get_name ss (r.services k) ≡ name)
          × (get r ss (some name) ≡ r.services k))
        ⊎ ((find_index r ss name ≡ none)
            × (get r ss (some name) ≡ null)
            × ((k : ℕ) → k < r.count → get_name ss (r.services k) ≢ name))
  unfolding find_index get
  name-cases name =
      elim (Keyed.search-cases bytes_eq bytes_eq_iff r.services (get_name ss) r.count name) [
        | inl (k, lt, e, is) ↦ inl (k, lt, e, is, ap (slot r.services) e)
        | inr (e, absent) ↦ inr (e, ap (slot r.services) e, absent)
      ]

-- A result of `register`. If it succeeds, the name of the service was free, now leads to it, and
-- every other leads where it led; if it fails, nothing has changed, and the service is NULL, the
-- table full or the name taken. Both keep the registry well formed.
abbrev pub Registers : ServiceRegistry → Services → Ptr → ℤ × ServiceRegistry → Type 0
Registers r ss p (code, r') =
    IsRegistry r' ss
    × (((code ≡ success)
          × (p ≢ null)
          × (get r ss (some (get_name ss p)) ≡ null)
          × ((name : CString)
              → get r' ss (some name)
                ≡ (if bytes_eq name (get_name ss p) then p else get r ss (some name))))
        ⊎ ((code ≡ failure)
            × (r' ≡ r)
            × ((p ≡ null) ⊎ (r.count ≡ 16) ⊎ (get r ss (some (get_name ss p)) ≢ null))))

module _ (r : ServiceRegistry) (ss : Services) (p : Ptr) where
  abbrev registered : ServiceRegistry
  registered = record r { services = update r.services r.count p; count = r.count + 1 }

  module _ (v : IsRegistry r ss) (live : p ≢ null) (room : r.count < 16)
      (free : (k : ℕ) → k < r.count → get_name ss (r.services k) ≢ get_name ss p) where
    registered-IsRegistry : IsRegistry registered ss
    registered-IsRegistry = record {
      fixed = v.fixed;
      fits = omega arith;
      address = λ i lt. elim (last_or_before i r.count lt) [
        | inl last ↦ ground (arith, live)
        | inr old ↦ ground (arith, v.address i old)
      ];
      distinct =
          Keyed.Distinct-push bytes_eq bytes_eq_iff r.services (get_name ss) (get_name ss) r.count p
            v.distinct (λ k lt. refl) free;
    }

    get-registered :
        (name : CString)
        → get registered ss (some name)
          ≡ (if bytes_eq name (get_name ss p) then p else get r ss (some name))
    unfolding get find_index
    get-registered =
        Keyed.lookup-push bytes_eq bytes_eq_iff r.services (get_name ss) (get_name ss) r.count p
          v.distinct (λ k lt. refl) free

-- On a well-formed registry `register` adds the service under its name if that is free and there is
-- room, and refuses it otherwise; the registry stays well formed.
pub register-Registers :
    (r : ServiceRegistry) (ss : Services) (p : Ptr)
    → IsRegistry r ss
    → Registers r ss p (register r ss p)
unfolding register
register-Registers r ss p v = elim (Bool-cases (p == null)) [
  | inl gone ↦ rw gone (v, inr (refl, refl, inl ((==_iff p null).0 gone)))
  | inr alive ↦ elim (Bool-cases (leb r.capacity r.count)) [
    | inl full ↦ rw (alive, full) (v, inr (refl, refl, inr (inl (ground (arith, v.fixed, v.fits)))))
    | inr room ↦ elim (name-cases r ss v (get_name ss p)) [
      | inl (k, lt, found, is, at) ↦
          rw (alive, room, found)
            (v, inr (refl, refl, inr (inr (λ e. v.address k lt (sym at ∙ e)))))
      | inr (absent, free, away) ↦
          let live : p ≢ null = (λ e. ground arith) in
          rw (alive, room, absent)
            (
              registered-IsRegistry r ss p v live (ground (arith, v.fixed)) away,
              inl (refl, live, free, get-registered r ss p v live (ground (arith, v.fixed)) away),
            )
    ]
  ]
]

-- A result of `unregister`: the service of that name is destroyed and its name is free, every other
-- name leads where it led; or there is none, and nothing has changed. A NULL name changes nothing.
abbrev pub Unregisters :
    ServiceRegistry → Services → Option CString → ℤ × Services × ServiceRegistry → Type 0
Unregisters r ss none result = result ≡ (failure, ss, r)
Unregisters r ss (some name) (code, ss', r') =
    IsRegistry r' ss'
    × (((code ≡ success)
          × (get r ss (some name) ≢ null)
          × (ss' ≡ update ss (get r ss (some name)) none)
          × ((other : CString)
              → get r' ss' (some other)
                ≡ (if bytes_eq other name then null else get r ss (some other))))
        ⊎ ((code ≡ failure) × (get r ss (some name) ≡ null) × (ss' ≡ ss) × (r' ≡ r)))

module _ (r : ServiceRegistry) (ss : Services) (v : IsRegistry r ss) (k : ℕ)
    (used : k < r.count) where
  abbrev left : Services
  left = update ss (r.services k) none

  abbrev closed : ServiceRegistry
  closed = record r { services = close_gap r.services k (r.count - 1); count = r.count - 1 }

  kept-name :
      (i : ℕ) → i < r.count → i ≢ k → get_name left (r.services i) ≡ get_name ss (r.services i)
  unfolding get_name
  kept-name i lt ne =
      let apart : r.services k ≢ r.services i = (λ e. ne (
        Keyed.same_slot bytes_eq bytes_eq_iff r.services (get_name ss) r.count v.distinct k i used
          lt (ap (get_name ss) (sym e)))) in
      rw (update_ne ss (r.services k) (r.services i) none apart, get_name)

  closed-IsRegistry : IsRegistry closed left
  closed-IsRegistry = record {
    fixed = v.fixed;
    fits = omega (arith, v.fits);
    address = λ i lt e.
        v.address
          (Keyed.origin bytes_eq bytes_eq_iff r.services (get_name ss) (get_name left) r.count k
            v.distinct used kept-name i)
          (Keyed.origin-lt bytes_eq bytes_eq_iff r.services (get_name ss) (get_name left) r.count k
            v.distinct used kept-name i lt)
          (sym (
              Keyed.closed-slot bytes_eq bytes_eq_iff r.services (get_name ss) (get_name left)
                r.count k v.distinct used kept-name i lt)
            ∙ e);
    distinct =
        Keyed.Distinct-close bytes_eq bytes_eq_iff r.services (get_name ss) (get_name left) r.count
          k v.distinct used kept-name;
  }

  get-closed :
      (name : CString)
      → get closed left (some name)
        ≡ (if bytes_eq name (get_name ss (r.services k)) then null else get r ss (some name))
  unfolding get find_index
  get-closed =
      Keyed.lookup-close bytes_eq bytes_eq_iff r.services (get_name ss) (get_name left) r.count k
        v.distinct used kept-name

-- On a well-formed registry `unregister` destroys exactly the service of the given name, or fails if
-- there is none or the name is NULL; the registry stays well formed.
pub unregister-Unregisters :
    (r : ServiceRegistry) (ss : Services) (name : Option CString)
    → IsRegistry r ss
    → Unregisters r ss name (unregister r ss name)
unfolding unregister unregister_at
unregister-Unregisters r ss none v = refl
unregister-Unregisters r ss (some name) v = elim (name-cases r ss v name) [
  | inl (k, lt, found, is, at) ↦ rw found (
    closed-IsRegistry r ss v k lt,
    inl (
      refl,
      (λ e. v.address k lt (sym at ∙ e)),
      ap (λ q. update ss q none) (sym at),
      λ other. get-closed r ss v k lt other ∙ rw is refl,
    ),
  )
  | inr (absent, gone, _) ↦ rw absent (v, inr (refl, gone, refl, refl))
]
