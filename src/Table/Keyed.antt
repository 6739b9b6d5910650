-- ===== src/Table/Keyed.antt =====
-- A pointer table whose entries have distinct keys, as a map from keys to entries. The key of an
-- entry is read from the object that it points to, so it is a function that may change with the
-- heap.
use embla.Prelude.{
  ℕ, ◌+◌, ◌-◌, ◌<◌, ◌≡◌, refl, sym, ap, ◌∙◌, ◌≢◌, ◌↔◌, ◌⊎◌, inl, inr, Bool, true, false, Option,
  none, some, arith, ◌==◌, Bool-cases, if◌then◌else◌, update, update_self, update_ne, ltb, ltb→lt,
  last_or_before,
}
use embla.Process.{Ptr, null}
use embla.Table.{find_from, close_gap}
use embla.Table.Laws.{Search, find_from-Search}

-- The entry in the slot that a search gives, NULL if it gives none.
abbrev pub slot : (ℕ → Ptr) → Option ℕ → Ptr
slot slots none = null
slot slots (some index) = slots index

module _ {ℓ} {K : Type ℓ} (eqb : K → K → Bool)
    (eqb_iff : (a b : K) → (eqb a b ≡ true) ↔ (a ≡ b)) where
  abbrev pub search : (ℕ → Ptr) → (Ptr → K) → ℕ → K → Option ℕ
  search slots key n id = find_from slots (λ p. eqb (key p) id) n 0

  abbrev pub lookup : (ℕ → Ptr) → (Ptr → K) → ℕ → K → Ptr
  lookup slots key n id = slot slots (search slots key n id)

  abbrev pub Distinct : (ℕ → Ptr) → (Ptr → K) → ℕ → Type ℓ
  Distinct slots key n = (i j : ℕ) → i < j → j < n → key (slots i) ≢ key (slots j)

  eqb_ne : (a b : K) → a ≢ b → eqb a b ≡ false
  eqb_ne a b h = elim (Bool-cases (eqb a b)) [
    | inl same ↦ absurd (h ((eqb_iff a b).0 same))
    | inr other ↦ other
  ]

  module _ (slots : ℕ → Ptr) (key : Ptr → K) (n : ℕ) where
    -- Every key is that of a slot in use, or of none.
    pub search-cases :
        (id : K)
        → ((k : ℕ) × (k < n) × (search slots key n id ≡ some k) × (key (slots k) ≡ id))
          ⊎ ((search slots key n id ≡ none) × ((k : ℕ) → k < n → key (slots k) ≢ id))
    search-cases id =
        go (search slots key n id) refl (find_from-Search slots (λ p. eqb (key p) id) n 0)
      where
        go :
            (r : Option ℕ)
            → search slots key n id ≡ r
            → Search slots (λ p. eqb (key p) id) n 0 r
            → ((k : ℕ) × (k < n) × (search slots key n id ≡ some k) × (key (slots k) ≡ id))
              ⊎ ((search slots key n id ≡ none) × ((k : ℕ) → k < n → key (slots k) ≢ id))
        go none e absent = inr (
          e,
          λ k lt same.
              cc (absent k (omega arith) (omega arith), (eqb_iff (key (slots k)) id).1 same),
        )
        go (some k) e (_, within, pass, _) = inl (k, omega arith, e, (eqb_iff _ _).0 pass)

    pub lookup-absent :
        (id : K) → ((k : ℕ) → k < n → key (slots k) ≢ id) → lookup slots key n id ≡ null
    lookup-absent id absent = elim (search-cases id) [
      | inl (k, lt, _, is) ↦ absurd (absent k lt is)
      | inr (e, _) ↦ ap (slot slots) e
    ]

    pub same_slot :
        Distinct slots key n → (i k : ℕ) → i < n → k < n → key (slots k) ≡ key (slots i) → k ≡ i
    same_slot d i k hi hk e = elim (Bool-cases (ltb k i)) [
      | inl before ↦ absurd (d k i (ltb→lt k i before) hi e)
      | inr other ↦ elim (Bool-cases (ltb i k)) [
        | inl behind ↦ absurd (d i k (ltb→lt i k behind) hk (sym e))
        | inr same ↦ ground arith
      ]
    ]

    pub lookup-at :
        Distinct slots key n
        → (i : ℕ) (id : K) → i < n
        → key (slots i) ≡ id
        → lookup slots key n id ≡ slots i
    lookup-at d i id lt is = elim (search-cases id) [
      | inl (k, lt', e, is') ↦ ap (slot slots) e ∙ ap slots (same_slot d i k lt lt' (is' ∙ sym is))
      | inr (_, absent) ↦ absurd (absent i lt is)
    ]

  -- A new last entry with a key of its own, where the entries before keep theirs.
  module _ (slots : ℕ → Ptr) (key key' : Ptr → K) (n : ℕ) (p : Ptr) (d : Distinct slots key n)
      (frame : (k : ℕ) → k < n → key' (slots k) ≡ key (slots k))
      (fresh : (k : ℕ) → k < n → key (slots k) ≢ key' p) where
    pushed-old : (k : ℕ) → k < n → update slots n p k ≡ slots k
    pushed-old k lt = update_ne slots n k p (omega arith)

    pushed-new : update slots n p n ≡ p
    pushed-new = update_self slots n p

    pushed-key : (k : ℕ) → k < n → key' (update slots n p k) ≡ key (slots k)
    pushed-key k lt = ap key' (pushed-old k lt) ∙ frame k lt

    pub Distinct-push : Distinct (update slots n p) key' (n + 1)
    Distinct-push i j lt lt' e = elim (last_or_before j n lt') [
      | inl last ↦ fresh i (omega arith) (
          sym (pushed-key i (omega arith))
          ∙ e
          ∙ ap (λ k. key' (update slots n p k)) last
          ∙ ap key' pushed-new)
      | inr old ↦ d i j lt old (sym (pushed-key i (omega arith)) ∙ e ∙ pushed-key j old)
    ]

    pub lookup-push :
        (id : K)
        → lookup (update slots n p) key' (n + 1) id
          ≡ (if eqb id (key' p) then p else lookup slots key n id)
    lookup-push id = elim (Bool-cases (eqb id (key' p))) [
      | inl new ↦
          rw new (
            at n (omega arith) (ap key' pushed-new ∙ sym ((eqb_iff id (key' p)).0 new))
            ∙ pushed-new)
      | inr older ↦ rw older (elim (search-cases slots key n id) [
        | inl (k, lt, e, is) ↦
            at k (omega arith) (pushed-key k lt ∙ is)
            ∙ pushed-old k lt
            ∙ sym (lookup-at slots key n d k id lt is)
        | inr (e, absent) ↦
            lookup-absent (update slots n p) key' (n + 1) id (still_absent older absent)
            ∙ sym (lookup-absent slots key n id absent)
      ])
    ]
      where
        at :
            (k : ℕ)
            → k < n + 1
            → key' (update slots n p k) ≡ id
            → lookup (update slots n p) key' (n + 1) id ≡ update slots n p k
        at k lt e = lookup-at (update slots n p) key' (n + 1) Distinct-push k id lt e

        still_absent :
            eqb id (key' p) ≡ false
            → ((k : ℕ) → k < n → key (slots k) ≢ id)
            → (k : ℕ) → k < n + 1
            → key' (update slots n p k) ≢ id
        still_absent older absent k lt e = elim (last_or_before k n lt) [
          | inl last ↦ cc (
            older,
            (eqb_iff id (key' p)).1
                (sym e ∙ ap (λ j. key' (update slots n p j)) last ∙ ap key' pushed-new),
          )
          | inr old ↦ absent k old (sym (pushed-key k old) ∙ e)
        ]

  -- The entry of slot `k` taken out, where the others keep their keys.
  module _ (slots : ℕ → Ptr) (key key' : Ptr → K) (n k : ℕ) (d : Distinct slots key n)
      (used : k < n) (frame : (i : ℕ) → i < n → i ≢ k → key' (slots i) ≡ key (slots i)) where
    -- The slot that an entry of the smaller table stood in before.
    abbrev pub origin : ℕ → ℕ
    origin j = if k == j then n - 1 else j

    pub origin-lt : (j : ℕ) → j < n - 1 → origin j < n
    origin-lt j lt = ground arith

    pub origin-ne : (j : ℕ) → j < n - 1 → origin j ≢ k
    origin-ne j lt = ground arith

    origin-injective : (i j : ℕ) → i < n - 1 → j < n - 1 → origin i ≡ origin j → i ≡ j
    origin-injective i j hi hj = ground arith

    pub closed-slot : (j : ℕ) → j < n - 1 → close_gap slots k (n - 1) j ≡ slots (origin j)
    unfolding close_gap
    closed-slot j lt = ground arith

    closed-key : (j : ℕ) → j < n - 1 → key' (close_gap slots k (n - 1) j) ≡ key (slots (origin j))
    closed-key j lt =
        ap key' (closed-slot j lt) ∙ frame (origin j) (origin-lt j lt) (origin-ne j lt)

    pub Distinct-close : Distinct (close_gap slots k (n - 1)) key' (n - 1)
    Distinct-close i j lt lt' e = absurd (
        omega (
          arith,
          origin-injective j i lt' (omega arith) (
              same_slot slots key n d (origin i) (origin j) (origin-lt i (omega arith))
                (origin-lt j lt') (sym (closed-key j lt') ∙ sym e ∙ closed-key i (omega arith))),
        ))

    -- Where an entry that stays stands afterwards.
    abbrev place : ℕ → ℕ
    place i = if i == n - 1 then k else i

    place-lt : (i : ℕ) → i < n → i ≢ k → place i < n - 1
    place-lt i lt ne = ground arith

    origin-place : (i : ℕ) → i < n → i ≢ k → origin (place i) ≡ i
    origin-place i lt ne = ground arith

    pub lookup-close :
        (id : K)
        → lookup (close_gap slots k (n - 1)) key' (n - 1) id
          ≡ (if eqb id (key (slots k)) then null else lookup slots key n id)
    lookup-close id = elim (Bool-cases (eqb id (key (slots k)))) [
      | inl gone ↦ rw gone (
          lookup-absent (close_gap slots k (n - 1)) key' (n - 1) id λ j lt e. origin-ne j lt (
            same_slot slots key n d k (origin j) used (origin-lt j lt)
              (sym (closed-key j lt) ∙ e ∙ (eqb_iff id _).0 gone)))
      | inr stays ↦ rw stays (elim (search-cases slots key n id) [
        | inl (i, lt, _, is) ↦
            let ne : i ≢ k = λ e.
              cc (stays, (eqb_iff id (key (slots k))).1 (sym is ∙ ap (λ j. key (slots j)) e)) in
            lookup-at (close_gap slots k (n - 1)) key' (n - 1) Distinct-close (place i) id
              (place-lt i lt ne)
              (closed-key (place i) (place-lt i lt ne)
                ∙ ap (λ j. key (slots j)) (origin-place i lt ne)
                ∙ is)
            ∙ closed-slot (place i) (place-lt i lt ne)
            ∙ ap slots (origin-place i lt ne)
            ∙ sym (lookup-at slots key n d i id lt is)
        | inr (_, absent) ↦
            lookup-absent (close_gap slots k (n - 1)) key' (n - 1) id
              (λ j lt e. absent (origin j) (origin-lt j lt) (sym (closed-key j lt) ∙ e))
            ∙ sym (lookup-absent slots key n id absent)
      ])
    ]
