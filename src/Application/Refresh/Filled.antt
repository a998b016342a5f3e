-- ===== src/Application/Refresh/Filled.antt =====
-- However the workers interleave, the slots are what collecting in order gives.
use lnwdeck.Prelude.{
  ℕ, zero, suc, ◌<◌, ◌≤◌, ◌≡◌, refl, ap, sym, ◌∙◌, true, false, Option, none, some, List, [], ◌∷◌,
  length, any, ◌==◌, ==_iff, get_elem?, ◌⊎◌, inl, inr, arith, Bool-cases,
}
use lnwdeck.Application.Refresh.{
  Pool, idle, works, left, set_worker, is_left, empty_slots, takes, leaves, finishes, IsReached,
  starts, steps, IsJoined, write_slot, worker_count,
}
use lnwdeck.Application.Refresh.Workers.{
  is_taken, length-set_worker, length-idle_workers, is_taken-set_worker, taken_now,
  any-is_left-set_worker, all_left-is_taken, all_left-any, none_left-idle,
}

module _ {C : Type 0} where
  length-write_slot :
      (i : ℕ) (c : Option C) (slots : List (Option C))
      → length (write_slot i c slots) ≡ length slots
  unfolding write_slot
  length-write_slot i none slots = refl
  length-write_slot i (some c) [] = ground arith
  length-write_slot zero (some c) (s ∷ slots) = refl
  length-write_slot (suc i) (some c) (s ∷ slots) = ap suc (length-write_slot i (some c) slots)

  get_elem?-write_slot :
      (i : ℕ) (c s : Option C) (slots : List (Option C))
      → (s ≡ none) ⊎ (s ≡ c)
      → get_elem? slots i ≡ some s
      → get_elem? (write_slot i c slots) i ≡ some c
  unfolding write_slot
  get_elem?-write_slot i none s slots known h = ground arith
  get_elem?-write_slot i (some c) s [] known h = cc
  get_elem?-write_slot zero (some c) s (x ∷ slots) known h = refl
  get_elem?-write_slot (suc i) (some c) s (x ∷ slots) known h =
      get_elem?-write_slot i (some c) s slots known h

  get_elem?-write_slot_other :
      (i j : ℕ) (c : Option C) (slots : List (Option C))
      → (i == j) ≡ false
      → get_elem? (write_slot i c slots) j ≡ get_elem? slots j
  unfolding write_slot
  get_elem?-write_slot_other i j none slots h = refl
  get_elem?-write_slot_other i j (some c) [] h = ground arith
  get_elem?-write_slot_other zero zero (some c) (s ∷ slots) h = ground arith
  get_elem?-write_slot_other zero (suc j) (some c) (s ∷ slots) h = refl
  get_elem?-write_slot_other (suc i) zero (some c) (s ∷ slots) h = refl
  get_elem?-write_slot_other (suc i) (suc j) (some c) (s ∷ slots) h =
      get_elem?-write_slot_other i j (some c) slots (ground arith)

module _ {C : Type 0} where
  get_elem?-empty_slots :
      (i : ℕ) (c : Option C) (collected : List (Option C))
      → get_elem? collected i ≡ some c
      → get_elem? (empty_slots collected) i ≡ some none
  get_elem?-empty_slots i c [] h = cc
  get_elem?-empty_slots zero c (x ∷ collected) h = refl
  get_elem?-empty_slots (suc i) c (x ∷ collected) h = get_elem?-empty_slots i c collected h

  get_elem?-lt :
      (i : ℕ) (c : Option C) (collected : List (Option C))
      → get_elem? collected i ≡ some c
      → i < length collected
  get_elem?-lt i c [] h = cc
  get_elem?-lt zero c (x ∷ collected) h = omega arith
  get_elem?-lt (suc i) c (x ∷ collected) h =
      let ih = get_elem?-lt i c collected h in omega (arith, ih)

  length-empty_slots :
      (collected : List (Option C)) → length (empty_slots collected) ≡ length collected
  length-empty_slots [] = refl
  length-empty_slots (x ∷ collected) = ap suc (length-empty_slots collected)

  same_elements :
      (xs ys : List (Option C))
      → length xs ≡ length ys
      → ((i : ℕ) (c : Option C) → get_elem? ys i ≡ some c → get_elem? xs i ≡ some c)
      → xs ≡ ys
  same_elements [] [] len same = refl
  same_elements [] (y ∷ ys) len same = ground arith
  same_elements (x ∷ xs) [] len same = ground arith
  same_elements (x ∷ xs) (y ∷ ys) len same =
      let head : x ≡ y = let first = same zero y refl in cc in
      let tail = same_elements xs ys (omega (arith, len)) (λ i c h. same (suc i) c h) in cc

  module _ (collected : List (Option C)) where
    -- What the slot of an adapter is, while the workers run.
    abbrev pub IsSlot : Pool C → ℕ → Option C → Type 0
    IsSlot p i c =
        (s : Option C) × (get_elem? p.slots i ≡ some s)
        × ((s ≡ none) ⊎ (s ≡ c))
        × (i < p.next → (is_taken i p.workers ≡ true) ⊎ (s ≡ c))

    -- Only when every index was drawn does a worker leave.
    abbrev pub IsPool : Pool C → Type 0
    IsPool p =
        (length p.slots ≡ length collected)
        × (length p.workers ≡ worker_count collected)
        × (any is_left p.workers ≡ true → length collected ≤ p.next)
        × ((i : ℕ) (c : Option C) → get_elem? collected i ≡ some c → IsSlot p i c)

    takes-IsSlot :
        (p : Pool C) (k i : ℕ) (c : Option C)
        → get_elem? p.workers k ≡ some idle
        → IsSlot p i c
        → IsSlot
            (record p { next = suc p.next; workers = set_worker k (works p.next) p.workers })
            i
            c
    takes-IsSlot p k i c free (s, at, known, seen) = (
      s,
      at,
      known,
      λ below. elim (Bool-cases (p.next == i)) [
        | inl e ↦
            let same : p.next ≡ i = (==_iff p.next i).0 e in
            inl (rw same (taken_now i k idle p.workers free))
        | inr e ↦
            let older : i < p.next = grind arith in
            elim (seen older) [
              | inl there ↦
                  inl (is_taken-set_worker i k idle (works p.next) p.workers free refl there)
              | inr done ↦ inr done
            ]
      ],
    )

    finishes-IsSlot :
        (p : Pool C) (k j i : ℕ) (d c : Option C)
        → get_elem? p.workers k ≡ some (works j)
        → get_elem? collected j ≡ some d
        → get_elem? collected i ≡ some c
        → IsSlot p i c
        → IsSlot
            (record p { workers = set_worker k idle p.workers; slots = write_slot j d p.slots })
            i
            c
    finishes-IsSlot p k j i d c busy at_j at_i (s, at, known, seen) = elim (Bool-cases (j == i)) [
      | inl e ↦
          let same : j ≡ i = (==_iff j i).0 e in
          let value : c ≡ d = cc in
          let here : (s ≡ none) ⊎ (s ≡ d) = rw (← value) known in
          let at' : get_elem? p.slots j ≡ some s = rw same at in
          (
            d,
            rw (← same) (get_elem?-write_slot j d s p.slots here at'),
            inr (sym value),
            λ below. inr (sym value),
          )
      | inr e ↦ (
        s,
        get_elem?-write_slot_other j i d p.slots e ∙ at,
        known,
        λ below. elim (seen below) [
          | inl there ↦ inl (is_taken-set_worker i k (works j) idle p.workers busy e there)
          | inr done ↦ inr done
        ],
      )
    ]

    leaves-IsSlot :
        (p : Pool C) (k i : ℕ) (c : Option C)
        → get_elem? p.workers k ≡ some idle
        → i < p.next
        → IsSlot p i c
        → IsSlot (record p { next = suc p.next; workers = set_worker k left p.workers }) i c
    leaves-IsSlot p k i c free drawn (s, at, known, seen) = (
      s,
      at,
      known,
      λ below. elim (seen drawn) [
        | inl there ↦ inl (is_taken-set_worker i k idle left p.workers free refl there)
        | inr done ↦ inr done
      ],
    )

    pub reached-IsPool : (p : Pool C) → IsReached collected p → IsPool p
    reached-IsPool _ starts = (
      length-empty_slots collected,
      length-idle_workers (worker_count collected),
      λ h. absurd (cc (sym (none_left-idle (worker_count collected)) ∙ h)),
      λ i c h. (none, get_elem?-empty_slots i c collected h, inl refl, λ below. ground arith),
    )
    reached-IsPool _ (steps p _ r (takes _ k free more)) =
        let (len, count, gone, slot) = reached-IsPool p r in
        (
          len,
          length-set_worker k (works p.next) p.workers ∙ count,
          λ h.
              let over = gone (any-is_left-set_worker k (works p.next) p.workers refl h) in
              omega (arith, over),
          λ i c h. takes-IsSlot p k i c free (slot i c h),
        )
    reached-IsPool _ (steps p _ r (leaves _ k free over)) =
        let (len, count, gone, slot) = reached-IsPool p r in
        (
          len,
          length-set_worker k left p.workers ∙ count,
          λ h. omega (arith, over),
          λ i c h.
              let inside = get_elem?-lt i c collected h in
              leaves-IsSlot p k i c free (omega (arith, inside, over)) (slot i c h),
        )
    reached-IsPool _ (steps p _ r (finishes _ k j d busy at)) =
        let (len, count, gone, slot) = reached-IsPool p r in
        (
          length-write_slot j d p.slots ∙ len,
          length-set_worker k idle p.workers ∙ count,
          λ h. gone (any-is_left-set_worker k idle p.workers refl h),
          λ i c h. finishes-IsSlot p k j i d c busy at h (slot i c h),
        )

    -- When every worker has left its loop, whatever the order of their steps, the slots are what
    -- collecting each adapter gives, in the order of the adapters.
    pub reached-Filled :
        (p : Pool C) → IsReached collected p → IsJoined collected p → p.slots ≡ collected
    reached-Filled p r joined =
        let (len, count, gone, slot) = reached-IsPool p r in
        same_elements p.slots collected len (λ i c h.
          let (s, at, known, seen) = slot i c h in
          let inside = get_elem?-lt i c collected h in
          let busy : 1 ≤ length p.workers = rw count (omega (arith, inside)) in
          let over = gone (all_left-any p.workers busy joined) in
          elim (seen (omega (arith, inside, over))) [
            | inl there ↦ absurd (cc (sym (all_left-is_taken i p.workers joined) ∙ there))
            | inr done ↦ rw (← done) at
          ])
