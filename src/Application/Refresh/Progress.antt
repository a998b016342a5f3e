-- ===== src/Application/Refresh/Progress.antt =====
-- The workers come to an end: each step leaves less to do, and until all have left one is open.
use lnwdeck.Prelude.{
  ℕ, zero, suc, ◌+◌, ◌*◌, ◌-◌, ◌<◌, ◌≤◌, ◌≡◌, refl, ap, Bool, true, Option, some, List, [], ◌∷◌,
  length, all, get_elem?, leb, ◌⊎◌, inl, inr, arith, Bool-cases,
}
use mathlib.Core.Option.{some-injective}
use lnwdeck.Application.Refresh.Filled.{reached-IsPool}
use lnwdeck.Application.Refresh.{
  Pool, Worker, idle, works, left, set_worker, is_left, idle_workers, Step, takes, leaves, finishes,
  IsReached, starts, steps, IsJoined, write_slot, worker_count,
}

-- The steps that the workers have still to make, but for the indices that nobody has drawn.
abbrev steps_of : Worker → ℕ
steps_of left = 0
steps_of idle = 1
steps_of (works i) = 2

steps_left : List Worker → ℕ
steps_left [] = 0
steps_left (w ∷ ws) = steps_of w + steps_left ws

steps_left-set_worker :
    (k : ℕ) (v w : Worker) (ws : List Worker)
    → get_elem? ws k ≡ some v
    → steps_left (set_worker k w ws) + steps_of v ≡ steps_left ws + steps_of w
unfolding steps_left set_worker
steps_left-set_worker k v w [] at = cc
steps_left-set_worker zero v w (x ∷ ws) at =
    let same : steps_of x ≡ steps_of v = ap steps_of (some-injective x v at) in omega (arith, same)
steps_left-set_worker (suc k) v w (x ∷ ws) at =
    let later = steps_left-set_worker k v w ws at in omega (arith, later)

steps_left-idle_workers : (n : ℕ) → steps_left (idle_workers n) ≡ n
unfolding steps_left
steps_left-idle_workers zero = refl
steps_left-idle_workers (suc n) = let ih = steps_left-idle_workers n in omega (arith, ih)

-- The worker's index is one of the first n.
abbrev is_below : ℕ → Worker → Bool
is_below n idle = true
is_below n left = true
is_below n (works i) = leb (suc i) n

are_below-set_worker :
    (n k : ℕ) (w : Worker) (ws : List Worker)
    → is_below n w ≡ true
    → all (is_below n) ws ≡ true
    → all (is_below n) (set_worker k w ws) ≡ true
unfolding set_worker
are_below-set_worker n k w [] h below = refl
are_below-set_worker n zero w (x ∷ ws) h below = ground arith
are_below-set_worker n (suc k) w (x ∷ ws) h below =
    let later = are_below-set_worker n k w ws h in ground arith

are_below-idle_workers : (n m : ℕ) → all (is_below n) (idle_workers m) ≡ true
are_below-idle_workers n zero = refl
are_below-idle_workers n (suc m) = are_below-idle_workers n m

-- A worker that has not left is idle or at work.
abbrev Busy : ℕ → List Worker → Type 0
Busy n ws =
    (k : ℕ) × ((get_elem? ws k ≡ some idle)
      ⊎ ((i : ℕ) × (get_elem? ws k ≡ some (works i)) × (i < n)))

later-Busy : (n : ℕ) (w : Worker) (ws : List Worker) → Busy n ws → Busy n (w ∷ ws)
later-Busy n w ws (k, h) = (suc k, h)

all_left-Busy :
    (n : ℕ) (ws : List Worker) → all (is_below n) ws ≡ true → (all is_left ws ≡ true) ⊎ Busy n ws
all_left-Busy n [] below = inl refl
all_left-Busy n (idle ∷ ws) below = inr (0, inl refl)
all_left-Busy n (works i ∷ ws) below = inr (0, inr (i, refl, ground arith))
all_left-Busy n (left ∷ ws) below = elim (all_left-Busy n ws below) [
  | inl h ↦ inl h
  | inr busy ↦ inr (later-Busy n left ws busy)
]

module _ {C : Type 0} where
  get_elem?-below :
      (i : ℕ) (collected : List (Option C))
      → i < length collected
      → (c : Option C) × (get_elem? collected i ≡ some c)
  get_elem?-below i [] h = ground arith
  get_elem?-below zero (x ∷ collected) h = (x, refl)
  get_elem?-below (suc i) (x ∷ collected) h = get_elem?-below i collected (omega (arith, h))

  module _ (collected : List (Option C)) where
    -- An index that nobody has drawn takes two steps, a worker as many as are left to it.
    abbrev work_left : Pool C → ℕ
    work_left p = (length collected - p.next) * 2 + steps_left p.workers

    -- How many steps led to a pool.
    pub step_count : (p : Pool C) → IsReached collected p → ℕ
    step_count _ starts = 0
    step_count _ (steps p _ r step) = suc (step_count p r)

    Step-work_left : (p q : Pool C) → Step collected p q → work_left q < work_left p
    Step-work_left p _ (takes _ k free more) =
        let moved = steps_left-set_worker k idle (works p.next) p.workers free in
        omega (arith, moved, more)
    Step-work_left p _ (leaves _ k free over) =
        let moved = steps_left-set_worker k idle left p.workers free in omega (arith, moved, over)
    Step-work_left p _ (finishes _ k i c busy at) =
        let moved = steps_left-set_worker k (works i) idle p.workers busy in omega (arith, moved)

    step_count-work_left :
        (p : Pool C) (r : IsReached collected p)
        → step_count p r + work_left p ≤ length collected * 2 + worker_count collected
    unfolding step_count
    step_count-work_left _ starts =
        let all = steps_left-idle_workers (worker_count collected) in omega (arith, all)
    step_count-work_left _ (steps p q r step) =
        let ih = step_count-work_left p r in
        let less = Step-work_left p q step in omega (arith, ih, less)

    indices-below :
        (p : Pool C) → IsReached collected p → all (is_below (length collected)) p.workers ≡ true
    indices-below _ starts = are_below-idle_workers (length collected) (worker_count collected)
    indices-below _ (steps p _ r (takes _ k free more)) =
        are_below-set_worker (length collected) k (works p.next) p.workers (ground arith)
          (indices-below p r)
    indices-below _ (steps p _ r (leaves _ k free over)) =
        are_below-set_worker (length collected) k left p.workers refl (indices-below p r)
    indices-below _ (steps p _ r (finishes _ k i c busy at)) =
        are_below-set_worker (length collected) k idle p.workers refl (indices-below p r)

    Busy-Step : (p : Pool C) → Busy (length collected) p.workers → (q : Pool C) × Step collected p q
    Busy-Step p (k, inl free) = elim (Bool-cases (leb (length collected) p.next)) [
      | inl over ↦ (
        record p { next = suc p.next; workers = set_worker k left p.workers },
        leaves p k free (ground arith),
      )
      | inr more ↦ (
        record p { next = suc p.next; workers = set_worker k (works p.next) p.workers },
        takes p k free (grind arith),
      )
    ]
    Busy-Step p (k, inr (i, busy, inside)) =
        let (c, at) = get_elem?-below i collected inside in
        (
          record p { workers = set_worker k idle p.workers; slots = write_slot i c p.slots },
          finishes p k i c busy at,
        )

    -- However the workers interleave, they make at most two steps for each adapter and one for each
    -- of themselves, at most four, and until each has left its loop some step is open.
    pub reached-Progress :
        (p : Pool C) (r : IsReached collected p)
        → (step_count p r ≤ length collected * 2 + length p.workers)
          × (length p.workers ≤ 4)
          × (IsJoined collected p ⊎ ((q : Pool C) × Step collected p q))
    reached-Progress p r =
        let count = (reached-IsPool collected p r).1 in
        let bound = step_count-work_left p r in
        let few : length p.workers ≤ 4 = rw count (omega arith) in
        (
          rw count (omega (arith, bound)),
          few,
          elim (all_left-Busy (length collected) p.workers (indices-below p r)) [
            | inl joined ↦ inl joined
            | inr busy ↦ inr (Busy-Step p busy)
          ],
        )
