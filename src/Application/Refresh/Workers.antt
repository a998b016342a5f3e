-- ===== src/Application/Refresh/Workers.antt =====
-- Which indices the workers have, and who has left.
use lnwdeck.Prelude.{
  ℕ, zero, suc, ◌≤◌, ◌≡◌, refl, ap, Bool, true, false, some, List, [], ◌∷◌, length, any, all, ◌==◌,
  ==_iff, get_elem?, inl, inr, arith, Bool-cases,
}
use mathlib.Core.Option.{some-injective}
use lnwdeck.Application.Refresh.{Worker, idle, works, left, set_worker, is_left, idle_workers}

-- The worker is at work on the index.
abbrev pub has_index : ℕ → Worker → Bool
has_index i idle = false
has_index i left = false
has_index i (works j) = j == i

abbrev pub is_taken : ℕ → List Worker → Bool
is_taken i ws = any (has_index i) ws

pub length-set_worker :
    (k : ℕ) (w : Worker) (ws : List Worker) → length (set_worker k w ws) ≡ length ws
unfolding set_worker
length-set_worker k w [] = refl
length-set_worker zero w (v ∷ ws) = refl
length-set_worker (suc k) w (v ∷ ws) = ap suc (length-set_worker k w ws)

pub length-idle_workers : (n : ℕ) → length (idle_workers n) ≡ n
length-idle_workers zero = refl
length-idle_workers (suc n) = ap suc (length-idle_workers n)

-- An index that another worker has stays taken.
pub is_taken-set_worker :
    (i k : ℕ) (v w : Worker) (ws : List Worker)
    → get_elem? ws k ≡ some v
    → has_index i v ≡ false
    → is_taken i ws ≡ true
    → is_taken i (set_worker k w ws) ≡ true
unfolding set_worker
is_taken-set_worker i k v w [] at h t = t
is_taken-set_worker i zero v w (x ∷ ws) at h t =
    let same : x ≡ v = some-injective x v at in
    let free : has_index i x ≡ false = rw same h in
    let others : is_taken i ws ≡ true = ground (arith, t, free) in ground (arith, others)
is_taken-set_worker i (suc k) v w (x ∷ ws) at h t = elim (Bool-cases (has_index i x)) [
  | inl e ↦ rw e refl
  | inr e ↦
      let later : is_taken i ws ≡ true = ground (arith, t, e) in
      rw e (is_taken-set_worker i k v w ws at h later)
]

pub taken_now :
    (i k : ℕ) (v : Worker) (ws : List Worker)
    → get_elem? ws k ≡ some v
    → is_taken i (set_worker k (works i) ws) ≡ true
unfolding set_worker
taken_now i k v [] at = cc
taken_now i zero v (x ∷ ws) at = rw ((==_iff i i).1 refl) refl
taken_now i (suc k) v (x ∷ ws) at = let later = taken_now i k v ws at in ground (arith, later)

-- Who has left stays so, and a worker that has left has no index.
pub any-is_left-set_worker :
    (k : ℕ) (w : Worker) (ws : List Worker)
    → is_left w ≡ false
    → any is_left (set_worker k w ws) ≡ true
    → any is_left ws ≡ true
unfolding set_worker
any-is_left-set_worker k w [] h t = t
any-is_left-set_worker zero w (x ∷ ws) h t = ground arith
any-is_left-set_worker (suc k) w (x ∷ ws) h t =
    let later = any-is_left-set_worker k w ws h in ground arith

pub all_left-is_taken : (i : ℕ) (ws : List Worker) → all is_left ws ≡ true → is_taken i ws ≡ false
all_left-is_taken i [] h = refl
all_left-is_taken i (left ∷ ws) h = all_left-is_taken i ws h
all_left-is_taken i (idle ∷ ws) h = cc
all_left-is_taken i (works j ∷ ws) h = cc

pub all_left-any :
    (ws : List Worker) → 1 ≤ length ws → all is_left ws ≡ true → any is_left ws ≡ true
all_left-any [] some_worker h = ground arith
all_left-any (w ∷ ws) some_worker h = ground arith

pub none_left-idle : (n : ℕ) → any is_left (idle_workers n) ≡ false
none_left-idle zero = refl
none_left-idle (suc n) = none_left-idle n
