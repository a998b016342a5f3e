-- ===== src/Runtime/Scheduler/Backoff.antt =====
-- The backoff of an adapter after failures and successes.
use lnwdeck.Prelude.{
  ℕ, zero, suc, ◌*◌, ◌^◌, ◌≤◌, ◌≡◌, refl, sym, ap, ◌∙◌, Bool, min, ◌<◌, ltb, is_some, if◌then◌else◌,
  true, false, Option, none, some, List, [], ◌∷◌, length, arith, leb, Bool-cases, Option-cases, inl,
  inr,
}
use mathlib.Core.Option.{some-injective}
use native.Mathlib.Omega.{pow_step}
use lnwdeck.Prelude.Text.{Text, text_eq}
use lnwdeck.Prelude.Maps.{lookup, unwrap_or, lookup-upsert, lookup-upsert_other}
use lnwdeck.Domain.Float.{F64}
use lnwdeck.Domain.Usage.{Instant}
use lnwdeck.Runtime.Scheduler.{
  inserted, succeeded, failed, AdaptiveScheduler, AdapterState, mark_success, marked_failure,
  mark_failure, fitting, duration_end,
}

le_mul_pow : (m n : ℕ) → m ≤ m * 2 ^ n
le_mul_pow m zero = omega arith
le_mul_pow m (suc n) =
    let ih = le_mul_pow m n in let e = ap (λ x. m * x) (pow_step 2 n) in grind (arith, ih, e)

large_le : (b m : ℕ) → leb (b * 2) m ≡ false → m ≤ b * 2
large_le b m h = ground arith

module _ (F : F64) where
  -- The backoff that a turn reads: the base one of an adapter with no state.
  abbrev pub backoff_of : AdaptiveScheduler F → Text → ℕ
  backoff_of s id = elim (lookup id s.states) [
    | none ↦ s.config.base_backoff
    | some st ↦ st.backoff
  ]

  -- Failures of one adapter, at the given times.
  unfoldable pub failures : AdaptiveScheduler F → Text → List Instant → Option (AdaptiveScheduler F)
  failures s id [] = some s
  failures s id (now ∷ nows) = elim (mark_failure F s id now) [
    | none ↦ none
    | some t ↦ failures t id nows
  ]

  pub backoff_read :
      (s : AdaptiveScheduler F) (id : Text) (default : AdapterState)
      → default.backoff ≡ s.config.base_backoff
      → (unwrap_or default (lookup id s.states)).backoff ≡ backoff_of s id
  backoff_read s id default e = elim (Option-cases (lookup id s.states)) [
    | inl absent ↦ rw (backoff_of, unwrap_or, absent) e
    | inr (st, present) ↦ rw (backoff_of, unwrap_or, present) refl
  ]

  -- A doubling that fits does not panic.
  pub mark_failure-some :
      (s : AdaptiveScheduler F) (id : Text) (now : Instant)
      → backoff_of s id * 2 < duration_end
      → mark_failure F s id now ≡ some (marked_failure F s id now)
  unfolding mark_failure fitting
  mark_failure-some s id now h =
      let fits : ltb (backoff_of s id * 2) duration_end ≡ true = ground (arith, h) in
      let read = backoff_read s id (inserted F s now none) refl in
      ap
        (λ b.
          if is_some (if ltb (b * 2) duration_end then some (b * 2) else none)
          then some (marked_failure F s id now)
          else none)
        read
      ∙ ap
          (λ b.
            if is_some (if b then some (backoff_of s id * 2) else none)
            then some (marked_failure F s id now)
            else none)
          fits

  pub mark_failure-marked :
      (s t : AdaptiveScheduler F) (id : Text) (now : Instant)
      → mark_failure F s id now ≡ some t
      → t ≡ marked_failure F s id now
  unfolding mark_failure
  mark_failure-marked s t id now h =
      of_test
        (is_some (fitting ((unwrap_or (inserted F s now none) (lookup id s.states)).backoff * 2)))
        (marked_failure F s id now) h
    where
      of_test : (b : Bool) (u : AdaptiveScheduler F) → (if b then some u else none) ≡ some t → t ≡ u
      of_test true u h = sym (some-injective u t h)
      of_test false u h = cc

  pub backoff_of-marked_failure :
      (s : AdaptiveScheduler F) (id : Text) (now : Instant)
      → backoff_of (marked_failure F s id now) id ≡ min (backoff_of s id * 2) s.config.max_backoff
  unfolding marked_failure
  backoff_of-marked_failure s id now =
      let after = lookup-upsert id (inserted F s now none) (failed F s now) s.states in
      elim (Option-cases (lookup id s.states)) [
        | inl e ↦ rw (backoff_of, after, e) refl
        | inr (st, e) ↦ rw (backoff_of, after, e) refl
      ]

  pub backoff_of-mark_success :
      (s : AdaptiveScheduler F) (id : Text) (now : Instant)
      → backoff_of (mark_success F s id now) id ≡ s.config.base_backoff
  unfolding mark_success
  backoff_of-mark_success s id now =
      rw (backoff_of, lookup-upsert id (inserted F s now (some now)) (succeeded F s now) s.states)
        refl

  pub backoff_of-marked_failure_other :
      (s : AdaptiveScheduler F) (id other : Text) (now : Instant)
      → text_eq id other ≡ false
      → backoff_of (marked_failure F s id now) other ≡ backoff_of s other
  unfolding marked_failure
  backoff_of-marked_failure_other s id other now h =
      rw
        (
          backoff_of,
          lookup-upsert_other id other (inserted F s now none) (failed F s now) s.states h,
        )
        refl

  pub backoff_of-mark_success_other :
      (s : AdaptiveScheduler F) (id other : Text) (now : Instant)
      → text_eq id other ≡ false
      → backoff_of (mark_success F s id now) other ≡ backoff_of s other
  unfolding mark_success
  backoff_of-mark_success_other s id other now h =
      rw
        (
          backoff_of,
          lookup-upsert_other id other (inserted F s now (some now)) (succeeded F s now) s.states h,
        )
        refl

  doubled_twice : (b m n : ℕ) → min (min (b * 2) m * 2 ^ n) m ≡ min (b * 2 ^ suc n) m
  doubled_twice b m n =
      let same : b * 2 ^ suc n ≡ b * 2 * 2 ^ n =
        let e = ap (λ x. b * x) (pow_step 2 n) in grind (arith, e) in
      elim (Bool-cases (leb (b * 2) m)) [
        | inl small ↦ let low : min (b * 2) m ≡ b * 2 = grind arith in rw (low, same) refl
        | inr large ↦
            let high : min (b * 2) m ≡ m = grind arith in
            let grows = le_mul_pow m n in
            let grown = le_mul_pow (b * 2) n in
            rw (high, same) (omega (arith, grows, grown, large_le b m large))
      ]

  failures_from :
      (s : AdaptiveScheduler F) (id : Text) (nows : List Instant)
      → backoff_of s id ≤ s.config.max_backoff
      → s.config.max_backoff * 2 < duration_end
      → (t : AdaptiveScheduler F) × (failures s id nows ≡ some t)
        × (backoff_of t id ≡ min (backoff_of s id * 2 ^ length nows) s.config.max_backoff)
  unfolding failures marked_failure
  failures_from s id [] h fits = (s, refl, omega (arith, h))
  failures_from s id (now ∷ nows) h fits =
      let next = marked_failure F s id now in
      let once = backoff_of-marked_failure s id now in
      let within : backoff_of next id ≤ s.config.max_backoff = rw once (omega arith) in
      let (t, reached, doubled) = failures_from next id nows within fits in
      let marked = mark_failure-some s id now (omega (arith, h, fits)) in
      (
        t,
        ap (λ o. elim o [ none ↦ none | some u ↦ failures u id nows ]) marked ∙ reached,
        doubled
            ∙ ap (λ b. min (b * 2 ^ length nows) s.config.max_backoff) once
            ∙ doubled_twice (backoff_of s id) s.config.max_backoff (length nows),
      )

  -- After a success and then n failures in a row, none of which panics, the backoff of an adapter is
  -- the base one doubled n times, or the greatest one where that is less. The base backoff is at most
  -- the greatest one, and the double of that is a duration.
  pub failures-mark_success :
      (s : AdaptiveScheduler F) (id : Text) (now : Instant) (nows : List Instant)
      → s.config.base_backoff ≤ s.config.max_backoff
      → s.config.max_backoff * 2 < duration_end
      → (t : AdaptiveScheduler F) × (failures (mark_success F s id now) id nows ≡ some t)
        × (backoff_of t id ≡ min (s.config.base_backoff * 2 ^ length nows) s.config.max_backoff)
  unfolding mark_success
  failures-mark_success s id now nows h fits =
      let reset = backoff_of-mark_success s id now in
      let within : backoff_of (mark_success F s id now) id ≤ s.config.max_backoff = rw reset h in
      let (t, reached, doubled) = failures_from (mark_success F s id now) id nows within fits in
      (t, reached, doubled ∙ ap (λ b. min (b * 2 ^ length nows) s.config.max_backoff) reset)
