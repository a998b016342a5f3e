-- ===== src/Storage/Alerts/Distinct.antt =====
-- The tables that the statements reach keep one row per key and per id.
use lnwdeck.Prelude.{
  ℕ, suc, ◌≡◌, refl, ◌∙◌, Bool, false, not, ◌&&◌, ◌||◌, none, some, List, [], ◌∷◌, ◌++◌, find,
  filter, any, is_some, is_nil, if◌then◌else◌, ltb, ◌==◌, arith, Bool-cases, Option-cases, inl, inr,
}
use lnwdeck.Prelude.Text.{Text, text_eq, text_eq_comm}
use lnwdeck.Domain.Usage.{Instant}
use lnwdeck.Storage.Alerts.{
  AlertRow, AlertTable, AlertObservation, is_open, is_unread, has_key, update_where, observed_again,
  observed_first, observe, resolve_missing, is_missing, acknowledge, acknowledge_all_open,
  prune_resolved, is_resolved_before,
}

-- No two rows have the same key, or the same id, and the ids given are below the next one.
abbrev pub AreDistinct : List AlertRow → Type 0
AreDistinct [] = Unit
AreDistinct (r ∷ rows) =
    (any (has_key r.alert_key) rows ≡ false)
    × (any (λ s. s.id == r.id) rows ≡ false)
    × AreDistinct rows

abbrev pub IsTable : AlertTable → Type 0
IsTable t = AreDistinct t.rows × (any (λ r. not (ltb r.id t.next_id)) t.rows ≡ false)

-- A change that keeps the key and the id of each row.
abbrev pub Keeps : (AlertRow → AlertRow) → Type 0
Keeps change = (r : AlertRow) → ((change r).alert_key ≡ r.alert_key) × ((change r).id ≡ r.id)

any-update :
    (p : AlertRow → Bool) (change : AlertRow → AlertRow) (test : Text → ℕ → Bool)
    (rows : List AlertRow)
    → Keeps change
    → any (λ r. test r.alert_key r.id) (update_where p change rows)
      ≡ any (λ r. test r.alert_key r.id) rows
unfolding update_where
any-update p change test [] keeps = refl
any-update p change test (r ∷ rows) keeps =
    let ih = any-update p change test rows keeps in
    let (key, id) = keeps r in
    elim (Bool-cases (p r)) [ inl e ↦ rw (e, key, id, ih) refl | inr e ↦ rw (e, ih) refl ]

AreDistinct-update :
    (p : AlertRow → Bool) (change : AlertRow → AlertRow) (rows : List AlertRow)
    → Keeps change
    → AreDistinct rows
    → AreDistinct (update_where p change rows)
unfolding update_where
AreDistinct-update p change [] keeps d = tt
AreDistinct-update p change (r ∷ rows) keeps (keys, ids, d) =
    let (key, id) = keeps r in
    let same_keys = any-update p change (λ k i. text_eq k r.alert_key) rows keeps in
    let same_ids = any-update p change (λ k i. i == r.id) rows keeps in
    let rest = AreDistinct-update p change rows keeps d in
    elim (Bool-cases (p r)) [
      | inl e ↦ rw (e, key, id) (same_keys ∙ keys, same_ids ∙ ids, rest)
      | inr e ↦ rw e (same_keys ∙ keys, same_ids ∙ ids, rest)
    ]

IsTable-update :
    (t : AlertTable) (p : AlertRow → Bool) (change : AlertRow → AlertRow)
    → Keeps change
    → IsTable t
    → IsTable (record t { rows = update_where p change t.rows })
IsTable-update t p change keeps (distinct, below) = (
  AreDistinct-update p change t.rows keeps distinct,
  any-update p change (λ k i. not (ltb i t.next_id)) t.rows keeps ∙ below,
)

any-filter :
    (p q : AlertRow → Bool) (rows : List AlertRow)
    → any q rows ≡ false
    → any q (filter p rows) ≡ false
any-filter p q [] h = refl
any-filter p q (r ∷ rows) h = ground (arith, any-filter p q rows)

AreDistinct-filter :
    (p : AlertRow → Bool) (rows : List AlertRow) → AreDistinct rows → AreDistinct (filter p rows)
AreDistinct-filter p [] d = tt
AreDistinct-filter p (r ∷ rows) (keys, ids, d) =
    let rest = AreDistinct-filter p rows d in
    elim (Bool-cases (p r)) [
      | inl e ↦ rw e (
        any-filter p (has_key r.alert_key) rows keys,
        any-filter p (λ s. s.id == r.id) rows ids,
        rest,
      )
      | inr e ↦ rw e rest
    ]

any-append :
    (q : AlertRow → Bool) (rows : List AlertRow) (r : AlertRow)
    → any q (rows ++ r ∷ []) ≡ (any q rows || q r)
any-append q [] r = ground arith
any-append q (x ∷ rows) r = ground (arith, any-append q rows r)

AreDistinct-append :
    (rows : List AlertRow) (r : AlertRow)
    → AreDistinct rows
    → any (has_key r.alert_key) rows ≡ false
    → any (λ s. s.id == r.id) rows ≡ false
    → AreDistinct (rows ++ r ∷ [])
AreDistinct-append [] r d key id = (refl, refl, tt)
AreDistinct-append (x ∷ rows) r (keys, ids, d) key id =
    let flip = text_eq_comm x.alert_key r.alert_key in
    let all_keys = any-append (has_key x.alert_key) rows r in
    let all_ids = any-append (λ s. s.id == x.id) rows r in
    (ground arith, ground arith, AreDistinct-append rows r d (ground arith) (ground arith))

find-none :
    (key : Text) (rows : List AlertRow)
    → find (has_key key) rows ≡ none
    → any (has_key key) rows ≡ false
find-none key [] h = refl
find-none key (r ∷ rows) h = ground (arith, find-none key rows)

next_id-fresh :
    (n : ℕ) (rows : List AlertRow)
    → any (λ r. not (ltb r.id n)) rows ≡ false
    → any (λ s. s.id == n) rows ≡ false
next_id-fresh n [] h = refl
next_id-fresh n (r ∷ rows) h = ground (arith, next_id-fresh n rows)

below-suc :
    (n : ℕ) (rows : List AlertRow)
    → any (λ r. not (ltb r.id n)) rows ≡ false
    → any (λ r. not (ltb r.id (suc n))) rows ≡ false
below-suc n [] h = refl
below-suc n (r ∷ rows) h = ground (arith, below-suc n rows)

observe-IsTable :
    (now : Instant) (o : AlertObservation) (t : AlertTable)
    → IsTable t
    → IsTable (observe now o t).0
unfolding observe
observe-IsTable now o t table = elim (Option-cases (find (has_key o.alert_key) t.rows)) [
  | inl e ↦
      let fresh = observed_first now o t.next_id in
      let below = any-append (λ r. not (ltb r.id (suc t.next_id))) t.rows fresh in
      let older = below-suc t.next_id t.rows table.1 in
      rw e (
        AreDistinct-append t.rows fresh table.0 (find-none o.alert_key t.rows e)
            (next_id-fresh t.next_id t.rows table.1),
        ground arith,
      )
  | inr (r, e) ↦ rw e (
      IsTable-update t (λ x. x.id == r.id) (observed_again now o (is_some r.resolved_at))
        (λ x. (refl, refl)) table)
]

pub data IsReachable : AlertTable → Type 0 where
  created : IsReachable (record { rows = []; next_id = 1 })
  observed :
      (now : Instant) (o : AlertObservation) (t : AlertTable)
      → IsReachable t
      → IsReachable (observe now o t).0
  resolved :
      (now : Instant) (active : List Text) (t : AlertTable)
      → IsReachable t
      → IsReachable (resolve_missing now active t).0
  acknowledged :
      (now : Instant) (id : ℕ) (t : AlertTable)
      → IsReachable t
      → IsReachable (acknowledge now id t).0
  all_acknowledged :
      (now : Instant) (t : AlertTable) → IsReachable t → IsReachable (acknowledge_all_open now t).0
  pruned :
      (before : Instant) (t : AlertTable) → IsReachable t → IsReachable (prune_resolved before t).0

-- In a table that the statements reach from the empty one, no two rows have the same key or the
-- same id, and each id is below the next one.
pub reached-IsTable : (t : AlertTable) → IsReachable t → IsTable t
unfolding resolve_missing acknowledge acknowledge_all_open prune_resolved
reached-IsTable _ created = (tt, refl)
reached-IsTable _ (observed now o t r) = observe-IsTable now o t (reached-IsTable t r)
reached-IsTable _ (resolved now active t r) =
    IsTable-update t (if is_nil active then is_open else is_missing active)
      (λ x. record x { resolved_at = some now }) (λ x. (refl, refl)) (reached-IsTable t r)
reached-IsTable _ (acknowledged now id t r) =
    IsTable-update t (λ x. x.id == id && is_unread x) (λ x. record x { acknowledged_at = some now })
      (λ x. (refl, refl)) (reached-IsTable t r)
reached-IsTable _ (all_acknowledged now t r) =
    IsTable-update t (λ x. is_open x && is_unread x) (λ x. record x { acknowledged_at = some now })
      (λ x. (refl, refl)) (reached-IsTable t r)
reached-IsTable _ (pruned before t r) =
    let (distinct, below) = reached-IsTable t r in
    let keep = λ (x : AlertRow). not (is_resolved_before before x.resolved_at) in
    (
      AreDistinct-filter keep t.rows distinct,
      any-filter keep (λ x. not (ltb x.id t.next_id)) t.rows below,
    )
