-- ===== src/Storage/Alerts/Open.antt =====
-- Which keys have an open alert after a statement.
use lnwdeck.Prelude.{
  ℕ, ◌≡◌, refl, ap, Bool, true, ◌&&◌, ◌||◌, some, List, [], ◌∷◌, ◌++◌, find, any, is_some, ◌==◌,
  ==_iff, arith, Bool-cases, Option-cases, inl, inr,
}
use lnwdeck.Prelude.Text.{Text, text_eq, text_eq_sound, text_eq_refl}
use lnwdeck.Domain.Usage.{Instant}
use lnwdeck.Storage.Alerts.{
  AlertRow, AlertTable, AlertObservation, is_open, is_unread, has_key, update_where, count_where,
  observed_again, observed_first, observe, resolve_missing, is_missing, acknowledge_all_open,
  unacknowledged_open_count,
}

abbrev pub is_open_key : Text → List AlertRow → Bool
is_open_key key rows = any (λ r. text_eq r.alert_key key && is_open r) rows

any-key :
    (key : Text) (r : AlertRow) (active : List Text)
    → text_eq r.alert_key key ≡ true
    → any (text_eq r.alert_key) active ≡ any (text_eq key) active
any-key key r active h = ap (λ k. any (text_eq k) active) (text_eq_sound r.alert_key key h)

is_open_key-resolved :
    (now : Instant) (p : AlertRow → Bool) (active : List Text) (key : Text) (rows : List AlertRow)
    → ((r : AlertRow) → p r ≡ is_missing active r)
    → is_open_key key (update_where p (λ r. record r { resolved_at = some now }) rows)
      ≡ (is_open_key key rows && any (text_eq key) active)
unfolding update_where
is_open_key-resolved now p active key [] h = refl
is_open_key-resolved now p active key (r ∷ rows) h =
    let ih = is_open_key-resolved now p active key rows h in
    let changed = h r in
    elim (Bool-cases (text_eq r.alert_key key)) [
      | inl e ↦ let same = any-key key r active e in ground arith
      | inr e ↦ ground arith
    ]

-- Resolving what is missing leaves open exactly the keys that were open and are active.
pub is_open_key-resolve_missing :
    (now : Instant) (active : List Text) (t : AlertTable) (key : Text)
    → is_open_key key ((resolve_missing now active t).0.rows)
      ≡ (is_open_key key t.rows && any (text_eq key) active)
unfolding resolve_missing
is_open_key-resolve_missing now [] t key =
    is_open_key-resolved now is_open [] key t.rows (λ r. ground arith)
is_open_key-resolve_missing now (a ∷ active) t key =
    is_open_key-resolved now (is_missing (a ∷ active)) (a ∷ active) key t.rows (λ r. refl)

still_open :
    (now : Instant) (o : AlertObservation) (was : Bool) (id : ℕ) (key : Text) (rows : List AlertRow)
    → is_open_key key rows ≡ true
    → is_open_key key (update_where (λ r. r.id == id) (observed_again now o was) rows) ≡ true
unfolding update_where
still_open now o was id key [] h = cc
still_open now o was id key (r ∷ rows) h = ground (arith, still_open now o was id key rows)

now_open :
    (now : Instant) (o : AlertObservation) (was : Bool) (found : AlertRow) (rows : List AlertRow)
    → find (has_key o.alert_key) rows ≡ some found
    → is_open_key o.alert_key (update_where (λ r. r.id == found.id) (observed_again now o was) rows)
      ≡ true
unfolding update_where
now_open now o was found [] h = cc
now_open now o was found (r ∷ rows) h = elim (Bool-cases (text_eq r.alert_key o.alert_key)) [
  | inl e ↦
      let same : r ≡ found = ground arith in
      let ids : (r.id == found.id) ≡ true = rw (← same) ((==_iff r.id r.id).1 refl) in ground arith
  | inr e ↦ ground (arith, now_open now o was found rows)
]

is_open_key-append :
    (key : Text) (rows : List AlertRow) (r : AlertRow)
    → is_open_key key (rows ++ r ∷ [])
      ≡ (is_open_key key rows || (text_eq r.alert_key key && is_open r))
is_open_key-append key [] r = ground arith
is_open_key-append key (x ∷ rows) r = ground (arith, is_open_key-append key rows r)

-- An observation's key is open after it, and what was open stays open.
pub is_open_key-observe :
    (now : Instant) (o : AlertObservation) (t : AlertTable)
    → (is_open_key o.alert_key ((observe now o t).0.rows) ≡ true)
      × ((key : Text)
          → is_open_key key t.rows ≡ true
          → is_open_key key ((observe now o t).0.rows) ≡ true)
unfolding observe
is_open_key-observe now o t = elim (Option-cases (find (has_key o.alert_key) t.rows)) [
  | inl e ↦
      let fresh = observed_first now o t.next_id in
      let own = text_eq_refl o.alert_key in
      let appended = is_open_key-append o.alert_key t.rows fresh in
      (
        rw e (ground arith),
        λ key h. let there = is_open_key-append key t.rows fresh in rw e (ground arith),
      )
  | inr (r, e) ↦
      let was = is_some r.resolved_at in
      (rw e (now_open now o was r t.rows e), λ key h. rw e (still_open now o was r.id key t.rows h))
]

update_where-none :
    (now : Instant) (rows : List AlertRow)
    → count_where
        (λ r. is_open r && is_unread r)
        (update_where
          (λ r. is_open r && is_unread r)
          (λ r. record r { acknowledged_at = some now })
          rows)
      ≡ 0
unfolding update_where
update_where-none now [] = refl
update_where-none now (r ∷ rows) = ground (arith, update_where-none now rows)

-- Acknowledging all open alerts leaves none unread, and returns how many there were.
pub unacknowledged_open_count-acknowledge_all_open :
    (now : Instant) (t : AlertTable)
    → (unacknowledged_open_count (acknowledge_all_open now t).0 ≡ 0)
      × ((acknowledge_all_open now t).1 ≡ unacknowledged_open_count t)
unfolding unacknowledged_open_count acknowledge_all_open
unacknowledged_open_count-acknowledge_all_open now t = (update_where-none now t.rows, refl)
