-- ===== src/Application/Alerts/Evaluated.antt =====
-- What an evaluation leaves open, and that its view counts what it lists.
use lnwdeck.Prelude.{
  ◌≡◌, refl, ◌∙◌, Bool, true, ◌&&◌, List, [], ◌∷◌, any, filter, arith, Bool-cases, inl, inr,
}
use lnwdeck.Prelude.Text.{Text, text_eq, text_eq_sound}
use lnwdeck.Domain.Usage.{Instant}
use lnwdeck.Storage.Alerts.{
  AlertTable, AlertRow, AlertObservation, observe, is_open, is_unread, count_where, insert_sorted,
  sort_rows, unacknowledged_open_count,
}
use lnwdeck.Storage.Alerts.Open.{is_open_key, is_open_key-resolve_missing, is_open_key-observe}
use lnwdeck.Application.Alerts.{active_keys, observe_all, execute, view}

stays_open :
    (observations : List (Instant × AlertObservation)) (t : AlertTable) (key : Text)
    → is_open_key key t.rows ≡ true
    → is_open_key key ((observe_all observations t).rows) ≡ true
unfolding observe_all
stays_open [] t key h = h
stays_open ((now, o) ∷ observations) t key h =
    stays_open observations (observe now o t).0 key ((is_open_key-observe now o t).1 key h)

is_open_key-observe_all :
    (observations : List (Instant × AlertObservation)) (t : AlertTable) (key : Text)
    → any (text_eq key) (active_keys observations) ≡ true
    → is_open_key key ((observe_all observations t).rows) ≡ true
unfolding observe_all
is_open_key-observe_all [] t key h = cc
is_open_key-observe_all ((now, o) ∷ observations) t key h =
    let after = (observe now o t).0 in
    elim (Bool-cases (text_eq key o.alert_key)) [
      | inl e ↦
          let same = text_eq_sound key o.alert_key e in
          let own : is_open_key key after.rows ≡ true = rw same (is_open_key-observe now o t).0 in
          stays_open observations after key own
      | inr e ↦
          let later : any (text_eq key) (active_keys observations) ≡ true = ground arith in
          is_open_key-observe_all observations after key later
    ]

-- After an evaluation, a key has an open alert exactly when a condition with that key was observed.
pub is_open_key-execute :
    (now : Instant) (observations : List (Instant × AlertObservation)) (t : AlertTable) (key : Text)
    → is_open_key key ((execute now observations t).0.rows)
      ≡ any (text_eq key) (active_keys observations)
unfolding execute
is_open_key-execute now observations t key =
    let all = observe_all observations t in
    let resolved = is_open_key-resolve_missing now (active_keys observations) all key in
    elim (Bool-cases (any (text_eq key) (active_keys observations))) [
      | inl e ↦ let opened = is_open_key-observe_all observations t key e in ground arith
      | inr e ↦ ground arith
    ]

count-insert_sorted :
    (p : AlertRow → Bool) (r : AlertRow) (rows : List AlertRow)
    → count_where p (insert_sorted r rows) ≡ count_where p (r ∷ rows)
unfolding insert_sorted
count-insert_sorted p r [] = refl
count-insert_sorted p r (s ∷ rows) = ground (arith, count-insert_sorted p r rows)

count-sort_rows :
    (p : AlertRow → Bool) (rows : List AlertRow)
    → count_where p (sort_rows rows) ≡ count_where p rows
unfolding sort_rows
count-sort_rows p [] = refl
count-sort_rows p (r ∷ rows) =
    let sorted = count-sort_rows p rows in
    let inserted = count-insert_sorted p r (sort_rows rows) in ground arith

count-filter :
    (p q : AlertRow → Bool) (rows : List AlertRow)
    → count_where p (filter q rows) ≡ count_where (λ r. q r && p r) rows
count-filter p q [] = refl
count-filter p q (r ∷ rows) = ground (arith, count-filter p q rows)

-- The view's count of unread alerts is the count of the badge.
pub view-unacknowledged_open_count :
    (now : Instant) (t : AlertTable)
    → (view now t).unacknowledged_count ≡ unacknowledged_open_count t
unfolding view unacknowledged_open_count
view-unacknowledged_open_count now t =
    count-sort_rows is_unread (filter is_open t.rows) ∙ count-filter is_unread is_open t.rows
