-- ===== src/Runtime/Registry/Distinct.antt =====
-- The registry keeps one adapter per id, and its lookups agree.
use lnwdeck.Prelude.{
  if◌then◌else◌, none, some, Option, ℕ, zero, suc, ◌≡◌, ◌↔◌, refl, true, false, ◌||◌, List, [], ◌∷◌,
  ◌++◌, any, find, length, get_elem?, ok, Bool-cases, ||-false, arith, inl, inr,
}
use lnwdeck.Prelude.Text.{Text, text_eq, text_eq_refl, text_eq_sound, text_eq_comm}
use lnwdeck.Domain.Float.{F64}
use lnwdeck.Runtime.Descriptor.{check}
use lnwdeck.Runtime.Adapter.{ProviderAdapter}
use lnwdeck.Runtime.Registry.{AdapterRegistry, has_id, register, find_adapter, rank, position}

module _ (F : F64) where
  abbrev pub AreDistinct : List (ProviderAdapter F) → Type 0
  AreDistinct [] = Unit
  AreDistinct (a ∷ rest) = (any (has_id F a.descriptor.id) rest ≡ false) × AreDistinct rest

  any-append :
      (id : Text) (xs : List (ProviderAdapter F)) (a : ProviderAdapter F)
      → any (has_id F id) (xs ++ a ∷ []) ≡ (any (has_id F id) xs || text_eq a.descriptor.id id)
  any-append id [] a = ground arith
  any-append id (x ∷ xs) a = ground (arith, any-append id xs a)

  AreDistinct-append :
      (xs : List (ProviderAdapter F)) (a : ProviderAdapter F)
      → AreDistinct xs
      → any (has_id F a.descriptor.id) xs ≡ false
      → AreDistinct (xs ++ a ∷ [])
  AreDistinct-append [] a d fresh = (refl, tt)
  AreDistinct-append (x ∷ xs) a d fresh =
      let parts =
        ||-false (text_eq x.descriptor.id a.descriptor.id) (any (has_id F a.descriptor.id) xs)
          fresh in
      let e = text_eq_comm a.descriptor.id x.descriptor.id in
      let split = any-append x.descriptor.id xs a in
      (ground arith, AreDistinct-append xs a d.1 parts.1)

  abbrev pub AreChecked : List (ProviderAdapter F) → Type 0
  AreChecked [] = Unit
  AreChecked (a ∷ rest) = (check a.descriptor ≡ ok tt) × AreChecked rest

  AreChecked-append :
      (xs : List (ProviderAdapter F)) (a : ProviderAdapter F)
      → AreChecked xs
      → check a.descriptor ≡ ok tt
      → AreChecked (xs ++ a ∷ [])
  AreChecked-append [] a all h = (h, tt)
  AreChecked-append (x ∷ xs) a all h = (all.0, AreChecked-append xs a all.1 h)

  -- What an id finds once an adapter stands at the end of the list.
  abbrev pub found_or_new :
      Option (ProviderAdapter F) → ProviderAdapter F → Text → Option (ProviderAdapter F)
  found_or_new none a id = if text_eq a.descriptor.id id then some a else none
  found_or_new (some b) a id = some b

  find-append :
      (id : Text) (xs : List (ProviderAdapter F)) (a : ProviderAdapter F)
      → find (has_id F id) (xs ++ a ∷ []) ≡ found_or_new (find (has_id F id) xs) a id
  find-append id [] a = refl
  find-append id (x ∷ xs) a =
      let ih = find-append id xs a in
      elim (Bool-cases (text_eq x.descriptor.id id)) [ inl e ↦ rw e refl | inr e ↦ rw e ih ]

  find-any :
      (id : Text) (xs : List (ProviderAdapter F))
      → (find (has_id F id) xs ≡ none) ↔ (any (has_id F id) xs ≡ false)
  find-any id [] = ground arith
  find-any id (x ∷ xs) = ground (arith, find-any id xs)

  find-last :
      (xs : List (ProviderAdapter F)) (a : ProviderAdapter F)
      → any (has_id F a.descriptor.id) xs ≡ false
      → find (has_id F a.descriptor.id) (xs ++ a ∷ []) ≡ some a
  find-last [] a fresh = let e = text_eq_refl a.descriptor.id in ground arith
  find-last (x ∷ xs) a fresh = ground (arith, find-last xs a)

  position-last :
      (xs : List (ProviderAdapter F)) (a : ProviderAdapter F)
      → any (has_id F a.descriptor.id) xs ≡ false
      → position F (has_id F a.descriptor.id) (xs ++ a ∷ []) ≡ some (length xs)
  unfolding position
  position-last [] a fresh = let e = text_eq_refl a.descriptor.id in ground arith
  position-last (x ∷ xs) a fresh = ground (arith, position-last xs a)

  -- Each registered descriptor passes its checks, and no id is registered twice.
  abbrev pub IsRegistry : AdapterRegistry F → Type 0
  IsRegistry r = AreChecked r.adapters × AreDistinct r.adapters

  register_inversion :
      (r : AdapterRegistry F) (a : ProviderAdapter F) (r' : AdapterRegistry F)
      → register F r a ≡ ok r'
      → (check a.descriptor ≡ ok tt)
        × (any (has_id F a.descriptor.id) r.adapters ≡ false)
        × (r' ≡ record { adapters = r.adapters ++ a ∷ [] })
  unfolding register
  register_inversion r a r' h = ground arith

  -- A registry that registers an adapter stays a registry, with descriptors that pass their checks
  -- and no id twice; the adapter's id has the adapter, last in the order, and every other id has
  -- the adapter it had, or none.
  pub register-IsRegistry :
      (r : AdapterRegistry F) (a : ProviderAdapter F) (r' : AdapterRegistry F)
      → IsRegistry r
      → register F r a ≡ ok r'
      → IsRegistry r'
        × (find_adapter F r' a.descriptor.id ≡ some a)
        × (rank F r' a.descriptor.id ≡ some (length r.adapters))
        × ((id : Text) → find_adapter F r' id ≡ found_or_new (find_adapter F r id) a id)
  unfolding find_adapter rank
  register-IsRegistry r a r' (checks, distinct) h =
      let (good, fresh, e) = register_inversion r a r' h in
      rw e (
        (
          AreChecked-append r.adapters a checks good,
          AreDistinct-append r.adapters a distinct fresh,
        ),
        find-last r.adapters a fresh,
        position-last r.adapters a fresh,
        λ id. find-append id r.adapters a,
      )

  -- Whether an adapter is registered depends on its descriptor and the ids only: it is refused
  -- exactly when its descriptor contradicts itself or its id is taken.
  pub register-Refused :
      (r : AdapterRegistry F) (a : ProviderAdapter F)
      → ((r' : AdapterRegistry F) × (register F r a ≡ ok r'))
        ↔ ((check a.descriptor ≡ ok tt) × (find_adapter F r a.descriptor.id ≡ none))
  unfolding register find_adapter
  register-Refused r a =
      let looked = find-any a.descriptor.id r.adapters in
      (
        λ (r', h). let (good, fresh, e) = register_inversion r a r' h in (good, looked.1 fresh),
        λ (good, absent). (
          record { adapters = r.adapters ++ a ∷ [] },
          let fresh = looked.0 absent in ground arith,
        ),
      )

  find-IsMember :
      (xs : List (ProviderAdapter F)) (i : ℕ) (a : ProviderAdapter F)
      → get_elem? xs i ≡ some a
      → any (has_id F a.descriptor.id) xs ≡ true
  find-IsMember [] i a h = cc
  find-IsMember (x ∷ xs) zero a h =
      let same : x ≡ a = cc in let e = text_eq_refl a.descriptor.id in rw same (ground arith)
  find-IsMember (x ∷ xs) (suc i) a h = ground (arith, find-IsMember xs i a h)

  lookups-at :
      (xs : List (ProviderAdapter F)) (i : ℕ) (a : ProviderAdapter F)
      → AreDistinct xs
      → get_elem? xs i ≡ some a
      → (find (has_id F a.descriptor.id) xs ≡ some a)
        × (position F (has_id F a.descriptor.id) xs ≡ some i)
  unfolding position
  lookups-at [] i a d h = cc
  lookups-at (x ∷ xs) zero a d h =
      let e = text_eq_refl a.descriptor.id in let same : x ≡ a = cc in rw same (ground arith)
  lookups-at (x ∷ xs) (suc i) a d h =
      let (found, placed) = lookups-at xs i a d.1 h in
      elim (Bool-cases (text_eq x.descriptor.id a.descriptor.id)) [
        | inl e ↦
            let same = text_eq_sound x.descriptor.id a.descriptor.id e in
            let member = find-IsMember xs i a h in
            let fresh : any (has_id F a.descriptor.id) xs ≡ false = rw (← same) d.0 in cc
        | inr e ↦ ground arith
      ]

  -- In a registry, the adapter at a position is the one that its id finds, and the position is its
  -- rank.
  pub rank-get_elem? :
      (r : AdapterRegistry F) (i : ℕ) (a : ProviderAdapter F)
      → IsRegistry r
      → get_elem? r.adapters i ≡ some a
      → (find_adapter F r a.descriptor.id ≡ some a) × (rank F r a.descriptor.id ≡ some i)
  unfolding find_adapter rank
  rank-get_elem? r i a inv h = lookups-at r.adapters i a inv.1 h
