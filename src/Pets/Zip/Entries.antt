-- ===== src/Pets/Zip/Entries.antt =====
-- What the archives hold from which `read_zip_entries` returns.
use mathlib.Core.Path.{subst}
use lnwdeck.Prelude.{
  ℕ, ◌+◌, ◌≤◌, ◌≡◌, ◌⊎◌, inl, inr, refl, ap, ◌∙◌, true, false, Option, none, some, List, [], ◌∷◌,
  arith, ltb, length, ok, ◌>>=◌, refuse, bind-ok, Bool-cases,
}
use lnwdeck.Prelude.Text.{Text, text_eq, text_eq_sound}
use lnwdeck.Pets.Manifest.{pet_spritesheet}
use lnwdeck.Pets.Webp.Package.{max_spritesheet_bytes}
use lnwdeck.Pets.Zip.{
  pet_manifest, max_package_bytes, max_manifest_bytes, Entry, Found, is_symlink, unreadable,
  too_large, invalid_archive, of_option, read_content, store, read_entry, read_entries, both,
  read_zip_entries,
}

-- A file that may stand in a package under a name with a limit, and its content.
pub record IsFile (name : Text) (limit : ℕ) (content : List ℕ) (e : Option Entry) : Type 0 where
  pub entry : Entry
  pub present : e ≡ some entry
  pub named : entry.name ≡ name
  pub regular : is_symlink entry.unix_mode ≡ false
  pub size_bounds : (1 ≤ entry.size) × (entry.size ≤ limit)
  pub whole : entry.read_upto (limit + 1) ≡ some content
  pub short : length content ≤ limit

abbrev pub IsManifest : List ℕ → Option Entry → Type 0
IsManifest = IsFile pet_manifest max_manifest_bytes

abbrev pub IsSpritesheet : List ℕ → Option Entry → Type 0
IsSpritesheet = IsFile pet_spritesheet max_spritesheet_bytes

-- A round fills one of the two variables, which was empty.
pub data Round (e : Option Entry) (old new : Found) : Type 0 where
  fills_manifest :
      (c : List ℕ)
      → IsManifest c e
      → old.manifest ≡ none
      → new.manifest ≡ some c
      → new.spritesheet ≡ old.spritesheet
      → Round e old new
  fills_spritesheet :
      (c : List ℕ)
      → IsSpritesheet c e
      → old.spritesheet ≡ none
      → new.spritesheet ≡ some c
      → new.manifest ≡ old.manifest
      → Round e old new

read_content-IsFile :
    (e : Entry) (limit : ℕ) (content : List ℕ)
    → read_content e limit ≡ ok content
    → IsFile e.name limit content (some e)
unfolding read_content
read_content-IsFile e limit content h =
    let sized : (is_symlink e.unix_mode ≡ false)
        × (1 ≤ e.size)
        × (e.size ≤ limit)
        × ((of_option unreadable (e.read_upto (limit + 1)) >>= λ c.
              refuse (ltb limit (length c)) too_large >>= λ _. ok c)
            ≡ ok content) =
      ground arith in
    let (c, whole, short) = go (e.read_upto (limit + 1)) sized.3 in
    record {
      entry = e;
      present = refl;
      named = refl;
      regular = sized.0;
      size_bounds = (sized.1, sized.2);
      whole = whole;
      short = short;
    }
  where
    go :
        (o : Option (List ℕ))
        → (of_option unreadable o >>= λ c. refuse (ltb limit (length c)) too_large >>= λ _. ok c)
          ≡ ok content
        → (c : List ℕ) × (o ≡ some content) × (length content ≤ limit)
    go none k = cc
    go (some c) k = (c, ground arith, ground arith)

rename :
    (e : Entry) (name : Text) (limit : ℕ) (content : List ℕ)
    → text_eq e.name name ≡ true
    → IsFile e.name limit content (some e)
    → IsFile name limit content (some e)
rename e name limit content h f =
    subst (λ (n : Text). IsFile n limit content (some e)) (text_eq_sound e.name name h) f

read_entry-Round :
    (e : Option Entry) (old new : Found) → read_entry e old ≡ ok new → Round e old new
unfolding read_entry
read_entry-Round none old new h = cc
read_entry-Round (some e) old new h = elim (Bool-cases (text_eq e.name pet_manifest)) [
  | inl m ↦
      let first : (old.manifest ≡ none)
          × ((read_content e max_manifest_bytes >>= λ c. ok (store e.name c old)) ≡ ok new) =
        ground arith in
      let (c, ec, en) = bind-ok (read_content e max_manifest_bytes) _ first.1 in
      fills_manifest c (rename e pet_manifest _ c m (read_content-IsFile e _ c ec)) first.0
        (ground arith) (ground arith)
  | inr other ↦
      let second : (text_eq e.name pet_spritesheet ≡ true)
          × (old.spritesheet ≡ none)
          × ((read_content e max_spritesheet_bytes >>= λ c. ok (store e.name c old)) ≡ ok new) =
        ground arith in
      let (c, ec, en) = bind-ok (read_content e max_spritesheet_bytes) _ second.2 in
      fills_spritesheet c (rename e pet_spritesheet _ c second.0 (read_content-IsFile e _ c ec))
        second.1 (ground arith) (ground arith)
]

abbrev nothing : Found
nothing = record { manifest = none; spritesheet = none }

-- The files of a package, in either order.
abbrev pub Placed : Option Entry → Option Entry → List ℕ → List ℕ → Type 0
Placed a b m s = (IsManifest m a × IsSpritesheet s b) ⊎ (IsSpritesheet s a × IsManifest m b)

two_rounds :
    (a b : Option Entry) (f g : Found)
    → Round a nothing f
    → Round b f g
    → (m : List ℕ) × (s : List ℕ) × (g.manifest ≡ some m)
      × (g.spritesheet ≡ some s)
      × Placed a b m s
two_rounds a b f g (fills_manifest c ha _ ec es) (fills_manifest d hb n _ _) = absurd (cc)
two_rounds a b f g (fills_manifest c ha _ ec es) (fills_spritesheet d hb n ed em) =
    (c, d, em ∙ ec, ed, inl (ha, hb))
two_rounds a b f g (fills_spritesheet c ha _ ec em) (fills_manifest d hb n ed es) =
    (d, c, ed, es ∙ ec, inr (ha, hb))
two_rounds a b f g (fills_spritesheet c ha _ ec em) (fills_spritesheet d hb n _ _) = absurd (cc)

-- No third round succeeds.
no_third-Round :
    (e : Option Entry) (f g : Found) {m s : List ℕ}
    → f.manifest ≡ some m
    → f.spritesheet ≡ some s
    → ¬ Round e f g
no_third-Round e f g hm hs (fills_manifest c h n _ _) = cc
no_third-Round e f g hm hs (fills_spritesheet c h n _ _) = cc

read_entries_done : (f g : Found) → read_entries [] f ≡ ok g → f ≡ g
unfolding read_entries
read_entries_done f g h = ground arith

read_entries-Round :
    (e : Option Entry) (es : List (Option Entry)) (f g : Found)
    → read_entries (e ∷ es) f ≡ ok g
    → (f' : Found) × Round e f f' × (read_entries es f' ≡ ok g)
unfolding read_entries
read_entries-Round e es f g h =
    let (f', ef, rest) = bind-ok (read_entry e f) (read_entries es) h in
    (f', read_entry-Round e f f' ef, rest)

one_file :
    (a : Option Entry) (f : Found) {m s : List ℕ}
    → Round a nothing f
    → f.manifest ≡ some m
    → ¬ (f.spritesheet ≡ some s)
one_file a f (fills_manifest c ha _ ec es) hm hs = cc
one_file a f (fills_spritesheet c ha _ ec em) hm hs = cc

read_entries-Placed :
    (archive : List (Option Entry)) (found : Found) (m s : List ℕ)
    → read_entries archive nothing ≡ ok found
    → found.manifest ≡ some m
    → found.spritesheet ≡ some s
    → (a : Option Entry) × (b : Option Entry) × (archive ≡ a ∷ b ∷ []) × Placed a b m s
read_entries-Placed [] found m s h hm hs = absurd (let e = read_entries_done nothing found h in cc)
read_entries-Placed (a ∷ []) found m s h hm hs =
    let (f, r, e) = read_entries-Round a [] nothing found h in
    let same = read_entries_done f found e in
    absurd (
      one_file a f r (ap (λ (x : Found). x.manifest) same ∙ hm)
        (ap (λ (x : Found). x.spritesheet) same ∙ hs))
read_entries-Placed (a ∷ b ∷ []) found m s h hm hs =
    let (f, r, e) = read_entries-Round a (b ∷ []) nothing found h in
    let (g, t, e') = read_entries-Round b [] f found e in
    let same = read_entries_done g found e' in
    let (m', s', em, es, placed) = two_rounds a b f g r t in
    let same_m : m' ≡ m = cc in
    let same_s : s' ≡ s = cc in (a, b, refl, rw (← same_m, ← same_s) placed)
read_entries-Placed (a ∷ b ∷ c ∷ rest) found m s h hm hs =
    let (f, r, e) = read_entries-Round a (b ∷ c ∷ rest) nothing found h in
    let (g, t, e') = read_entries-Round b (c ∷ rest) f found e in
    let (k, u, _) = read_entries-Round c rest g found e' in
    let (m', s', em, es, placed) = two_rounds a b f g r t in absurd (no_third-Round c g k em es u)

both-ok :
    (found : Found) (m s : List ℕ)
    → both found ≡ ok (m, s)
    → (found.manifest ≡ some m) × (found.spritesheet ≡ some s)
both-ok found m s h = ground arith

opened :
    (o : Option (List (Option Entry))) (m s : List ℕ)
    → (of_option invalid_archive o >>= λ es. read_entries es nothing >>= both) ≡ ok (m, s)
    → (a : Option Entry) × (b : Option Entry) × (o ≡ some (a ∷ b ∷ [])) × Placed a b m s
opened none m s h = cc
opened (some es) m s h =
    let (found, e, eb) = bind-ok (read_entries es nothing) both h in
    let (em, es') = both-ok found m s eb in
    let (a, b, two, placed) = read_entries-Placed es found m s e em es' in
    (a, b, ap some two, placed)

module _ (open_archive : List ℕ → Option (List (Option Entry))) where
  -- If a manifest and a spritesheet are returned, the bytes are within the limit and the archive has
  -- exactly two entries: one file `pet.json` and one file `spritesheet.webp`, in either order, neither
  -- empty, nor past its own limit, nor a symbolic link, with the contents that are returned.
  pub read_zip_entries-Placed :
      (bytes : List ℕ) (m s : List ℕ)
      → read_zip_entries open_archive bytes ≡ ok (m, s)
      → (1 ≤ length bytes)
        × (length bytes ≤ max_package_bytes)
        × ((a : Option Entry) × (b : Option Entry) × (open_archive bytes ≡ some (a ∷ b ∷ []))
            × Placed a b m s)
  unfolding read_zip_entries
  read_zip_entries-Placed bytes m s h =
      let sized : (1 ≤ length bytes)
          × (length bytes ≤ max_package_bytes)
          × ((of_option invalid_archive (open_archive bytes) >>= λ es.
                read_entries es nothing >>= both)
              ≡ ok (m, s)) =
        ground arith in
      (sized.0, sized.1, opened (open_archive bytes) m s sized.2)
