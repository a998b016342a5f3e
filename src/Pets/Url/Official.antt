-- ===== src/Pets/Url/Official.antt =====
-- Which texts are accepted as a URL of the pet site.
use mathlib.Core.Option.{some-injective}
use mathlib.Core.List.{append-nil}
use lnwdeck.Prelude.{
  ◌≡◌, ◌⊎◌, inl, inr, ◌∙◌, refl, sym, ap, true, not, Option, none, some, [], ◌∷◌, ◌++◌, arith, ◌==◌,
  any, ok, refuse, bind-ok, refuse-ok, Bool-cases,
}
use lnwdeck.Prelude.Text.{Text, codes, trim, text_eq, text_eq_sound, split_once, to_ascii_lowercase}
use lnwdeck.Prelude.Text.Split.{split_once_sound}
use lnwdeck.Pets.Ids.{is_pet_id}
use lnwdeck.Pets.Ids.Slug.{IsSlug, is_pet_id-IsSlug}
use lnwdeck.Pets.Url.{
  SimpleUrl, codex_pets_host, url_rest, after_scheme, url_parse, captured_id, is_official,
  parsed_or_error, unsupported, no_pet_id, unwrap_or, with_option, pet_id_from_codex_pets_url,
}

-- `scheme://host` and what follows: nothing, or a part that begins with `/`.
abbrev pub AtHost : Text → Type 0
AtHost raw =
    (scheme : Text) × (host : Text) × (tail : Text) × (raw
      ≡ scheme ++ (codes "://" ++ (host ++ tail)))
    × (to_ascii_lowercase scheme ≡ codes "https")
    × (to_ascii_lowercase host ≡ codex_pets_host)
    × ((tail ≡ []) ⊎ ((path : Text) × (tail ≡ b'/' ∷ path)))

abbrev authority : Text → Text × Text
authority rest = unwrap_or (split_once (codes "/") rest) (rest, [])

url_rest_parts :
    (scheme rest : Text) (url : SimpleUrl)
    → url_rest scheme rest ≡ some url
    → let host_port = with_option (split_once (codes ":") (authority rest).0) (authority rest).0 in
      (url.scheme ≡ to_ascii_lowercase scheme)
      × (url.host ≡ to_ascii_lowercase host_port.0)
      × (url.port ≡ host_port.1)
unfolding url_rest
url_rest_parts scheme rest url h = elim (Bool-cases (any (λ c. c == b'@') (authority rest).0)) [
  | inl user ↦ absurd (let k = rw user at h in cc)
  | inr plain ↦
      let e = some-injective _ _ (rw plain at h) in
      (
        ap (λ (u : SimpleUrl). u.scheme) (sym e),
        ap (λ (u : SimpleUrl). u.host) (sym e),
        ap (λ (u : SimpleUrl). u.port) (sym e),
      )
]

is_official_parts :
    (url : SimpleUrl)
    → is_official url ≡ true
    → (text_eq url.scheme (codes "https") ≡ true)
      × (text_eq url.host codex_pets_host ≡ true)
      × (url.port ≡ none)
      × (url.query ≡ none)
unfolding is_official
is_official_parts url h = ground arith

no_port :
    (o : Option (Text × Text)) (whole : Text)
    → (with_option o whole).1 ≡ none
    → (with_option o whole).0 ≡ whole
no_port none whole h = refl
no_port (some (a, b)) whole h = cc

authority_sound :
    (rest : Text)
    → (tail : Text) × (rest ≡ (authority rest).0 ++ tail)
      × ((tail ≡ []) ⊎ ((path : Text) × (tail ≡ b'/' ∷ path)))
authority_sound rest = go (split_once (codes "/") rest) refl
  where
    go :
        (o : Option (Text × Text))
        → split_once (codes "/") rest ≡ o
        → (tail : Text) × (rest ≡ (unwrap_or o (rest, [])).0 ++ tail)
          × ((tail ≡ []) ⊎ ((path : Text) × (tail ≡ b'/' ∷ path)))
    go none e = ([], sym (append-nil rest), inl refl)
    go (some (a, b)) e = (b'/' ∷ b, split_once_sound (codes "/") rest a b e, inr (b, refl))

-- The host is what stands before the first `/`, if it has no port and no user.
url_rest-AtHost :
    (scheme rest : Text) (url : SimpleUrl)
    → url_rest scheme rest ≡ some url
    → is_official url ≡ true
    → (to_ascii_lowercase scheme ≡ codes "https")
      × ((host : Text) × (tail : Text) × (rest ≡ host ++ tail)
          × (to_ascii_lowercase host ≡ codex_pets_host)
          × ((tail ≡ []) ⊎ ((path : Text) × (tail ≡ b'/' ∷ path))))
url_rest-AtHost scheme rest url h o =
    let (es, eh, ep) = url_rest_parts scheme rest url h in
    let (hs, hh, hp, hq) = is_official_parts url o in
    let (tail, et, shape) = authority_sound rest in
    let plain =
      no_port (split_once (codes ":") (authority rest).0) (authority rest).0 (sym ep ∙ hp) in
    (
      sym es ∙ text_eq_sound url.scheme (codes "https") hs,
      (
        (authority rest).0,
        tail,
        et,
        ap to_ascii_lowercase (sym plain) ∙ sym eh ∙ text_eq_sound url.host codex_pets_host hh,
        shape,
      ),
    )

url_parse-AtHost :
    (raw : Text) (url : SimpleUrl) → url_parse raw ≡ some url → is_official url ≡ true → AtHost raw
unfolding url_parse
url_parse-AtHost raw url h o = go (split_once (codes "://") raw) refl h
  where
    go :
        (parts : Option (Text × Text))
        → split_once (codes "://") raw ≡ parts
        → after_scheme parts ≡ some url
        → AtHost raw
    go none e k = cc
    go (some (scheme, rest)) e k =
        let (es, (host, tail, et, eh, shape)) = url_rest-AtHost scheme rest url k o in
        (
          scheme,
          host,
          tail,
          split_once_sound (codes "://") raw scheme rest e
              ∙ ap (λ (t : Text). scheme ++ (codes "://" ++ t)) et,
          es,
          eh,
          shape,
        )

parsed_or_error-ok :
    (o : Option SimpleUrl) (url : SimpleUrl) → parsed_or_error o ≡ ok url → o ≡ some url
parsed_or_error-ok none url h = cc
parsed_or_error-ok (some x) url h = ground arith

module _ (to_lowercase : Text → Text) where
  -- An id is returned only from a text that is, trimmed, `https://codex-pets.net` (in any case of
  -- the letters), followed by nothing or by a path; and the id is a slug.
  pub pet_id_from_codex_pets_url-AtHost :
      (input id : Text)
      → pet_id_from_codex_pets_url to_lowercase input ≡ ok id
      → IsSlug id × AtHost (trim input)
  unfolding pet_id_from_codex_pets_url
  pet_id_from_codex_pets_url-AtHost input id h =
      let (url, eu, h1) = bind-ok (parsed_or_error (url_parse (trim input))) _ h in
      let (u, eo, h2) = bind-ok (refuse (not (is_official url)) unsupported) _ h1 in
      let (captured, ec, h3) = bind-ok (captured_id url) _ h2 in
      let (v, ei, h4) = bind-ok (refuse (not (is_pet_id (to_lowercase captured))) no_pet_id) _ h3 in
      let official : is_official url ≡ true = ground (arith, refuse-ok _ _ eo) in
      let valid : is_pet_id id ≡ true = ground (arith, refuse-ok _ _ ei) in
      (
        (is_pet_id-IsSlug id).0 valid,
        url_parse-AtHost (trim input) url (parsed_or_error-ok (url_parse (trim input)) url eu)
            official,
      )
