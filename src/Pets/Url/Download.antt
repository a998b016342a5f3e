-- ===== src/Pets/Url/Download.antt =====
-- The ids of the three accepted forms of URL are read back.
use lnwdeck.Prelude.{
  All-append, ℕ, ◌≡◌, refl, true, false, none, some, [], ◌∷◌, ◌++◌, arith, ◌==◌, All, any, ||-false,
  ok,
}
use lnwdeck.Prelude.Text.{Text, codes, trim, is_whitespace}
use lnwdeck.Prelude.Text.Trim.{trim_of_black}
use lnwdeck.Prelude.Text.Split.{
  Avoids, Avoids-any, split_once-Avoids, strip_suffix-append, strip_suffix-Avoids,
}
use lnwdeck.Pets.Ids.{is_pet_id, slug_byte}
use lnwdeck.Pets.Ids.Slug.{is_pet_id-IsSlug, IsSlug-slug_bytes}
use lnwdeck.Pets.Manifest.{LowersAscii}
use lnwdeck.Pets.Manifest.Stored.{slug_bytes-black, slug_bytes_lowered}
use lnwdeck.Pets.Url.{
  SimpleUrl, codex_pets_host, url_parse, captured_id, is_official, pet_id_from_codex_pets_url,
  codex_pets_download_url,
}

abbrev IsSlugText : Text → Type 0
IsSlugText = All (λ c. slug_byte c ≡ true)

slug_byte-ne : (p c : ℕ) → slug_byte p ≡ false → slug_byte c ≡ true → (p == c) ≡ false
slug_byte-ne p c hp hc = ground arith

-- A separator does not occur in an id.
slug-Avoids : (p : ℕ) (s : Text) → slug_byte p ≡ false → IsSlugText s → Avoids p s
slug-Avoids p [] hp h = tt
slug-Avoids p (c ∷ s) hp (hc, hs) = (slug_byte-ne p c hp hc, slug-Avoids p s hp hs)

-- The parts of `codex_pets_download_url id`.
abbrev api_path : Text → Text
api_path id = codes "api/pets/" ++ id

abbrev download_path : Text → Text
download_path id = codes "api/pets/" ++ (id ++ codes "/download")

abbrev api_url : Text → SimpleUrl
api_url path = record {
  scheme = codes "https";
  host = codex_pets_host;
  port = none;
  path = b'/' ∷ path;
  hash = [];
  query = none;
}

url_parse_path :
    (path : Text)
    → Avoids b'#' path
    → Avoids b'?' path
    → url_parse (codes "https://" ++ (codex_pets_host ++ b'/' ∷ path)) ≡ some (api_url path)
unfolding url_parse
url_parse_path path h q = rw (split_once-Avoids b'#' path h, split_once-Avoids b'?' path q)

abbrev page_url : Text → SimpleUrl
page_url id = record {
  scheme = codes "https";
  host = codex_pets_host;
  port = none;
  path = codes "/";
  hash = codes "#/pets/" ++ id;
  query = none;
}

url_parse_page :
    (id : Text)
    → url_parse (codes "https://" ++ (codex_pets_host ++ (codes "/#/pets/" ++ id)))
      ≡ some (page_url id)
unfolding url_parse
url_parse_page id = refl

captured_id_download : (id : Text) → captured_id (api_url (download_path id)) ≡ ok id
unfolding captured_id
captured_id_download id = rw (strip_suffix-append (codes "/download") id)

captured_id_api : (id : Text) → IsSlugText id → captured_id (api_url (api_path id)) ≡ ok id
unfolding captured_id
captured_id_api id h =
    rw (strip_suffix-Avoids b'/' (codes "download") id (slug-Avoids b'/' id refl h))

captured_id_page : (id : Text) → captured_id (page_url id) ≡ ok id
unfolding captured_id
captured_id_page id = refl

any_white : (s : Text) → any is_whitespace s ≡ false → All (λ c. is_whitespace c ≡ false) s
any_white [] h = tt
any_white (c ∷ s) h =
    let (hc, hs) = ||-false (is_whitespace c) (any is_whitespace s) h in (hc, any_white s hs)

trim_url :
    (before after id : Text)
    → IsSlugText id
    → any is_whitespace before ≡ false
    → any is_whitespace after ≡ false
    → trim (before ++ (id ++ after)) ≡ before ++ (id ++ after)
trim_url before after id h hb ha = trim_of_black (before ++ (id ++ after)) (
    All-append _ before (id ++ after) (any_white before hb)
      (All-append _ id after (slug_bytes-black id h) (any_white after ha)))

trim_url_end :
    (before id : Text)
    → IsSlugText id
    → any is_whitespace before ≡ false
    → trim (before ++ id) ≡ before ++ id
trim_url_end before id h hb =
    trim_of_black (before ++ id)
      (All-append _ before id (any_white before hb) (slug_bytes-black id h))

path_Avoids :
    (p : ℕ) (id : Text)
    → any (λ c. p == c) (codes "api/pets/") ≡ false
    → any (λ c. p == c) (codes "/download") ≡ false
    → slug_byte p ≡ false
    → IsSlugText id
    → Avoids p (download_path id)
path_Avoids p id before after hp h =
    All-append _ (codes "api/pets/") (id ++ codes "/download")
      (Avoids-any p (codes "api/pets/") before)
      (All-append _ id (codes "/download") (slug-Avoids p id hp h)
        (Avoids-any p (codes "/download") after))

module _ (to_lowercase : Text → Text) (lowers : LowersAscii to_lowercase) where
  accept :
      (input : Text) (url : SimpleUrl) (id : Text)
      → trim input ≡ input
      → url_parse input ≡ some url
      → is_official url ≡ true
      → captured_id url ≡ ok id
      → is_pet_id id ≡ true
      → pet_id_from_codex_pets_url to_lowercase input ≡ ok id
  unfolding pet_id_from_codex_pets_url
  accept input url id et eu eo ec valid =
      let slug = IsSlug-slug_bytes id ((is_pet_id-IsSlug id).0 valid) in
      rw (et, eu, eo, ec, slug_bytes_lowered to_lowercase lowers id slug, valid)

  -- Every valid id is read back from its download URL, from its API URL and from its page URL, where
  -- `to_lowercase` treats ASCII texts as `to_ascii_lowercase` does.
  pub pet_id_from_codex_pets_url-forms :
      (id : Text)
      → is_pet_id id ≡ true
      → (pet_id_from_codex_pets_url to_lowercase (codex_pets_download_url id) ≡ ok id)
        × (pet_id_from_codex_pets_url to_lowercase (codes "https://codex-pets.net/api/pets/" ++ id)
            ≡ ok id)
        × (pet_id_from_codex_pets_url to_lowercase (codes "https://codex-pets.net/#/pets/" ++ id)
            ≡ ok id)
  unfolding codex_pets_download_url is_official is_whitespace
  pet_id_from_codex_pets_url-forms id valid =
      let slug = IsSlug-slug_bytes id ((is_pet_id-IsSlug id).0 valid) in
      let hash = slug-Avoids b'#' id refl slug in
      let query = slug-Avoids b'?' id refl slug in
      let api_before = codes "https://codex-pets.net/api/pets/" in
      let page_before = codes "https://codex-pets.net/#/pets/" in
      (
        accept (codex_pets_download_url id) (api_url (download_path id)) id
            (trim_url api_before (codes "/download") id slug refl refl)
            (url_parse_path (download_path id) (path_Avoids b'#' id refl refl refl slug)
              (path_Avoids b'?' id refl refl refl slug))
            refl (captured_id_download id) valid,
        accept (api_before ++ id) (api_url (api_path id)) id (trim_url_end api_before id slug refl)
            (url_parse_path (api_path id)
              (All-append _ (codes "api/pets/") id (Avoids-any b'#' (codes "api/pets/") refl) hash)
              (All-append _ (codes "api/pets/") id (Avoids-any b'?' (codes "api/pets/") refl)
                query))
            refl (captured_id_api id slug) valid,
        accept (page_before ++ id) (page_url id) id (trim_url_end page_before id slug refl)
            (url_parse_page id) refl (captured_id_page id) valid,
      )
