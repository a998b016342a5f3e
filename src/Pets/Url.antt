-- ===== src/Pets/Url.antt =====
-- `url_parse`, `pet_id_from_codex_pets_url` and `codex_pets_download_url` of
-- apps/desktop/src-tauri/src/pets.rs.
pub mod Official
pub mod Download
use lnwdeck.Prelude.{
  ℕ, Bool, true, false, not, ◌&&◌, ◌||◌, Option, none, some, List, [], ◌∷◌, ◌++◌, ◌==◌,
  if◌then◌else◌, Result, ok, err, any, ◌>>=◌, ◌>>◌, refuse,
}
use lnwdeck.Prelude.Text.{
  Text, codes, text_eq, trim, to_ascii_lowercase, split_once, strip_prefix, strip_suffix,
}
use lnwdeck.Pets.Ids.{is_pet_id}

pub record SimpleUrl : Type 0 where
  pub scheme : Text
  pub host : Text
  pub port : Option Text
  pub path : Text
  pub hash : Text
  pub query : Option Text

abbrev pub codex_pets_host : Text
codex_pets_host = codes "codex-pets.net"

-- `.unwrap_or(...)`, and `.map(|(a, b)| (a, Some(b))).unwrap_or((whole, None))`
abbrev pub unwrap_or : Option (Text × Text) → Text × Text → Text × Text
unwrap_or (some parts) whole = parts
unwrap_or none whole = whole

abbrev pub with_option : Option (Text × Text) → Text → Text × Option Text
with_option (some (a, b)) whole = (a, some b)
with_option none whole = (whole, none)

abbrev pub hash_of : Text → Text
hash_of [] = []
hash_of (c ∷ s) = b'#' ∷ c ∷ s

-- What follows the scheme.
unfoldable pub url_rest : Text → Text → Option SimpleUrl
unfolding split_once to_ascii_lowercase
url_rest scheme rest =
    let (authority, tail) = unwrap_or (split_once (codes "/") rest) (rest, []) in
    if any (λ c. c == b'@') authority
    then none
    else let (host, port) = with_option (split_once (codes ":") authority) authority in
      let (before_hash, hash) = unwrap_or (split_once (codes "#") tail) (tail, []) in
      let (path, query) = with_option (split_once (codes "?") before_hash) before_hash in
      some (record {
        scheme = to_ascii_lowercase scheme;
        host = to_ascii_lowercase host;
        port = port;
        path = b'/' ∷ path;
        hash = hash_of hash;
        query = query;
      })

abbrev pub after_scheme : Option (Text × Text) → Option SimpleUrl
after_scheme none = none
after_scheme (some (scheme, rest)) = url_rest scheme rest

unfoldable pub url_parse : Text → Option SimpleUrl
unfolding split_once url_rest
url_parse raw = after_scheme (split_once (codes "://") raw)

pub data UrlError : Type 0 where
  not_a_url unsupported page_url api_url no_pet_id : UrlError

abbrev pub is_set : Option Text → Bool
is_set none = false
is_set (some s) = true

abbrev pub is_blank : Text → Bool
is_blank [] = true
is_blank (c ∷ s) = false

abbrev pub text_or : Option Text → Text → Text
text_or (some s) t = s
text_or none t = t

-- The three arms that find the id in the URL.
abbrev api_arm : Text → Option Text → Result UrlError Text
api_arm hash (some rest) =
    if not (is_blank hash)
    then err api_url
    else ok (text_or (strip_suffix (codes "/download") rest) rest)
api_arm hash none = ok []

abbrev page_arm : SimpleUrl → Option Text → Result UrlError Text
page_arm parsed (some captured) =
    if not (is_blank parsed.path) && not (text_eq parsed.path (codes "/"))
    then err page_url
    else ok captured
page_arm parsed none = api_arm parsed.hash (strip_prefix (codes "/api/pets/") parsed.path)

unfoldable pub captured_id : SimpleUrl → Result UrlError Text
unfolding strip_prefix strip_suffix text_eq
captured_id parsed = page_arm parsed (strip_prefix (codes "#/pets/") parsed.hash)

abbrev pub parsed_or_error : Option SimpleUrl → Result UrlError SimpleUrl
parsed_or_error none = err not_a_url
parsed_or_error (some url) = ok url

unfoldable pub is_official : SimpleUrl → Bool
unfolding text_eq
is_official parsed = not (
    not (text_eq parsed.scheme (codes "https"))
    || not (text_eq parsed.host codex_pets_host)
    || is_set parsed.port
    || is_set parsed.query)

module _ (to_lowercase : Text → Text) where
  unfoldable pub pet_id_from_codex_pets_url : Text → Result UrlError Text
  unfolding url_parse captured_id is_official
  pet_id_from_codex_pets_url input = do
    parsed ← parsed_or_error (url_parse (trim input))
    refuse (not (is_official parsed)) unsupported
    captured ← captured_id parsed
    let id = to_lowercase captured
    refuse (not (is_pet_id id)) no_pet_id
    ok id

-- `format!("https://{CODEX_PETS_HOST}/api/pets/{id}/download")`
unfoldable pub codex_pets_download_url : Text → Text
codex_pets_download_url id =
    codes "https://" ++ (codex_pets_host ++ (codes "/api/pets/" ++ (id ++ codes "/download")))
