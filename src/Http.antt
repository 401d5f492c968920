-- ===== src/Http.antt =====
-- Requests and responses of net/http, and server.go's functions on hosts, paths and content types.
use diarsaba_go.Prelude.{
  ℕ, List, [], ◌∷◌, ◌++◌, Bool, true, false, Option, none, some, ◌==◌, ◌&&◌, ◌||◌, if◌then◌else◌,
}
use diarsaba_go.Js.Strings.{literal}
use diarsaba_go.Go.{
  Unicode, is_empty, to_lower, trim_space, trim_prefix, trim_suffix, cut, contains, split_host_port,
  path_unescape,
}

-- An HTTP request. `path` is `r.URL.Path`, which net/http has decoded; a body that cannot be read is
-- `none`.
pub data Method : Type 0 where
  get post other : Method

pub record Request : Type 0 where
  pub method : Method
  pub host : List ℕ
  pub path : List ℕ
  pub body : Option (List ℕ)

-- `allow` is the header of that name.
pub record Response : Type 0 where
  pub status : ℕ
  pub allow : List Method
  pub content_type : List ℕ
  pub body : List ℕ

-- `http.Error` and `http.NotFound`.
abbrev pub http_error : List ℕ → ℕ → Response
http_error text status = record {
  status = status;
  allow = [];
  content_type = literal "text/plain; charset=utf-8";
  body = text ++ (10 ∷ []);
}

abbrev pub not_found : Response
not_found = http_error (literal "404 page not found") 404

abbrev pub not_allowed : List Method → Response
not_allowed methods = record (http_error (literal "method not allowed") 405) { allow = methods }

unfoldable pub normalize_host_name : Unicode → List ℕ → List ℕ
normalize_host_name u host = to_lower u (trim_suffix b'.' (trim_space u host))

unfoldable pub host_or : Option (List ℕ) → List ℕ → List ℕ
host_or none host = host
host_or (some parsed) host = parsed

unfoldable pub strip_port : List ℕ → List ℕ
strip_port host = if contains b':' host then host_or (split_host_port host) host else host

-- The name of the database and the key, if both can be decoded and neither is empty.
unfoldable pub named : Unicode → Option (List ℕ) → Option (List ℕ) → Option (List ℕ × List ℕ)
named u none key = none
named u (some db_name) none = none
named u (some db_name) (some key) =
    if is_empty (trim_space u db_name)
    then none
    else if is_empty key
    then none
    else some (db_name, key)

unfoldable pub split_parts : Unicode → Option (List ℕ × List ℕ) → Option (List ℕ × List ℕ)
split_parts u none = none
split_parts u (some (db_name, key)) = named u (path_unescape db_name) (path_unescape key)

unfoldable pub split_public_path : Unicode → List ℕ → Option (List ℕ × List ℕ)
split_public_path u path = split_parts u (cut b'/' (trim_prefix b'/' path))

-- `strings.HasPrefix` and `strings.Contains`, of a text of the source.
unfoldable pub has_prefix : List ℕ → List ℕ → Bool
has_prefix s [] = true
has_prefix [] (c ∷ prefix) = false
has_prefix (b ∷ s) (c ∷ prefix) = b == c && has_prefix s prefix

unfoldable pub contains_text : List ℕ → List ℕ → Bool
contains_text [] part = is_empty part
contains_text (b ∷ s) part = has_prefix (b ∷ s) part || contains_text s part

-- The switch and the two conditions: the types of the switch start with text/ as well.
unfoldable pub is_shown : List ℕ → Bool
is_shown kind =
    has_prefix kind (literal "text/")
    || (has_prefix kind (literal "image/")
        || (has_prefix kind (literal "audio/") || has_prefix kind (literal "video/")))
    || (contains_text kind (literal "javascript")
        || (contains_text kind (literal "json")
            || (contains_text kind (literal "xml")
                || (contains_text kind (literal "svg") || contains_text kind (literal "pdf")))))

unfoldable pub detect_browser_content_type : (List ℕ → List ℕ) → List ℕ → List ℕ
detect_browser_content_type detect [] = literal "text/plain; charset=utf-8"
detect_browser_content_type detect (b ∷ value) =
    let kind = detect (b ∷ value) in
    if is_shown kind then kind else literal "application/octet-stream"
