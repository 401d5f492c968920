-- ===== src/Server/Paths.antt =====
-- The paths of server.go's public reading, `/{db}/{key}`: `splitPublicPath` decodes both parts, after
-- net/http has decoded the whole path once already.
pub mod Names
use diarsaba_go.Prelude.{
  ℕ, ◌+◌, ◌≡◌, refl, ap, ◌∙◌, List, [], ◌∷◌, ◌++◌, length, drop, All, false, Option, none, some,
  take-length_append, drop-length_append, drop-drop,
}
use diarsaba_go.Js.Number.{IsByte}
use diarsaba_go.Js.Strings.Laws.{Lacks, index_of-append}
use diarsaba_go.Go.Cuts.{cut-append}
use diarsaba_go.Go.{Unicode, is_empty, trim_space, trim_prefix, cut, path_unescape}
use diarsaba_go.Go.Escapes.{escaped, escaped-Lacks, path_unescape-escaped, path_unescape-percent}
use diarsaba_go.Http.{named, split_parts, split_public_path}

split_public_path-append :
    (u : Unicode) (db_name key : List ℕ)
    → Lacks b'/' db_name
    → split_public_path u (b'/' ∷ (db_name ++ (b'/' ∷ key)))
      ≡ named u (path_unescape db_name) (path_unescape key)
unfolding split_public_path split_parts trim_prefix
split_public_path-append u db_name key h = rw (cut-append b'/' db_name key h) refl

-- A database's name that is not blank and a key that is not empty, both of bytes and with each byte
-- escaped in `r.URL.Path`, are found again.
pub split_public_path-escaped :
    (u : Unicode) (db_name key : List ℕ)
    → All IsByte db_name
    → All IsByte key
    → is_empty (trim_space u db_name) ≡ false
    → is_empty key ≡ false
    → split_public_path u (b'/' ∷ (escaped db_name ++ (b'/' ∷ escaped key))) ≡ some (db_name, key)
split_public_path-escaped u db_name key h k named_db named_key =
    rw
      (
        split_public_path-append u (escaped db_name) (escaped key) (escaped-Lacks db_name h),
        path_unescape-escaped db_name h,
        path_unescape-escaped key k,
      )
      (unfold named in rw (named_db, named_key) refl)

none-named : (u : Unicode) (db_name : Option (List ℕ)) → named u db_name none ≡ none
unfolding named
none-named u none = refl
none-named u (some db_name) = refl

-- A path whose key ends in a percent sign is refused, whatever stands before it: net/http gives such
-- a path for a key that the client has escaped, and `splitPublicPath` takes its last byte for the
-- start of an escape.
pub split_public_path-percent :
    (u : Unicode) (db_name key : List ℕ)
    → Lacks b'/' db_name
    → split_public_path u (b'/' ∷ (db_name ++ (b'/' ∷ (key ++ (b'%' ∷ []))))) ≡ none
split_public_path-percent u db_name key h =
    rw (split_public_path-append u db_name (key ++ (b'%' ∷ [])) h, path_unescape-percent key)
      (none-named u (path_unescape db_name))
