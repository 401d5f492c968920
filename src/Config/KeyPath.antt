-- ===== src/Config/KeyPath.antt =====
-- The path of the node's key in config.go: `Resolve` never changes it.
use diarsaba_go.Prelude.{
  ℕ, ◌≡◌, refl, ap, sym, ◌∙◌, List, [], ◌∷◌, ◌++◌, true, false, Option, none, some, ◌==◌, ==_iff,
  ltb, Bool-cases, inl, inr,
}
use diarsaba_go.Js.Strings.{literal}
use diarsaba_go.Go.{is_empty, is_space, trim_end, last_or, last_not_space, trim_tail, trim_space}
use diarsaba_go.Http.{has_prefix, normalize_host_name}
use diarsaba_go.Config.{
  Config, Tools, resolved, ResolvedConfig, resolve_mode, resolve_request_timeout, check_hosts,
  or_default, resolve_relative_path, resolve_key_path, resolve,
}
use diarsaba_go.Config.Resolved.{returned, resolved-injective}

abbrev pub IsAbsolute : List ℕ → Type 0
IsAbsolute path = has_prefix path (literal "/") ≡ true

-- What filepath.Clean and strings.TrimRightFunc keep: the slash in front of a path.
pub record KeepsSlash (t : Tools) : Type 0 where
  pub cleaned : (path : List ℕ) → IsAbsolute path → IsAbsolute (t.clean path)
  pub trimmed_right : (path : List ℕ) → IsAbsolute path → IsAbsolute (t.unicode.trim_right path)

absolute_not_empty : (path : List ℕ) → IsAbsolute path → is_empty path ≡ false
unfolding has_prefix
absolute_not_empty [] h = cc
absolute_not_empty (b ∷ path) h = refl

slash-IsAbsolute : (rest : List ℕ) → IsAbsolute (b'/' ∷ rest)
unfolding has_prefix
slash-IsAbsolute rest = refl

prefix-append : (path rest : List ℕ) → IsAbsolute path → IsAbsolute (path ++ rest)
unfolding has_prefix
prefix-append [] rest h = cc
prefix-append (b ∷ path) rest h = h

trim_end-slash : (rest : List ℕ) → trim_end (b'/' ∷ rest) ≡ b'/' ∷ trim_end rest
unfolding trim_end is_space
trim_end-slash rest = elim (Bool-cases (is_empty (trim_end rest))) [
  | inl e ↦ rw e refl
  | inr e ↦ rw e refl
]

module _ (t : Tools) (keeps : KeepsSlash t) where
  trim_tail-slash :
      (last : Option ℕ) (c : ℕ) (rest : List ℕ)
      → IsAbsolute (trim_tail t.unicode (last_or last b'/') (b'/' ∷ rest))
  unfolding trim_tail last_or is_space
  trim_tail-slash none c rest = rw (trim_end-slash rest) (slash-IsAbsolute (trim_end rest))
  trim_tail-slash (some b) c rest = elim (Bool-cases (ltb b 0x80)) [
    | inl e ↦ rw (e, trim_end-slash rest) (slash-IsAbsolute (trim_end rest))
    | inr e ↦
        rw (e, trim_end-slash rest)
          (keeps.trimmed_right (b'/' ∷ trim_end rest) (slash-IsAbsolute (trim_end rest)))
  ]

  trim_space-IsAbsolute : (path : List ℕ) → IsAbsolute path → IsAbsolute (trim_space t.unicode path)
  unfolding trim_space last_not_space has_prefix is_space
  trim_space-IsAbsolute [] h = cc
  trim_space-IsAbsolute (b ∷ rest) h = elim (Bool-cases (b == b'/')) [
    | inl e ↦ rw ((==_iff b b'/').0 e) (trim_tail-slash (last_not_space rest) 0 rest)
    | inr e ↦ let bad : false ≡ true = rw e at h in cc
  ]

  -- A path that is not blank is resolved to an absolute one.
  resolve_relative_path-IsAbsolute :
      (config_dir path : List ℕ)
      → IsAbsolute config_dir
      → is_empty (trim_space t.unicode path) ≡ false
      → IsAbsolute (resolve_relative_path t config_dir path)
  unfolding resolve_relative_path
  resolve_relative_path-IsAbsolute config_dir path h given =
      elim (Bool-cases (has_prefix (trim_space t.unicode path) (literal "/"))) [
        | inl e ↦ rw (given, e, e) refl
        | inr e ↦
            rw (given, e)
              (keeps.cleaned _ (prefix-append config_dir (b'/' ∷ trim_space t.unicode path) h))
      ]

  default_kept :
      (value default : List ℕ)
      → is_empty (trim_space t.unicode default) ≡ false
      → is_empty (trim_space t.unicode (or_default t value default)) ≡ false
  unfolding or_default
  default_kept value default h = elim (Bool-cases (is_empty (trim_space t.unicode value))) [
    | inl e ↦ rw e h
    | inr e ↦ rw (e, e) refl
  ]

  default_given : is_empty (trim_space t.unicode (literal "./data/synap2p")) ≡ false
  unfolding trim_space trim_tail last_not_space last_or trim_end is_space
  default_given = refl

  kept :
      (key_path data_dir config_dir : List ℕ)
      → is_empty (trim_space t.unicode data_dir) ≡ false
      → resolve_key_path t config_dir data_dir key_path ≡ key_path
  unfolding resolve_key_path
  kept key_path data_dir config_dir present =
      elim (Bool-cases (is_empty (trim_space t.unicode key_path))) [
        | inl e ↦ rw e refl
        | inr e ↦ elim (Bool-cases (has_prefix key_path (literal "/"))) [
          | inl f ↦ rw (e, f) refl
          | inr f ↦ rw (e, f, present) refl
        ]
      ]

  -- `Resolve` keeps the path of the node's key as it is, relative or not: the branch that would
  -- resolve it asks for a blank data directory, and the directory has just been given an absolute
  -- path. The configuration's directory is absolute, and filepath.Clean and strings.TrimRightFunc keep
  -- a slash in front.
  pub resolve-key_path :
      (config_dir : List ℕ) (cfg : Config) (rc : ResolvedConfig)
      → IsAbsolute config_dir
      → resolve t config_dir cfg ≡ resolved rc
      → rc.key_path ≡ cfg.key_path
  unfolding resolve
  resolve-key_path config_dir cfg rc h e =
      let (mode, is_mode, timed) = returned (resolve_mode t cfg.mode) _ e in
      let (timeout, is_timeout, checked) =
        returned (resolve_request_timeout t cfg.request_timeout) _ timed in
      let (u, hosts, done) =
        returned
          (check_hosts mode (normalize_host_name t.unicode cfg.public_host)
            (normalize_host_name t.unicode cfg.api_host))
          _ checked in
      let data_dir =
        resolve_relative_path t config_dir (or_default t cfg.data_dir (literal "./data/synap2p")) in
      let present : is_empty (trim_space t.unicode data_dir) ≡ false =
        absolute_not_empty (trim_space t.unicode data_dir) (
          trim_space-IsAbsolute data_dir (
            resolve_relative_path-IsAbsolute config_dir
              (or_default t cfg.data_dir (literal "./data/synap2p")) h
              (default_kept cfg.data_dir (literal "./data/synap2p") default_given))) in
      sym (ap (λ c. c.key_path) (resolved-injective done))
      ∙ kept cfg.key_path data_dir config_dir present
