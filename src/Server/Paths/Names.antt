-- ===== src/Server/Paths/Names.antt =====
-- The paths that server.go's `splitPublicPath` accepts, without its own steps.
use diarsaba_go.Prelude.{
  ℕ, ◌≡◌, ◌≢◌, ◌↔◌, ◌⊎◌, inl, inr, refl, ap, List, [], ◌∙◌, ◌∷◌, ◌++◌, false, Option, none, some,
  ◌==◌, Bool-cases, arith,
}
use diarsaba_go.Js.Strings.Laws.{Lacks}
use diarsaba_go.Go.{Unicode, is_empty, trim_space, trim_prefix, cut, path_unescape}
use diarsaba_go.Go.Cuts.{cut-append, cut-inv, trim_prefix-inv}
use diarsaba_go.Http.{named, split_parts, split_public_path}

-- The path consists of a slash, which may be missing, a part without a slash, another slash and the
-- rest; the part decodes to the name, which is not blank, and the rest to the key, which is not empty.
pub record Names (u : Unicode) (path db_name key : List ℕ) : Type 0 where
  pub front : List ℕ
  pub part : List ℕ
  pub rest : List ℕ
  pub slash : (front ≡ []) ⊎ (front ≡ b'/' ∷ [])
  pub written : path ≡ front ++ (part ++ (b'/' ∷ rest))
  pub lacks : Lacks b'/' part
  pub db_name_decoded : path_unescape part ≡ some db_name
  pub key_decoded : path_unescape rest ≡ some key
  pub not_blank : is_empty (trim_space u db_name) ≡ false
  pub not_empty : is_empty key ≡ false

none-some : (parts : List ℕ × List ℕ) → none ≢ some parts
none-some parts e = cc

parts-injective :
    {db db_name k key : List ℕ}
    → ◌≡◌ {A = Option (List ℕ × List ℕ)} (some (db, k)) (some (db_name, key))
    → (db ≡ db_name) × (k ≡ key)
parts-injective e = (cc, cc)

named-inv :
    (u : Unicode) (x y : Option (List ℕ)) {db_name key : List ℕ}
    → named u x y ≡ some (db_name, key)
    → (x ≡ some db_name)
      × (y ≡ some key)
      × (is_empty (trim_space u db_name) ≡ false)
      × (is_empty key ≡ false)
unfolding named
named-inv u none y e = cc
named-inv u (some db) none e = cc
named-inv u (some db) (some k) {db_name} {key} e = elim (Bool-cases (is_empty (trim_space u db))) [
  | inl f ↦ absurd (none-some _ (rw f at e))
  | inr f ↦ elim (Bool-cases (is_empty k)) [
    | inl g ↦ absurd (none-some _ (rw (f, g) at e))
    | inr g ↦
        let (same_name, same_key) = parts-injective (rw (f, g) at e) in
        (ap some same_name, ap some same_key, rw (← same_name) f, rw (← same_key) g)
  ]
]

split_parts-inv :
    (u : Unicode) (parts : Option (List ℕ × List ℕ)) {db_name key : List ℕ}
    → split_parts u parts ≡ some (db_name, key)
    → (part : List ℕ) × (rest : List ℕ) × (parts ≡ some (part, rest))
      × (path_unescape part ≡ some db_name)
      × (path_unescape rest ≡ some key)
      × (is_empty (trim_space u db_name) ≡ false)
      × (is_empty key ≡ false)
unfolding split_parts
split_parts-inv u none e = cc
split_parts-inv u (some (part, rest)) e =
    let n = named-inv u (path_unescape part) (path_unescape rest) e in
    (part, rest, refl, n.0, n.1, n.2, n.3)

blank_not_decoded :
    (u : Unicode) (db_name : List ℕ)
    → path_unescape [] ≡ some db_name
    → is_empty (trim_space u db_name) ≢ false
unfolding path_unescape trim_space
blank_not_decoded u [] e h = cc
blank_not_decoded u (b ∷ db_name) e h = cc

-- A name that starts with another character, or is not there, keeps what stands behind no slash.
trim_prefix-part :
    (u : Unicode) (part rest db_name : List ℕ)
    → Lacks b'/' part
    → path_unescape part ≡ some db_name
    → is_empty (trim_space u db_name) ≡ false
    → trim_prefix b'/' (part ++ (b'/' ∷ rest)) ≡ part ++ (b'/' ∷ rest)
unfolding trim_prefix
trim_prefix-part u [] rest db_name h e k = absurd (blank_not_decoded u db_name e k)
trim_prefix-part u (b ∷ part) rest db_name h e k =
    let other : (b == b'/') ≡ false = ground (arith, h.0) in rw other refl

trim_prefix-front :
    (u : Unicode) (front part rest db_name : List ℕ)
    → (front ≡ []) ⊎ (front ≡ b'/' ∷ [])
    → Lacks b'/' part
    → path_unescape part ≡ some db_name
    → is_empty (trim_space u db_name) ≡ false
    → trim_prefix b'/' (front ++ (part ++ (b'/' ∷ rest))) ≡ part ++ (b'/' ∷ rest)
trim_prefix-front u front part rest db_name (inl f) h e k =
    rw f (trim_prefix-part u part rest db_name h e k)
trim_prefix-front u front part rest db_name (inr f) h e k = rw f (unfold trim_prefix in refl)

-- `splitPublicPath` gives a name and a key exactly where the path names them.
pub split_public_path_iff :
    (u : Unicode) (path db_name key : List ℕ)
    → (split_public_path u path ≡ some (db_name, key)) ↔ Names u path db_name key
unfolding split_public_path
split_public_path_iff u path db_name key = (
  λ e.
      let (part, rest, found, decoded, decoded', not_blank, not_empty) =
        split_parts-inv u (cut b'/' (trim_prefix b'/' path)) e in
      let (lacks, joined) = cut-inv b'/' (trim_prefix b'/' path) part rest found in
      let (front, slash, whole) = trim_prefix-inv b'/' path in
      record {
        front = front;
        part = part;
        rest = rest;
        slash = slash;
        written = whole ∙ ap (λ t. front ++ t) joined;
        lacks = lacks;
        db_name_decoded = decoded;
        key_decoded = decoded';
        not_blank = not_blank;
        not_empty = not_empty;
      },
  λ n.
      rw
        (
          n.written,
          trim_prefix-front u n.front n.part n.rest db_name n.slash n.lacks n.db_name_decoded
              n.not_blank,
          cut-append b'/' n.part n.rest n.lacks,
        )
        (unfold split_parts in
          rw (n.db_name_decoded, n.key_decoded)
            (unfold named in rw (n.not_blank, n.not_empty) refl)),
)
