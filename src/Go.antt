-- ===== src/Go.antt =====
-- What server.go and config.go use of Go's strings, net and net/url. A string is the list of its bytes.
pub mod Cuts
pub mod Escapes
use diarsaba_go.Prelude.{
  ℕ, ◌+◌, ◌-◌, ◌*◌, String, List, [], ◌∷◌, ◌++◌, length, take, drop, get_or, Bool, true, false,
  Option, none, some, leb, ltb, ◌==◌, ◌&&◌, ◌||◌, same_key, if◌then◌else◌,
}
use mathlib.Core.Bool.{not}
use diarsaba_go.Js.Strings.{index_of}

-- What Go's Unicode tables say of a string that is not ASCII: strings.ToLower, and TrimFunc and
-- TrimRightFunc with unicode.IsSpace.
pub record Unicode : Type 0 where
  pub to_lower : List ℕ → List ℕ
  pub trim : List ℕ → List ℕ
  pub trim_right : List ℕ → List ℕ

abbrev pub is_empty : List ℕ → Bool
is_empty [] = true
is_empty (b ∷ rest) = false

-- Equality of strings.
abbrev pub same_text : List ℕ → List ℕ → Bool
same_text xs ys = same_key xs ys

unfoldable pub is_ascii : List ℕ → Bool
is_ascii [] = true
is_ascii (b ∷ rest) = ltb b 0x80 && is_ascii rest

unfoldable pub lower_byte : ℕ → ℕ
lower_byte b = if leb 65 b && leb b 90 then b + 32 else b

unfoldable pub lowered : List ℕ → List ℕ
lowered [] = []
lowered (b ∷ rest) = lower_byte b ∷ lowered rest

unfoldable pub to_lower : Unicode → List ℕ → List ℕ
to_lower u s = if is_ascii s then lowered s else u.to_lower s

unfoldable pub is_space : ℕ → Bool
is_space b = b == 32 || (leb 9 b && leb b 13)

-- The ASCII spaces at the end are dropped.
unfoldable pub trim_end : List ℕ → List ℕ
trim_end [] = []
trim_end (b ∷ rest) =
    let rest' = trim_end rest in if is_empty rest' && is_space b then [] else b ∷ rest'

unfoldable pub last_or : Option ℕ → ℕ → Option ℕ
last_or (some c) b = some c
last_or none b = if is_space b then none else some b

-- The byte at which the loop from the end stops.
unfoldable pub last_not_space : List ℕ → Option ℕ
unfolding last_or
last_not_space [] = none
last_not_space (b ∷ rest) = last_or (last_not_space rest) b

unfoldable pub trim_tail : Unicode → Option ℕ → List ℕ → List ℕ
trim_tail u none s = []
trim_tail u (some b) s = if ltb b 0x80 then trim_end s else u.trim_right (trim_end s)

-- strings.TrimSpace: the fast path for ASCII, until a byte of another character is met.
unfoldable pub trim_space : Unicode → List ℕ → List ℕ
trim_space u [] = []
trim_space u (b ∷ rest) =
    let trimmed = trim_space u rest in
    if leb 0x80 b
    then u.trim (b ∷ rest)
    else if is_space b
    then trimmed
    else trim_tail u (last_not_space (b ∷ rest)) (b ∷ rest)

-- strings.TrimPrefix and strings.TrimSuffix, of one byte.
unfoldable pub trim_prefix : ℕ → List ℕ → List ℕ
trim_prefix c [] = []
trim_prefix c (b ∷ rest) = if b == c then rest else b ∷ rest

unfoldable pub trim_suffix : ℕ → List ℕ → List ℕ
trim_suffix c [] = []
trim_suffix c (b ∷ rest) =
    let rest' = trim_suffix c rest in if is_empty rest && b == c then [] else b ∷ rest'

cut_at : List ℕ → Option ℕ → Option (List ℕ × List ℕ)
cut_at s none = none
cut_at s (some i) = some (take i s, drop (i + 1) s)

-- strings.SplitN(s, c, 2) where it gives two parts.
unfoldable pub cut : ℕ → List ℕ → Option (List ℕ × List ℕ)
unfolding cut_at
cut c s = cut_at s (index_of c s)

later : Option ℕ → ℕ → Option ℕ
later (some i) j = some (i + 1)
later none j = none

-- The last index of a byte.
unfoldable pub last_index_of : ℕ → List ℕ → Option ℕ
unfolding later
last_index_of c [] = none
last_index_of c (b ∷ rest) =
    let behind = later (last_index_of c rest) 0 in
    let here = if b == c then some 0 else none in elim behind [ some i ↦ some i | none ↦ here ]

abbrev pub contains : ℕ → List ℕ → Bool
contains c s = elim (index_of c s) [ some i ↦ true | none ↦ false ]

bracketed : List ℕ → ℕ → Option ℕ → Option (List ℕ)
bracketed s colon none = none
bracketed s colon (some end) =
    if end + 1 == colon && not (contains b'[' (drop 1 s) || contains b']' (drop (end + 1) s))
    then some (take (end - 1) (drop 1 s))
    else none

unbracketed : List ℕ → ℕ → Option (List ℕ)
unbracketed s colon =
    if contains b':' (take colon s) || (contains b'[' s || contains b']' s)
    then none
    else some (take colon s)

host_before : List ℕ → Option ℕ → Option (List ℕ)
host_before s none = none
host_before s (some colon) =
    if get_or s 0 0 == b'[' then bracketed s colon (index_of b']' s) else unbracketed s colon

-- net.SplitHostPort: the host, or `none` for an error.
unfoldable pub split_host_port : List ℕ → Option (List ℕ)
unfolding host_before bracketed unbracketed
split_host_port s = host_before s (last_index_of b':' s)

unfoldable pub is_hex : ℕ → Bool
is_hex c = (leb 48 c && leb c 57) || ((leb 97 c && leb c 102) || (leb 65 c && leb c 70))

unfoldable pub unhex : ℕ → ℕ
unhex c = if leb 48 c && leb c 57 then c - 48 else if leb 97 c && leb c 102 then c - 87 else c - 55

unfoldable pub prepend : ℕ → Option (List ℕ) → Option (List ℕ)
prepend c none = none
prepend c (some rest) = some (c ∷ rest)

-- url.PathUnescape, with `none` for an error.
unfoldable pub path_unescape : List ℕ → Option (List ℕ)
path_unescape [] = some []
path_unescape (c ∷ []) = if c == b'%' then none else some (c ∷ [])
path_unescape (c ∷ d ∷ []) =
    let rest = path_unescape (d ∷ []) in if c == b'%' then none else prepend c rest
path_unescape (c ∷ d ∷ e ∷ rest) =
    let decoded = prepend (unhex d * 16 + unhex e) (path_unescape rest) in
    let plain = prepend c (path_unescape (d ∷ e ∷ rest)) in
    if c == b'%' then (if is_hex d && is_hex e then decoded else none) else plain
