-- ===== src/Page/Keys.antt =====
-- The keys of cards/index.html's pending requests: an id in hexadecimal stands for that id alone.
use diarsaba_go.Prelude.{
  ℕ, ◌/◌, ◌%◌, ◌<◌, ◌≡◌, ◌≢◌, refl, ap, sym, ◌∙◌, List, [], ◌∷◌, ◌++◌, none, some, true, false, All,
  ltb, Bool-cases, inl, inr, same_key, same_key→eq, put, lookup-put, lookup-delete,
  lookup-put_other, lookup-delete_other, arith,
}
use diarsaba_go.Js.Number.{IsByte}
use diarsaba_go.Js.Strings.Numerals.{digit, to_base, pad_start}
use diarsaba_go.Page.{Pending, byte_hex, short_hex, remember_pending, consume_pending}

-- Two digits, the high one first.
byte_hex-digits : (b : ℕ) → IsByte b → byte_hex b ≡ digit (b / 16) ∷ digit (b % 16) ∷ []
unfolding to_base pad_start
byte_hex-digits b h = elim (Bool-cases (ltb b 16)) [
  | inl e ↦
      let high : b / 16 ≡ 0 = ground arith in
      let low : b % 16 ≡ b = ground arith in rw (e, high, low) refl
  | inr e ↦ let high : ltb (b / 16) 16 ≡ true = ground arith in rw (e, high) refl
]

digit-injective : (m n : ℕ) → m < 16 → n < 16 → digit m ≡ digit n → m ≡ n
digit-injective m n h k e = ground arith

head-injective : {a b : ℕ} {xs ys : List ℕ} → (a ∷ xs) ≡ (b ∷ ys) → a ≡ b
head-injective e = cc

next-injective : {a b c d : ℕ} {xs ys : List ℕ} → (a ∷ b ∷ xs) ≡ (c ∷ d ∷ ys) → b ≡ d
next-injective e = cc

byte_hex-injective : (b c : ℕ) → IsByte b → IsByte c → byte_hex b ≡ byte_hex c → b ≡ c
byte_hex-injective b c h k e =
    let digits = sym (byte_hex-digits b h) ∙ e ∙ byte_hex-digits c k in
    let high =
      digit-injective (b / 16) (c / 16) (omega arith) (omega arith) (head-injective digits) in
    let low =
      digit-injective (b % 16) (c % 16) (omega arith) (omega arith) (next-injective digits) in
    omega (arith, high, low)

pair_of : {a b c d : ℕ} → a ≡ b → c ≡ d → a ∷ c ∷ [] ≡ b ∷ d ∷ []
pair_of e f = cc

after_two : {a b c d : ℕ} {xs ys : List ℕ} → (a ∷ b ∷ xs) ≡ (c ∷ d ∷ ys) → xs ≡ ys
after_two e = cc

front-split :
    {a b : ℕ} (xs ys : List ℕ)
    → IsByte a
    → IsByte b
    → byte_hex a ++ xs ≡ byte_hex b ++ ys
    → (byte_hex a ≡ byte_hex b) × (xs ≡ ys)
front-split {a} {b} xs ys h k e =
    let e' : digit (a / 16) ∷ digit (a % 16) ∷ xs ≡ digit (b / 16) ∷ digit (b % 16) ∷ ys =
      ap (λ s. s ++ xs) (sym (byte_hex-digits a h)) ∙ e ∙ ap (λ s. s ++ ys) (byte_hex-digits b k) in
    (
      byte_hex-digits a h
          ∙ pair_of (head-injective e') (next-injective e')
          ∙ sym (byte_hex-digits b k),
      after_two e',
    )

empty_not_pair : {a b : ℕ} {xs : List ℕ} → ¬ ([] ≡ a ∷ b ∷ xs)
empty_not_pair e = cc

-- `shortHex` tells any two lists of bytes apart.
pub short_hex-injective :
    (xs ys : List ℕ) → All IsByte xs → All IsByte ys → short_hex xs ≡ short_hex ys → xs ≡ ys
unfolding short_hex
short_hex-injective [] [] h k e = refl
short_hex-injective [] (y ∷ ys) h (k, ks) e = absurd (
    let e' : [] ≡ byte_hex y ++ short_hex ys = e in
    empty_not_pair (e' ∙ ap (λ s. s ++ short_hex ys) (byte_hex-digits y k)))
short_hex-injective (x ∷ xs) [] (h, hs) k e = absurd (
    let e' : byte_hex x ++ short_hex xs ≡ [] = e in
    empty_not_pair (sym e' ∙ ap (λ s. s ++ short_hex xs) (byte_hex-digits x h)))
short_hex-injective (x ∷ xs) (y ∷ ys) (h, hs) (k, ks) e =
    let (first, others) = front-split (short_hex xs) (short_hex ys) h k e in
    let same = byte_hex-injective x y h k first in
    let same_rest = short_hex-injective xs ys hs ks others in cc

keys_apart :
    (id other : List ℕ)
    → All IsByte id
    → All IsByte other
    → other ≢ id
    → same_key (short_hex id) (short_hex other) ≡ false
keys_apart id other h k differs = elim (Bool-cases (same_key (short_hex id) (short_hex other))) [
  | inl e ↦ absurd (
      differs
        (sym (short_hex-injective id other h k (same_key→eq (short_hex id) (short_hex other) e))))
  | inr e ↦ e
]

-- A response consumes the request that was remembered under its id, and no other: after
-- `rememberPending`, `consumePending` gives the opcode and leaves nothing under the id, and what
-- another id of bytes has is what it had before.
pub consume_pending-remember_pending :
    (id other : List ℕ) (opcode : ℕ) (pending : Pending)
    → All IsByte id
    → All IsByte other
    → other ≢ id
    → let (found, pending') = consume_pending id (remember_pending id opcode pending) in
      (found ≡ some opcode)
      × ((consume_pending id pending').0 ≡ none)
      × ((consume_pending other pending').0 ≡ (consume_pending other pending).0)
unfolding consume_pending remember_pending
consume_pending-remember_pending id other opcode pending h k differs =
    let key = short_hex id in
    let apart : same_key key (short_hex other) ≡ false = keys_apart id other h k differs in
    (
      lookup-put key opcode pending,
      lookup-delete key (put key opcode pending),
      lookup-delete_other key (short_hex other) (put key opcode pending) apart
          ∙ lookup-put_other key (short_hex other) opcode pending apart,
    )
