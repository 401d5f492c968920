-- ===== src/Synap/Frames/Texts.antt =====
-- The texts inside payloads: lists of peers, and topics with their messages.
use diarsaba_go.Prelude.{
  ℕ, suc, ◌≡◌, ◌≢◌, refl, ap, ◌∙◌, List, [], ◌∷◌, ◌++◌, length, drop, All, take-length_append,
  drop-length_append, append_assoc, length-append, arith,
}
use diarsaba_go.Js.Result.{ok}
use diarsaba_go.Js.Text.{encode, decode, strip_bom}
use diarsaba_go.Js.Text.RoundTrip.{IsWellFormed, decode-encode}
use diarsaba_go.Js.Strings.{split, filter_nonempty, join, index_of}
use diarsaba_go.Js.Strings.Laws.{
  Lacks, join-nonempty, split-join, filter_nonempty-of_nonempty, index_of-append, index_of-Lacks,
}
use diarsaba_go.Common.Value.{Value, Converts}
use diarsaba_go.Common.Convert.{utf8_text}
use diarsaba_go.Synap.Frames.{parse_peers_csv, peers_of_text, split_pub_payload, split_text}

-- A text that survives the way through UTF-8: no lone surrogate, and no byte order mark in front.
pub record IsPlain (s : List ℕ) : Type 0 where
  pub well_formed : IsWellFormed s
  pub unmarked : strip_bom s ≡ s

pub decode-encode-IsPlain : {s : List ℕ} → IsPlain s → decode (encode s) ≡ s
decode-encode-IsPlain h = decode-encode h.well_formed ∙ h.unmarked

pub utf8_text-encode :
    {bytes : Value} {s : List ℕ} → Converts bytes (encode s) → IsPlain s → utf8_text bytes ≡ ok s
unfolding utf8_text
utf8_text-encode m h = rw (m.converted, m.elements, decode-encode-IsPlain h)

-- What a list of peers has to satisfy to be written as one text.
abbrev pub IsPeer : List ℕ → Type 0
IsPeer s = (s ≢ []) × Lacks b',' s

peers_of_text-nonempty : (s : List ℕ) → s ≢ [] → peers_of_text s ≡ filter_nonempty (split b',' s)
unfolding peers_of_text
peers_of_text-nonempty [] h = absurd (h refl)
peers_of_text-nonempty (u ∷ s) h = refl

All-Lacks : (ss : List (List ℕ)) → All IsPeer ss → All (Lacks b',') ss
All-Lacks [] h = tt
All-Lacks (s ∷ ss) h = (h.0.1, All-Lacks ss h.1)

All-nonempty : (ss : List (List ℕ)) → All IsPeer ss → All (λ s. s ≢ []) ss
All-nonempty [] h = tt
All-nonempty (s ∷ ss) h = (h.0.0, All-nonempty ss h.1)

pub peers_of_text-join :
    (peers : List (List ℕ)) → All IsPeer peers → peers_of_text (join b',' peers) ≡ peers
peers_of_text-join [] h = unfold peers_of_text join in refl
peers_of_text-join (s ∷ rest) h =
    peers_of_text-nonempty _ (join-nonempty b',' s rest h.0.0)
    ∙ ap filter_nonempty (split-join b',' s rest (All-Lacks (s ∷ rest) h))
    ∙ filter_nonempty-of_nonempty (s ∷ rest) (All-nonempty (s ∷ rest) h)

-- `parsePeersCsv` gives back the peers that were joined by commas and encoded, where none is empty
-- or holds a comma, and the joined text survives the encoding.
pub parse_peers_csv-join :
    {bytes : Value} (peers : List (List ℕ))
    → All IsPeer peers
    → IsPlain (join b',' peers)
    → Converts bytes (encode (join b',' peers))
    → parse_peers_csv bytes ≡ ok peers
unfolding parse_peers_csv
parse_peers_csv-join peers h t m = rw (utf8_text-encode m t, peers_of_text-join peers h)

split_text-append :
    (topic message : List ℕ)
    → Lacks b'|' topic
    → split_text (topic ++ (b'|' ∷ message)) (index_of b'|' (topic ++ (b'|' ∷ message)))
      ≡ record { topic = topic; message = message }
unfolding split_text
split_text-append topic message h =
    rw
      (
        index_of-append b'|' topic message h,
        take-length_append (length topic) topic (b'|' ∷ message) refl,
      )
      (λ i. record { topic = topic; message = behind i })
  where
    behind : drop (suc (length topic)) (topic ++ (b'|' ∷ message)) ≡ message
    behind =
        ap (drop (suc (length topic))) (assoc)
        ∙ drop-length_append (suc (length topic)) (topic ++ (b'|' ∷ [])) message
            (omega (arith, length-append topic (b'|' ∷ [])))
      where
        assoc : topic ++ (b'|' ∷ message) ≡ (topic ++ (b'|' ∷ [])) ++ message
        assoc = rw append_assoc

-- `splitPubPayload` cuts a payload at its first bar.
pub split_pub_payload-append :
    {bytes : Value} (topic message : List ℕ)
    → Lacks b'|' topic
    → IsPlain (topic ++ (b'|' ∷ message))
    → Converts bytes (encode (topic ++ (b'|' ∷ message)))
    → split_pub_payload bytes ≡ ok (record { topic = topic; message = message })
unfolding split_pub_payload
split_pub_payload-append topic message h t m =
    rw (utf8_text-encode m t) (ap ok (split_text-append topic message h))

-- Without a bar the whole payload is the topic.
pub split_pub_payload-Lacks :
    {bytes : Value} (topic : List ℕ)
    → Lacks b'|' topic
    → IsPlain topic
    → Converts bytes (encode topic)
    → split_pub_payload bytes ≡ ok (record { topic = topic; message = [] })
unfolding split_pub_payload split_text
split_pub_payload-Lacks topic h t m = rw (utf8_text-encode m t, index_of-Lacks b'|' topic h)
