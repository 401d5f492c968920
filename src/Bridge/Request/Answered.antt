-- ===== src/Bridge/Request/Answered.antt =====
-- Every HTTP request to Synap is answered, by its own response or by an error frame with its id.
use diarsaba_go.Prelude.{
  ℕ, ◌≡◌, ◌≢◌, ◌⊎◌, inl, inr, refl, sym, List, [], ◌∷◌, Bool, true, false, Option, none, some, All,
  lookup,
}
use diarsaba_go.Dispatch.{
  Ranges, ErrorCode, error_result, duplicate_request, node_process_failed, request_timeout,
  request_id_from_frame, synap_response_id,
}
use diarsaba_go.Bridge.{
  PendingRequest, http_response, SynapBridge, Process, request_key, registered, register_pending,
  processed, submitted, submit, begin_request, time_out, pending_duplicate_info,
  response_timeout_info,
}
use diarsaba_go.Bridge.Request.{
  Turn, timer, meanwhile, happens, received, response_or, awaited, request,
}
use diarsaba_go.Bridge.Request.Channel.{IsApart, Owns, submit-Owns, happens-Owns, received-happens}

abbrev pub AreApart : ℕ → List Turn → Type 0
AreApart channel [] = Unit {0}
AreApart channel (timer ∷ turns) = AreApart channel turns
AreApart channel (meanwhile event ∷ turns) = IsApart channel event × AreApart channel turns

-- The timer fires at some time.
abbrev pub has_timer : List Turn → Bool
has_timer [] = false
has_timer (timer ∷ turns) = true
has_timer (meanwhile event ∷ turns) = has_timer turns

-- An error frame with the request's id, or a frame that answers this id.
abbrev pub IsAnswer : Ranges → List ℕ → List ℕ → Type 0
IsAnswer r frame bytes =
    ((code : ErrorCode) × (info : List ℕ) × (bytes
        ≡ error_result (request_id_from_frame frame) code info))
    ⊎ ((id : List ℕ) × (synap_response_id r bytes ≡ some id)
        × (request_key id ≡ request_key (request_id_from_frame frame)))

some-injective : {x y : List ℕ} → some x ≡ some y → x ≡ y
some-injective e = cc

none-some : (text : List ℕ) → none ≢ some text
none-some text e = cc

module _ (r : Ranges) (process : Process) (channel : ℕ) (frame : List ℕ) where
  abbrev own_key : List ℕ
  own_key = request_key (request_id_from_frame frame)

  -- An answer that comes, or one that comes later.
  response_or-IsAnswer :
      (response : Option (List ℕ)) (b : SynapBridge) (later : Option (List ℕ) × SynapBridge)
      → ((text : List ℕ) → response ≡ some text → IsAnswer r frame text)
      → ((response ≡ none) → (bytes : List ℕ) × (later.0 ≡ some bytes) × IsAnswer r frame bytes)
      → (bytes : List ℕ) × ((response_or response b later).0 ≡ some bytes) × IsAnswer r frame bytes
  unfolding response_or
  response_or-IsAnswer (some text) b later h k = (text, refl, h text refl)
  response_or-IsAnswer none b later h k = k refl

  awaited-IsAnswer :
      (turns : List Turn) (b : SynapBridge)
      → AreApart channel turns
      → has_timer turns ≡ true
      → All (Owns r process channel own_key) b.pending
      → (bytes : List ℕ) × ((awaited r process channel frame turns b).0 ≡ some bytes)
        × IsAnswer r frame bytes
  unfolding awaited time_out
  awaited-IsAnswer [] b apart fires own = cc
  awaited-IsAnswer (timer ∷ turns) b apart fires own = (
    error_result (request_id_from_frame frame) request_timeout response_timeout_info,
    refl,
    inl (request_timeout, response_timeout_info, refl),
  )
  awaited-IsAnswer (meanwhile event ∷ turns) b (apart, others) fires own =
      let (deliveries, b') = happens r process event b in
      response_or-IsAnswer (received channel deliveries) b'
        (awaited r process channel frame turns b')
        (λ text e. inr (received-happens r process channel own_key event text b own e))
        (λ e.
          awaited-IsAnswer turns b' others fires
            (happens-Owns r process channel own_key event b apart own))

  -- Why a request may be refused at once: the node does not take it, or its id is in use.
  processed-IsAnswer :
      (result : Option (List ℕ)) (b : SynapBridge) (text : List ℕ)
      → (processed result (request_id_from_frame frame) b).0 ≡ some text
      → IsAnswer r frame text
  unfolding processed
  processed-IsAnswer none b text e = absurd (none-some text e)
  processed-IsAnswer (some info) b text e = inl (node_process_failed, info, sym (some-injective e))

  refused-IsAnswer :
      (b : SynapBridge) (found : Option PendingRequest) (text : List ℕ)
      → (submitted process frame
          (request_id_from_frame frame)
          (registered found own_key (http_response channel) b)).0
        ≡ some text
      → IsAnswer r frame text
  unfolding submitted registered
  refused-IsAnswer b (some q) text e =
      inl (duplicate_request, pending_duplicate_info, sym (some-injective e))
  refused-IsAnswer b none text e =
      processed-IsAnswer (process frame)
        (record b { pending = (own_key, http_response channel) ∷ b.pending }) text e

  submit-IsAnswer :
      (b : SynapBridge) (text : List ℕ)
      → (submit process (http_response channel) frame b).0 ≡ some text
      → IsAnswer r frame text
  unfolding submit register_pending
  submit-IsAnswer b text e = refused-IsAnswer b (lookup own_key b.pending) text e

  -- Nothing waits on a new channel.
  new-Owns :
      (l : List (List ℕ × PendingRequest))
      → All (λ e. e.1 ≢ http_response channel) l
      → All (Owns r process channel own_key) l
  new-Owns [] h = tt
  new-Owns ((k, p) ∷ rest) (h, t) = (λ e. absurd (h e), new-Owns rest t)

  -- An HTTP request to Synap whose timer fires at some time is answered, whatever happens in the
  -- bridge before: by an error frame with the id of its own frame, or by a frame of the node that
  -- answers this id. No other request uses its channel, which is new.
  pub request-IsAnswer :
      (turns : List Turn) (b : SynapBridge)
      → AreApart channel turns
      → has_timer turns ≡ true
      → All (λ e. e.1 ≢ http_response channel) b.pending
      → (bytes : List ℕ) × ((request r process channel frame turns b).0 ≡ some bytes)
        × IsAnswer r frame bytes
  unfolding request
  request-IsAnswer turns b apart fires new =
      let (refused, b') = begin_request process channel frame b in
      response_or-IsAnswer refused b' (awaited r process channel frame turns b') (submit-IsAnswer b)
        (λ e. awaited-IsAnswer turns b' apart fires (
          submit-Owns r process channel own_key (http_response channel) frame b (λ e. refl)
            (new-Owns b.pending new)))
