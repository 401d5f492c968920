-- ===== src/Server/Api.antt =====
-- Which HTTP requests of server mode reach the Synap bridge.
use diarsaba_go.Prelude.{
  ℕ, ◌≡◌, ◌⊎◌, inl, inr, refl, List, true, ◌||◌, Option, none, some, Bool-cases,
}
use diarsaba_go.Js.Strings.{literal}
use diarsaba_go.Dispatch.{DispatchTarget, unknown, synap, samsara, classify_frame}
use diarsaba_go.Bridge.{http_response}
use diarsaba_go.Go.{same_text}
use diarsaba_go.Http.{Method, get, post, other, Request, strip_port, normalize_host_name}
use diarsaba_go.Server.{
  Packages, State, Settings, refused_or_awaits, to_target, dispatch_http, handle_body,
  handle_binary_http, api_by, handle_server_api, handle_public_read, handle_server,
}
use diarsaba_go.Server.PublicRead.{read_by-OnlyRead}

module _ {S : Type 0} (p : Packages S) where
  -- The bridge is left as it was, or the frame in the body is one for Synap.
  abbrev pub OnlySynap : Option (List ℕ) → State S → State S → Type 0
  OnlySynap body before after =
      (after.bridge ≡ before.bridge)
      ⊎ ((frame : List ℕ) × (body ≡ some frame) × ((classify_frame p.ranges frame).target ≡ synap))

  to_target-OnlySynap :
      (channel : ℕ) (frame : List ℕ) (error_frame : Option (List ℕ)) (target : DispatchTarget)
      (st : State S)
      → (classify_frame p.ranges frame).target ≡ target
      → OnlySynap
          (some frame)
          st
          (to_target p refused_or_awaits (http_response channel) frame error_frame target st).1
  unfolding to_target
  to_target-OnlySynap channel frame (some bytes) target st e = inl refl
  to_target-OnlySynap channel frame none unknown st e = inl refl
  to_target-OnlySynap channel frame none samsara st e = inl refl
  to_target-OnlySynap channel frame none synap st e = inr (frame, refl, e)

  handle_body-OnlySynap :
      (channel : ℕ) (body : Option (List ℕ)) (st : State S)
      → OnlySynap body st (handle_body p channel body st).1
  unfolding handle_body dispatch_http
  handle_body-OnlySynap channel none st = inl refl
  handle_body-OnlySynap channel (some frame) st =
      let c = classify_frame p.ranges frame in
      to_target-OnlySynap channel frame c.error_frame c.target st refl

  -- A POST request to the root that carries a frame for Synap.
  abbrev pub IsSynapPost : Request → Type 0
  IsSynapPost r =
      (r.method ≡ post)
      × (same_text r.path (literal "/") ≡ true)
      × ((frame : List ℕ) × (r.body ≡ some frame)
          × ((classify_frame p.ranges frame).target ≡ synap))

  api_by-bridge :
      (method : Method) (settings : Settings) (channel : ℕ) (r : Request) (st : State S)
      → r.method ≡ method
      → ((api_by p method settings channel r st).1.bridge ≡ st.bridge) ⊎ IsSynapPost r
  unfolding api_by handle_binary_http
  api_by-bridge get settings channel r st e =
      inl
        (elim (Bool-cases
          (same_text r.path (literal "/") || same_text r.path (literal "/index.html"))) [
            | inl f ↦ rw f refl
            | inr f ↦ rw f refl
          ])
  api_by-bridge post settings channel r st e = elim (Bool-cases (same_text r.path (literal "/"))) [
    | inl f ↦ elim (handle_body-OnlySynap channel r.body st) [
      | inl same ↦ inl (rw f same)
      | inr sent ↦ inr (e, f, sent)
    ]
    | inr f ↦ inl (rw f refl)
  ]
  api_by-bridge other settings channel r st e = inl refl

  -- In server mode a request leaves the bridge as it was, unless it goes to the host of the API, by
  -- POST and to the root, and its body is a frame for Synap.
  pub handle_server-bridge :
      (settings : Settings) (channel : ℕ) (r : Request) (st : State S)
      → ((handle_server p settings channel r st).1.bridge ≡ st.bridge)
        ⊎ ((same_text (normalize_host_name p.unicode (strip_port r.host)) settings.api_host ≡ true)
            × IsSynapPost r)
  unfolding handle_server handle_public_read handle_server_api
  handle_server-bridge settings channel r st =
      let host = normalize_host_name p.unicode (strip_port r.host) in
      elim (Bool-cases (same_text host settings.public_host)) [
        | inl e ↦ inl (rw e (read_by-OnlyRead p r.method r st).1)
        | inr e ↦ elim (Bool-cases (same_text host settings.api_host)) [
          | inl f ↦ elim (api_by-bridge r.method settings channel r st refl) [
            | inl same ↦ inl (rw (e, f) same)
            | inr sent ↦ inr (f, sent)
          ]
          | inr f ↦ inl (rw (e, f) refl)
        ]
      ]
