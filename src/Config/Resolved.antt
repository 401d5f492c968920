-- ===== src/Config/Resolved.antt =====
-- What holds of a configuration that `Resolve` has accepted.
use diarsaba_go.Prelude.{
  ℕ, ◌<◌, ◌≡◌, ◌≢◌, ◌⊎◌, refl, List, [], ◌∷◌, true, false, Option, none, some, ◌==◌, Bool-cases,
  inl, inr, arith,
}
use mathlib.Core.Path.{subst}
use diarsaba_go.Js.Number.{ℤ, pos, negsuc}
use diarsaba_go.Js.Strings.{literal}
use diarsaba_go.Go.{is_empty, trim_space}
use diarsaba_go.Http.{has_prefix, normalize_host_name}
use diarsaba_go.Config.{
  Config, Tools, public_host_required, api_host_required, request_timeout_not_positive,
  default_listen_addr, Mode, server, client, Outcome, refused, resolved, ◌>>=◌, ResolvedConfig,
  resolve_mode, positive, resolve_request_timeout, resolve_listen_addr, with_slash, resolve_ws_path,
  check_hosts, is_server, resolve,
}

pub record IsServable (rc : ResolvedConfig) : Type 0 where
  pub ws_path : has_prefix rc.ws_path (literal "/") ≡ true
  pub listen_addr : rc.listen_addr ≢ []
  pub request_timeout : 0 < rc.request_timeout
  pub enable_relay : rc.enable_relay ≡ is_server rc.mode
  pub hosts : (rc.mode ≡ client) ⊎ ((rc.public_host ≢ []) × (rc.api_host ≢ []))

-- Of two steps that were not refused: what the first gave.
pub returned {κ ℓ} :
    {B : Type κ} {A : Type ℓ} {r : A} (first : Outcome B) (call : B → Outcome A)
    → (first >>= call) ≡ resolved r
    → (value : B) × (first ≡ resolved value) × (call value ≡ resolved r)
returned (refused e) call both = cc
returned (resolved value) call both = (value, refl, both)

pub resolved-injective {ℓ} : {A : Type ℓ} {a b : A} → resolved a ≡ resolved b → a ≡ b
resolved-injective e = cc

nonempty : (s : List ℕ) → is_empty s ≡ false → s ≢ []
nonempty [] e h = cc
nonempty (b ∷ s) e h = cc

module _ (t : Tools) where
  positive-lt : (parsed : Option ℤ) (n : ℕ) → positive parsed ≡ resolved n → 0 < n
  unfolding positive
  positive-lt none n e = cc
  positive-lt (some (negsuc m)) n e = cc
  positive-lt (some (pos m)) n e = elim (Bool-cases (m == 0)) [
    | inl f ↦ let bad : refused request_timeout_not_positive ≡ resolved n = rw f at e in cc
    | inr f ↦
        let same : resolved m ≡ resolved n = rw f at e in
        let equal = resolved-injective same in
        let some_time : 0 < m = ground arith in omega (arith, equal, some_time)
  ]

  timeout-lt : (value : List ℕ) (n : ℕ) → resolve_request_timeout t value ≡ resolved n → 0 < n
  unfolding resolve_request_timeout
  timeout-lt value n e = elim (Bool-cases (is_empty (trim_space t.unicode value))) [
    | inl f ↦
        let same : resolved 10000000000 ≡ resolved n = rw f at e in
        let equal = resolved-injective same in omega (arith, equal)
    | inr f ↦ positive-lt (t.parse_duration (trim_space t.unicode value)) n (rw f at e)
  ]

  hosts_given :
      (public_host api_host : List ℕ) {u : Unit {0}}
      → check_hosts server public_host api_host ≡ resolved u
      → (public_host ≢ []) × (api_host ≢ [])
  unfolding check_hosts
  hosts_given public_host api_host e = elim (Bool-cases (is_empty public_host)) [
    | inl f ↦ let bad : refused public_host_required ≡ resolved tt = rw f at e in cc
    | inr f ↦ elim (Bool-cases (is_empty api_host)) [
      | inl g ↦ let bad : refused api_host_required ≡ resolved tt = rw (f, g) at e in cc
      | inr g ↦ (nonempty public_host f, nonempty api_host g)
    ]
  ]

  slash_in_front : (path : List ℕ) → has_prefix (with_slash path) (literal "/") ≡ true
  unfolding with_slash
  slash_in_front path = elim (Bool-cases (has_prefix path (literal "/"))) [
    | inl e ↦ rw (e, e) refl
    | inr e ↦ rw e (unfold has_prefix in refl)
  ]

  default_given : (mode : Mode) → default_listen_addr mode ≢ []
  default_given server e = cc
  default_given client e = cc

  listen_addr_given : (mode : Mode) (value : List ℕ) → resolve_listen_addr t mode value ≢ []
  unfolding resolve_listen_addr
  listen_addr_given mode value = elim (Bool-cases (is_empty (trim_space t.unicode value))) [
    | inl e ↦ rw e (default_given mode)
    | inr e ↦ rw e (nonempty (trim_space t.unicode value) e)
  ]

  hosts_checked :
      (mode : Mode) (public_host api_host : List ℕ) {u : Unit {0}}
      → check_hosts mode public_host api_host ≡ resolved u
      → (mode ≡ client) ⊎ ((public_host ≢ []) × (api_host ≢ []))
  hosts_checked client public_host api_host e = inl refl
  hosts_checked server public_host api_host e = inr (hosts_given public_host api_host e)

  -- A configuration that `Resolve` accepts can be served: the path of the WebSocket starts with a
  -- slash, there is an address to listen on, the timeout of a request is longer than nothing, the
  -- node is a relay exactly in server mode, and in server mode both hosts are given.
  pub resolve-IsServable :
      (config_dir : List ℕ) (cfg : Config) (rc : ResolvedConfig)
      → resolve t config_dir cfg ≡ resolved rc
      → IsServable rc
  unfolding resolve resolve_ws_path
  resolve-IsServable config_dir cfg rc e =
      let (mode, is_mode, timed) = returned (resolve_mode t cfg.mode) _ e in
      let (timeout, is_timeout, checked) =
        returned (resolve_request_timeout t cfg.request_timeout) _ timed in
      let public_host = normalize_host_name t.unicode cfg.public_host in
      let api_host = normalize_host_name t.unicode cfg.api_host in
      let (u, hosts, done) = returned (check_hosts mode public_host api_host) _ checked in
      subst IsServable (resolved-injective done) (record {
        ws_path = slash_in_front _;
        listen_addr = listen_addr_given mode cfg.listen_addr;
        request_timeout = timeout-lt cfg.request_timeout timeout is_timeout;
        enable_relay = refl;
        hosts = hosts_checked mode public_host api_host hosts;
      })
