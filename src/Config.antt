-- ===== src/Config.antt =====
-- config.go: the variables of the environment that override a configuration, and `Resolve`, which
-- checks it and fills in the defaults.
pub mod Overrides
pub mod Resolved
pub mod KeyPath
use diarsaba_go.Prelude.{
  ℕ, ◌<◌, String, List, [], ◌∷◌, ◌++◌, Bool, true, false, Option, none, some, ◌==◌, ◌&&◌, ◌||◌,
  if◌then◌else◌, lookup,
}
use mathlib.Core.Bool.{not}
use diarsaba_go.Js.Number.{ℤ, pos, negsuc}
use diarsaba_go.Js.Strings.{literal, split}
use diarsaba_go.Go.{Unicode, is_empty, same_text, to_lower, trim_space}
use diarsaba_go.Http.{has_prefix, normalize_host_name}

-- The settings that a variable of the environment can override. The others of synap2p-go's own
-- struct are passed on as they are.
pub record Config : Type 0 where
  pub mode : List ℕ
  pub listen_addr : List ℕ
  pub public_host : List ℕ
  pub api_host : List ℕ
  pub index_path : List ℕ
  pub ws_path : List ℕ
  pub request_timeout : List ℕ
  pub log_enabled : Bool
  pub listen_port : ℤ
  pub data_dir : List ℕ
  pub key_path : List ℕ
  pub namespace : List ℕ
  pub app_id : List ℕ
  pub protocol_prefix : List ℕ
  pub listen_addrs : List (List ℕ)
  pub bootstrap_list : List (List ℕ)
  pub static_relays : List (List ℕ)
  pub db_path : List ℕ

-- What config.go calls of other packages: Go's Unicode tables, strconv.Atoi, time.ParseDuration, and
-- filepath.Clean, which filepath.Join ends with.
pub record Tools : Type 0 where
  pub unicode : Unicode
  pub atoi : List ℕ → Option ℤ
  pub parse_duration : List ℕ → Option ℤ
  pub clean : List ℕ → List ℕ

pub data Mode : Type 0 where
  server client : Mode

-- Why a configuration is refused.
pub data Refusal : Type 0 where
  unsupported_mode : List ℕ → Refusal
  parse_request_timeout : Refusal
  request_timeout_not_positive : Refusal
  public_host_required : Refusal
  api_host_required : Refusal

pub data Outcome {ℓ} (A : Type ℓ) : Type ℓ where
  refused : Refusal → Outcome A
  resolved : A → Outcome A

-- `if err != nil { return … }`
infixl 5 ◌>>◌ ◌>>=◌
abbrev pub ◌>>=◌ {κ ℓ} : {B : Type κ} {A : Type ℓ} → Outcome B → (B → Outcome A) → Outcome A
refused e >>= call = refused e
resolved value >>= call = call value

abbrev pub ◌>>◌ {κ ℓ} : {B : Type κ} {A : Type ℓ} → Outcome B → Outcome A → Outcome A
first >> next = first >>= λ value. next

pub record ResolvedConfig : Type 0 where
  pub mode : Mode
  pub listen_addr : List ℕ
  pub public_host : List ℕ
  pub api_host : List ℕ
  pub index_path : List ℕ
  pub ws_path : List ℕ
  pub log_enabled : Bool
  pub request_timeout : ℕ
  pub data_dir : List ℕ
  pub key_path : List ℕ
  pub enable_relay : Bool
  pub db_path : List ℕ

unfoldable pub mode_of : List ℕ → List ℕ → Outcome Mode
mode_of mode normalized =
    if is_empty normalized || same_text normalized (literal "client")
    then resolved client
    else if same_text normalized (literal "server")
    then resolved server
    else refused (unsupported_mode mode)

-- Ten seconds, in nanoseconds.
abbrev pub default_request_timeout : ℕ
default_request_timeout = 10000000000

unfoldable pub positive : Option ℤ → Outcome ℕ
positive none = refused parse_request_timeout
positive (some (negsuc n)) = refused request_timeout_not_positive
positive (some (pos n)) = if n == 0 then refused request_timeout_not_positive else resolved n

abbrev pub default_listen_addr : Mode → List ℕ
default_listen_addr server = literal ":8080"
default_listen_addr client = literal "127.0.0.1:8080"

unfoldable pub with_slash : List ℕ → List ℕ
with_slash path = if has_prefix path (literal "/") then path else b'/' ∷ path

unfoldable pub check_hosts : Mode → List ℕ → List ℕ → Outcome (Unit {0})
check_hosts client public_host api_host = resolved tt
check_hosts server public_host api_host =
    if is_empty public_host
    then refused public_host_required
    else if is_empty api_host
    then refused api_host_required
    else resolved tt

abbrev pub is_server : Mode → Bool
is_server server = true
is_server client = false

module _ (t : Tools) where
  abbrev pub trimmed : List ℕ → List ℕ
  trimmed s = trim_space t.unicode s

  -- A blank value is replaced by the default.
  unfoldable pub or_default : List ℕ → List ℕ → List ℕ
  or_default value default = if is_empty (trimmed value) then default else value

  unfoldable pub resolve_mode : List ℕ → Outcome Mode
  resolve_mode mode = mode_of mode (to_lower t.unicode (trimmed mode))

  unfoldable pub resolve_request_timeout : List ℕ → Outcome ℕ
  resolve_request_timeout value =
      if is_empty (trimmed value)
      then resolved default_request_timeout
      else positive (t.parse_duration (trimmed value))

  -- On Unix, where an absolute path starts with a slash.
  unfoldable pub resolve_relative_path : List ℕ → List ℕ → List ℕ
  resolve_relative_path base_dir value =
      if is_empty (trimmed value)
      then []
      else if has_prefix (trimmed value) (literal "/")
      then trimmed value
      else t.clean (base_dir ++ (b'/' ∷ trimmed value))

  unfoldable pub resolve_listen_addr : Mode → List ℕ → List ℕ
  resolve_listen_addr mode value =
      if is_empty (trimmed value) then default_listen_addr mode else trimmed value

  unfoldable pub resolve_ws_path : List ℕ → List ℕ
  resolve_ws_path value =
      with_slash (if is_empty (trimmed value) then literal "/ws" else trimmed value)

  -- A relative path of the key, where the directory is blank after it has been resolved.
  unfoldable pub resolve_key_path : List ℕ → List ℕ → List ℕ → List ℕ
  resolve_key_path config_dir data_dir key_path =
      if not (is_empty (trimmed key_path))
        && (not (has_prefix key_path (literal "/")) && is_empty (trimmed data_dir))
      then resolve_relative_path config_dir key_path
      else key_path

  unfoldable pub resolve : List ℕ → Config → Outcome ResolvedConfig
  resolve config_dir cfg = do
    mode ← resolve_mode cfg.mode
    request_timeout ← resolve_request_timeout cfg.request_timeout
    let public_host = normalize_host_name t.unicode cfg.public_host
    let api_host = normalize_host_name t.unicode cfg.api_host
    check_hosts mode public_host api_host
    let data_dir =
        resolve_relative_path config_dir (or_default cfg.data_dir (literal "./data/synap2p"))
    resolved (record {
      mode = mode;
      listen_addr = resolve_listen_addr mode cfg.listen_addr;
      public_host = public_host;
      api_host = api_host;
      index_path =
          resolve_relative_path config_dir
            (or_default cfg.index_path (literal "./cards/index.html"));
      ws_path = resolve_ws_path cfg.ws_path;
      log_enabled = cfg.log_enabled;
      request_timeout = request_timeout;
      data_dir = data_dir;
      key_path = resolve_key_path config_dir data_dir cfg.key_path;
      enable_relay = is_server mode;
      db_path =
          resolve_relative_path config_dir (or_default cfg.db_path (literal "./data/samsara"));
    })
