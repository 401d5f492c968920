-- ===== src/Config/Overrides.antt =====
-- `applyEnvOverrides` of config.go: the variables of the environment.
use diarsaba_go.Prelude.{
  ℕ, String, List, [], ◌∷◌, Bool, true, false, Option, none, some, ◌||◌, if◌then◌else◌, lookup,
}
use diarsaba_go.Js.Number.{ℤ}
use diarsaba_go.Js.Strings.{literal, split}
use diarsaba_go.Go.{is_empty, same_text, to_lower}
use diarsaba_go.Config.{Config, Tools, trimmed}

-- The environment: names and values.
abbrev pub Environment : Type 0
Environment = List (List ℕ × List ℕ)

unfoldable pub parsed_or : Option ℤ → ℤ → ℤ
parsed_or none target = target
parsed_or (some parsed) target = parsed

unfoldable pub one_of : List ℕ → List String → Bool
one_of value [] = false
one_of value (word ∷ words) = same_text value (literal word) || one_of value words

module _ (t : Tools) where
  unfoldable pub string_value : Option (List ℕ) → List ℕ → List ℕ
  string_value none target = target
  string_value (some value) target = trimmed t value

  unfoldable pub apply_string_env : Environment → String → List ℕ → List ℕ
  apply_string_env env key target = string_value (lookup (literal key) env) target

  unfoldable pub int_value : Option (List ℕ) → ℤ → ℤ
  int_value none target = target
  int_value (some value) target =
      if is_empty (trimmed t value) then target else parsed_or (t.atoi (trimmed t value)) target

  unfoldable pub apply_int_env : Environment → String → ℤ → ℤ
  apply_int_env env key target = int_value (lookup (literal key) env) target

  unfoldable pub nonblank : List (List ℕ) → List (List ℕ)
  nonblank [] = []
  nonblank (part ∷ parts) =
      let rest = nonblank parts in if is_empty (trimmed t part) then rest else trimmed t part ∷ rest

  unfoldable pub csv_value : Option (List ℕ) → List (List ℕ) → List (List ℕ)
  csv_value none target = target
  csv_value (some value) target = nonblank (split b',' value)

  unfoldable pub apply_csv_env : Environment → String → List (List ℕ) → List (List ℕ)
  apply_csv_env env key target = csv_value (lookup (literal key) env) target

  unfoldable pub bool_value : Option (List ℕ) → Bool → Bool
  bool_value none target = target
  bool_value (some value) target =
      let word = trimmed t (to_lower t.unicode value) in
      if one_of word ("1" ∷ "true" ∷ "yes" ∷ "on" ∷ [])
      then true
      else if one_of word ("0" ∷ "false" ∷ "no" ∷ "off" ∷ [])
      then false
      else target

  unfoldable pub apply_bool_env : Environment → String → Bool → Bool
  apply_bool_env env key target = bool_value (lookup (literal key) env) target

  unfoldable pub apply_env_overrides : Environment → Config → Config
  apply_env_overrides env cfg = record {
    mode = apply_string_env env "DIARSABA_MODE" cfg.mode;
    listen_addr = apply_string_env env "DIARSABA_LISTEN_ADDR" cfg.listen_addr;
    public_host = apply_string_env env "DIARSABA_PUBLIC_HOST" cfg.public_host;
    api_host = apply_string_env env "DIARSABA_API_HOST" cfg.api_host;
    index_path = apply_string_env env "DIARSABA_INDEX_PATH" cfg.index_path;
    ws_path = apply_string_env env "DIARSABA_WS_PATH" cfg.ws_path;
    request_timeout = apply_string_env env "DIARSABA_REQUEST_TIMEOUT" cfg.request_timeout;
    log_enabled = apply_bool_env env "DIARSABA_LOG_ENABLED" cfg.log_enabled;
    listen_port = apply_int_env env "DIARSABA_SYNAP2P_LISTEN_PORT" cfg.listen_port;
    data_dir = apply_string_env env "DIARSABA_SYNAP2P_DATA_DIR" cfg.data_dir;
    key_path = apply_string_env env "DIARSABA_SYNAP2P_KEY_PATH" cfg.key_path;
    namespace = apply_string_env env "DIARSABA_SYNAP2P_NAMESPACE" cfg.namespace;
    app_id = apply_string_env env "DIARSABA_SYNAP2P_APP_ID" cfg.app_id;
    protocol_prefix = apply_string_env env "DIARSABA_SYNAP2P_PROTOCOL_PREFIX" cfg.protocol_prefix;
    listen_addrs = apply_csv_env env "DIARSABA_SYNAP2P_LISTEN_ADDRS" cfg.listen_addrs;
    bootstrap_list = apply_csv_env env "DIARSABA_SYNAP2P_BOOTSTRAP_LIST" cfg.bootstrap_list;
    static_relays = apply_csv_env env "DIARSABA_SYNAP2P_STATIC_RELAYS" cfg.static_relays;
    db_path = apply_string_env env "DIARSABA_SAMSARA_DB_PATH" cfg.db_path;
  }
