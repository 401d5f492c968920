-- ===== src/Tests/Configuring.antt =====
-- A configuration of server mode.
use diarsaba_go.Prelude.{◌≡◌, refl, [], true, false, none, some, same_key}
use diarsaba_go.Js.Number.{pos}
use diarsaba_go.Js.Strings.{literal}
use diarsaba_go.Go.{
  is_ascii, lower_byte, lowered, to_lower, is_space, trim_end, last_or, last_not_space, trim_tail,
  trim_space, trim_suffix,
}
use diarsaba_go.Http.{has_prefix, normalize_host_name}
use diarsaba_go.Config.{
  Config, Tools, server, resolved, ResolvedConfig, mode_of, resolve_mode, positive,
  resolve_request_timeout, resolve_listen_addr, with_slash, resolve_ws_path, check_hosts,
  or_default, resolve_relative_path, resolve_key_path, resolve,
}
use diarsaba_go.Config.Resolved.{IsServable, resolve-IsServable}
use diarsaba_go.Config.KeyPath.{KeepsSlash, resolve-key_path}
use diarsaba_go.Tests.Serving.{ascii_only}

abbrev tools : Tools
tools = record {
  unicode = ascii_only;
  atoi = λ s. none;
  parse_duration = λ s. some (pos 5);
  clean = λ path. path;
}

abbrev config : Config
config = record {
  mode = literal " Server ";
  listen_addr = [];
  public_host = literal "P.";
  api_host = literal "a";
  index_path = [];
  ws_path = literal "ws";
  request_timeout = literal "5ns";
  log_enabled = false;
  listen_port = pos 0;
  data_dir = literal "d";
  key_path = literal "k";
  namespace = [];
  app_id = [];
  protocol_prefix = [];
  listen_addrs = [];
  bootstrap_list = [];
  static_relays = [];
  db_path = literal "/s";
}

abbrev resolved_config : ResolvedConfig
resolved_config = record {
  mode = server;
  listen_addr = literal ":8080";
  public_host = literal "p";
  api_host = literal "a";
  index_path = literal "/c/./cards/index.html";
  ws_path = literal "/ws";
  log_enabled = false;
  request_timeout = 5;
  data_dir = literal "/c/d";
  key_path = literal "k";
  enable_relay = true;
  db_path = literal "/s";
}

config_resolved : resolve tools (literal "/c") config ≡ resolved resolved_config
unfolding resolve mode_of resolve_mode positive resolve_request_timeout resolve_listen_addr
    with_slash resolve_ws_path check_hosts or_default resolve_relative_path resolve_key_path
    normalize_host_name has_prefix is_ascii lower_byte lowered to_lower is_space trim_end last_or
    last_not_space trim_tail trim_space trim_suffix same_key
config_resolved = refl

resolve-IsServable_example : IsServable resolved_config
resolve-IsServable_example =
    resolve-IsServable tools (literal "/c") config resolved_config config_resolved

slash_kept : KeepsSlash tools
slash_kept = record { cleaned = λ path h. h; trimmed_right = λ path h. h }

resolve-key_path_example : resolved_config.key_path ≡ literal "k"
resolve-key_path_example =
    resolve-key_path tools slash_kept (literal "/c") config resolved_config
      (unfold has_prefix in refl) config_resolved
