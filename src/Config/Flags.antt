-- ===== src/Config/Flags.antt =====
-- `ParseFlags` and `parseLogLevel` of internal/config/config.go. Parsing the command line itself
-- is pflag's: the model starts from the values that pflag leaves in the variables.
pub mod Names
pub mod Checks
use opa_openshift.Base.{
  ℕ, pos, String, Bool, true, false, Option, none, some, List, [], ◌∷◌, ◌==◌, ◌=?◌, if◌then◌else◌,
  leb, ◌&&◌, ◌||◌, not, code, Error, plain, Result, ok, err, ◌>>=◌, context, ◌<>◌,
}
use Prim.Native.String
use opa_openshift.Base.Text.{split, contains}
use opa_openshift.Base.Assoc.{Assoc, put}
use opa_openshift.Config.{
  LogLevel, allow_error, allow_warn, allow_info, allow_debug, OpaConfig, ServerConfig, TlsConfig,
  MemcachedConfig, Config,
}

-- What `flag.Parse` leaves: the fields of the configuration that flags are bound to, and the
-- variables that are read later. `none` is the nil slice of a flag that was not given.
pub record RawFlags : Type 0 where
  pub config : Config
  pub log_level_raw : String
  pub raw_tls_cipher_suites : String
  pub mappings_raw : Option (List String)

-- The default values with which the flags are declared.
unfoldable pub default_flags : RawFlags
default_flags = record {
  config = record {
    kubeconfig_path = "";
    debug_token = "";
    name = "opa-openshift";
    mappings = [];
    log_format = "logfmt";
    log_level = allow_info;
    opa = record {
      pkg = "";
      rule = "allow";
      matcher = "";
      matcher_op = "";
      matcher_skip_tenants = "";
      matcher_admin_groups = "";
      ssar = false;
      viaq_to_otel_migration = false;
    };
    server = record {
      listen = ":8080";
      listen_internal = ":8081";
      healthcheck_url = "http://localhost:8080";
    };
    tls = record {
      min_version = "VersionTLS13";
      cipher_suites = [];
      server_cert_file = "";
      server_key_file = "";
      internal_server_cert_file = "";
      internal_server_key_file = "";
      internal_server_ca_file = "";
    };
    memcached = record { expire = pos 60; interval = pos 10; servers = [] };
  };
  log_level_raw = "info";
  raw_tls_cipher_suites = "";
  mappings_raw = none;
}

-- `[_A-Za-z]`
unfoldable pub is_name_start : ℕ → Bool
is_name_start c = c =? b'_' || (leb b'A' c && leb c b'Z') || (leb b'a' c && leb c b'z')

-- `\w`
unfoldable pub is_word : ℕ → Bool
unfolding is_name_start
is_word c = is_name_start c || (leb b'0' c && leb c b'9')

unfoldable pub all_word : String → Bool
all_word String.[] = true
all_word (String.◌∷◌ c s) = is_word (code c) && all_word s

-- `^[_A-Za-z][\w]*$`
unfoldable pub valid_rule : String → Bool
valid_rule String.[] = false
valid_rule (String.◌∷◌ c s) = is_name_start (code c) && all_word s

-- The matcher of `[_A-Za-z][\w]*(\.[_A-Za-z][\w]*)*$`, from the start of a name (true) or from
-- inside one (false).
unfoldable pub package_from : Bool → String → Bool
package_from true String.[] = false
package_from true (String.◌∷◌ c s) = is_name_start (code c) && package_from false s
package_from false String.[] = true
package_from false (String.◌∷◌ c s) =
    let word = package_from false s in
    let name = package_from true s in
    elim (is_word (code c)) [ true ↦ word | false ↦ (code c =? b'.') && name ]

-- `^[_A-Za-z][\w]*(\.[_A-Za-z][\w]*)*$`
abbrev pub valid_package : String → Bool
valid_package s = package_from true s

unfoldable pub parse_log_level : String → Result LogLevel
parse_log_level raw =
    if raw == "error"
    then ok allow_error
    else if raw == "warn"
    then ok allow_warn
    else if raw == "info"
    then ok allow_info
    else if raw == "debug"
    then ok allow_debug
    else err (plain ("unexpected log level: " <> raw))

-- A mapping's two sides; `none` if the text has not exactly one "=".
unfoldable pub two_parts : List String → Option (String × String)
two_parts (k ∷ v ∷ []) = some (k, v)
two_parts _ = none

-- How `ParseFlags` ends: it returns, or `stdlog.Fatal` ends the process.
pub data Ended : Type 0 where
  returned : Result Config → Ended
  fatal : String → Ended

-- the end of the function: `errViaQOTELMatcher`
unfoldable pub check_viaq : Config → Result Config
check_viaq cfg =
    if cfg.opa.viaq_to_otel_migration
      && (not (contains cfg.opa.matcher "kubernetes_namespace_name")
          || not (contains cfg.opa.matcher "k8s_namespace_name"))
    then err (
        plain
          "OPA matcher must contain both 'kubernetes_namespace_name' and 'k8s_namespace_name' when ViaQ to OTel migration is enabled")
    else ok cfg

unfoldable pub check_names : Config → Result (Unit {0})
check_names cfg =
    if not (cfg.opa.pkg == "") && not (valid_package cfg.opa.pkg)
    then err (plain ("invalid OPA package name: " <> cfg.opa.pkg))
    else if not (cfg.opa.rule == "") && not (valid_rule cfg.opa.rule)
    then err (plain ("invalid OPA rule name: " <> cfg.opa.rule))
    else ok tt

-- `cfg.LogLevel = ll`, and the cipher suites if their flag is not empty
unfoldable pub set_parsed : RawFlags → LogLevel → Config
set_parsed raw ll =
    let tls = raw.config.tls in
    let suites =
      if raw.raw_tls_cipher_suites == ""
      then tls.cipher_suites
      else split b',' raw.raw_tls_cipher_suites in
    record raw.config { log_level = ll; tls = record tls { cipher_suites = suites } }

-- `%q` prints a text by `strconv.Quote`; nothing rests on how.
module _ (quote : String → String) where
  -- the loop over `*mappingsRaw`
  unfoldable pub add_mappings : Assoc String → List String → Result (Assoc String)
  add_mappings mappings [] = ok mappings
  add_mappings mappings (m ∷ ms) = elim (two_parts (split b'=' m)) [
    | none ↦ err (plain ("invalid mapping: " <> quote m))
    | some (k, v) ↦ add_mappings (put k v mappings) ms
  ]

  unfoldable pub parse_mappings : Config → Option (List String) → Ended
  parse_mappings cfg none = fatal "missing tenant mappings"
  parse_mappings cfg (some ms) =
      returned do mappings ← add_mappings [] ms; check_viaq (record cfg { mappings = mappings })

  -- `mark_hidden` is the result of pflag's `MarkHidden("debug.token")`.
  unfoldable pub parse_flags : Result (Unit {0}) → RawFlags → Ended
  parse_flags (err e) raw = fatal "failed to mark flag hidden"
  parse_flags (ok _) raw = elim (context "invalid log level" (parse_log_level raw.log_level_raw)) [
    | err e ↦ returned (err e)
    | ok ll ↦
        let cfg = set_parsed raw ll in
        elim (check_names cfg) [
          | err e ↦ returned (err e)
          | ok _ ↦ parse_mappings cfg raw.mappings_raw
        ]
  ]
