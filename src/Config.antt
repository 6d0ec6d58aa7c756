-- ===== src/Config.antt =====
-- internal/config/config.go: the configuration that the program is started with. The flags are in
-- Config/Flags, the label matcher in Config/Matcher, server TLS in Config/Tls.
pub mod Flags
pub mod Matcher
pub mod Tls
use opa_openshift.Base.{ℤ, String, Bool, List}
use opa_openshift.Base.Assoc.{Assoc}

-- `level.Option`: what the four options of go-kit's filter let through
pub data LogLevel : Type 0 where
  allow_error allow_warn allow_info allow_debug : LogLevel

pub record OpaConfig : Type 0 where
  pub pkg : String
  pub rule : String
  pub matcher : String
  pub matcher_op : String
  pub matcher_skip_tenants : String
  pub matcher_admin_groups : String
  pub ssar : Bool
  pub viaq_to_otel_migration : Bool

pub record ServerConfig : Type 0 where
  pub listen : String
  pub listen_internal : String
  pub healthcheck_url : String

pub record TlsConfig : Type 0 where
  pub min_version : String
  pub cipher_suites : List String
  pub server_cert_file : String
  pub server_key_file : String
  pub internal_server_cert_file : String
  pub internal_server_key_file : String
  pub internal_server_ca_file : String

pub record MemcachedConfig : Type 0 where
  pub expire : ℤ
  pub interval : ℤ
  pub servers : List String

pub record Config : Type 0 where
  pub kubeconfig_path : String
  pub debug_token : String
  pub name : String
  pub mappings : Assoc String
  pub log_format : String
  pub log_level : LogLevel
  pub opa : OpaConfig
  pub server : ServerConfig
  pub tls : TlsConfig
  pub memcached : MemcachedConfig
