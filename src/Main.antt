-- ===== src/Main.antt =====
-- main.go: what the process serves once it has started; how it runs and ends is in Main/Lifecycle.
-- Loggers, metrics and the profiler are left out.
pub mod Start
pub mod Endpoint
pub mod Service
pub mod Metrics
pub mod Lifecycle
use opa_openshift.Base.{
  ℕ, ℤ, String, Bool, true, false, Option, none, some, List, [], ◌∷◌, is_nil, ◌==◌, ◌=?◌, code,
  if◌then◌else◌, plain, Result, ok, err, ◌>>=◌, context,
}
use Prim.Native.String
use opa_openshift.Base.Path.{join_path}
use opa_openshift.Config.{OpaConfig, MemcachedConfig, Config}
use opa_openshift.Config.Flags.{Ended, returned, fatal}
use opa_openshift.Config.Tls.{TlsLib, ServerTls, new_server_config}

-- Which cache is made, with its arguments.
pub data CacheChoice : Type 0 where
  memcached : ℤ → ℤ → List String → CacheChoice
  in_memory : ℤ → CacheChoice

abbrev pub choose_cache : MemcachedConfig → CacheChoice
choose_cache c =
    if is_nil c.servers then in_memory c.expire else memcached c.interval c.expire c.servers

-- `strings.ReplaceAll(s, ".", "/")`
unfoldable pub replace_dots : String → String
replace_dots String.[] = ""
replace_dots (String.◌∷◌ c s) =
    let rest = replace_dots s in
    elim (code c =? b'.') [ true ↦ String.◌∷◌ "/" rest | false ↦ String.◌∷◌ c rest ]

-- The path that the handler is registered for.
unfoldable pub data_path : OpaConfig → String
data_path c = join_path ("/v1/data" ∷ replace_dots c.pkg ∷ c.rule ∷ [])

-- What the process takes from its surroundings, beside TLS: files, and a pool of the CA
-- certificates in a file.
pub record Host : Type 1 where
  pub tls : TlsLib
  pub read_file : String → Result String
  pub CertPool : Type 0
  pub pool_of_pem : String → CertPool

module _ (host : Host) where
  -- The liveness check: the URL that it gets, the status that it wants, and its own TLS.
  pub record LivenessCheck : Type 0 where
    pub url : String
    pub min_version : ℕ
    pub root_cas : Option host.CertPool
    pub expected_status : ℕ

  pub record Server : Type 0 where
    pub addr : String
    pub tls_config : Option (ServerTls host.tls)

  pub record Process : Type 0 where
    pub cache : CacheChoice
    pub path : String
    pub liveness : Option LivenessCheck
    pub server : Server
    pub internal_server : Server

  unfoldable pub root_cas : String → Result (Option host.CertPool)
  root_cas ca_file =
      if ca_file == ""
      then ok none
      else context "failed to initialize healthcheck server TLS CA" (host.read_file ca_file)
        >>= λ pem. ok (some (host.pool_of_pem pem))

  unfoldable pub liveness_check : Config → Result (Option LivenessCheck)
  liveness_check cfg = if cfg.server.healthcheck_url == "" then ok none else do
    version ← context "failed to read TLS min version" (host.tls.tls_version cfg.tls.min_version)
    cas ← root_cas cfg.tls.internal_server_ca_file
    ok (
        some (record {
          url = cfg.server.healthcheck_url;
          min_version = version;
          root_cas = cas;
          expected_status = 404;
        }))

  unfoldable pub new_server : String → String → String → Config → Result Server
  new_server addr cert_file key_file cfg = do
    tls ← new_server_config host.tls cert_file key_file cfg.tls.min_version cfg.tls.cipher_suites
    ok (record { addr = addr; tls_config = tls })

  -- `main` up to `g.Run`; an error is the text with which `stdlog.Fatal` ends the process.
  unfoldable pub start : Ended → Result Process
  start (fatal text) = err (plain text)
  start (returned (err e)) = err e
  start (returned (ok cfg)) = do
    liveness ← liveness_check cfg
    server ← new_server cfg.server.listen cfg.tls.server_cert_file cfg.tls.server_key_file cfg
    internal_server ←
        new_server cfg.server.listen_internal cfg.tls.internal_server_cert_file
          cfg.tls.internal_server_key_file cfg
    ok (record {
      cache = choose_cache cfg.memcached;
      path = data_path cfg.opa;
      liveness = liveness;
      server = server;
      internal_server = internal_server;
    })
