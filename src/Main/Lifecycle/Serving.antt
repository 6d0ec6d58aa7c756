-- ===== src/Main/Lifecycle/Serving.antt =====
-- What the servers of main.go's process listen on.
use opa_openshift.Base.{String, Option, none, some, ◌≡◌}
use opa_openshift.Config.{Config}
use opa_openshift.Config.Tls.{ServerTls, IsServerTls}
use opa_openshift.Main.{Host, Process}
use opa_openshift.Main.Lifecycle.{
  Listener, http, internal, ListenCall, listen_and_serve, listen_and_serve_tls, listen_call,
  listener, serving, HttpServer,
}

-- The address, the certificate and the key of a server in a configuration.
abbrev pub address : Listener → Config → String
address http cfg = cfg.server.listen
address internal cfg = cfg.server.listen_internal

abbrev pub cert_file : Listener → Config → String
cert_file http cfg = cfg.tls.server_cert_file
cert_file internal cfg = cfg.tls.internal_server_cert_file

abbrev pub key_file : Listener → Config → String
key_file http cfg = cfg.tls.server_key_file
key_file internal cfg = cfg.tls.internal_server_key_file

module _ (host : Host) where
  -- The TLS of a server, as the configuration has it.
  abbrev pub IsTlsOf : Listener → Config → Option (ServerTls host.tls) → Type 0
  IsTlsOf k cfg =
      IsServerTls host.tls (cert_file k cfg) (key_file k cfg) cfg.tls.min_version
        cfg.tls.cipher_suites

  -- The call listens on the configured address, in the clear or with the configured TLS.
  abbrev pub IsConfigured : Listener → Config → ListenCall host → Type 0
  IsConfigured k cfg (listen_and_serve addr) = (addr ≡ address k cfg) × IsTlsOf k cfg none
  IsConfigured k cfg (listen_and_serve_tls addr c cert key) =
      (addr ≡ address k cfg) × IsTlsOf k cfg (some c)

  abbrev IsListening : Process host → Listener → HttpServer host → Type 0
  IsListening p k s =
      (call : ListenCall host)
      → s.phase ≡ serving call
      → call ≡ listen_call host (listener host p k)
