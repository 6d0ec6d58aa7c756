-- ===== src/Main/Start.antt =====
-- What is known of a process of main.go that has started.
use opa_openshift.Base.{String, ◌≡◌, refl, subst, ok, err, >>=-eq-ok, ok_inj, err-ne-ok}
use opa_openshift.Config.{Config}
use opa_openshift.Config.Flags.{Ended, returned, fatal}
use opa_openshift.Config.Tls.{IsServerTls, new_server_config, new_server_config-IsServerTls}
use opa_openshift.Main.{
  Host, Server, Process, choose_cache, data_path, liveness_check, new_server, start,
}

module _ (host : Host) where
  -- A server listens on its address, with TLS exactly if its certificate or its key is named.
  abbrev pub IsServer : String → String → String → Config → Server host → Type 0
  IsServer addr cert_file key_file cfg s =
      (s.addr ≡ addr)
      × IsServerTls host.tls cert_file key_file cfg.tls.min_version cfg.tls.cipher_suites
          s.tls_config

  new_server-IsServer :
      (addr cert_file key_file : String) (cfg : Config) (s : Server host)
      → new_server host addr cert_file key_file cfg ≡ ok s
      → IsServer addr cert_file key_file cfg s
  unfolding new_server
  new_server-IsServer addr cert_file key_file cfg s e =
      let (tls, t, made) =
        >>=-eq-ok
          (new_server_config host.tls cert_file key_file cfg.tls.min_version cfg.tls.cipher_suites)
          _ e in
      subst (IsServer addr cert_file key_file cfg) (ok_inj made) (
        refl,
        new_server_config-IsServerTls host.tls cert_file key_file cfg.tls.min_version
            cfg.tls.cipher_suites tls t,
      )

  -- A process that has started.
  pub record IsStarted (ended : Ended) (p : Process host) : Type 0 where
    pub cfg : Config
    pub parsed : ended ≡ returned (ok cfg)
    pub cache : p.cache ≡ choose_cache cfg.memcached
    pub path : p.path ≡ data_path cfg.opa
    pub liveness : liveness_check host cfg ≡ ok p.liveness
    pub server :
        IsServer cfg.server.listen cfg.tls.server_cert_file cfg.tls.server_key_file cfg p.server
    pub internal_server :
        IsServer cfg.server.listen_internal cfg.tls.internal_server_cert_file
          cfg.tls.internal_server_key_file cfg p.internal_server

  -- A process serves only with a configuration that was parsed without an error; each of its two
  -- servers has the TLS that this configuration names, in the clear exactly if it names neither a
  -- certificate nor a key for it.
  pub start-IsStarted :
      (ended : Ended) (p : Process host) → start host ended ≡ ok p → IsStarted ended p
  unfolding start
  start-IsStarted (fatal text) p e = absurd (err-ne-ok e)
  start-IsStarted (returned (err x)) p e = absurd (err-ne-ok e)
  start-IsStarted (returned (ok cfg)) p e =
      let (liveness, l, e1) = >>=-eq-ok (liveness_check host cfg) _ e in
      let (server, s, e2) =
        >>=-eq-ok
          (new_server host cfg.server.listen cfg.tls.server_cert_file cfg.tls.server_key_file cfg) _
          e1 in
      let (internal, i, e3) =
        >>=-eq-ok
          (new_server host cfg.server.listen_internal cfg.tls.internal_server_cert_file
            cfg.tls.internal_server_key_file cfg)
          _ e2 in
      subst (IsStarted (returned (ok cfg))) (ok_inj e3) (record {
        cfg = cfg;
        parsed = refl;
        cache = refl;
        path = refl;
        liveness = l;
        server = new_server-IsServer _ _ _ cfg server s;
        internal_server = new_server-IsServer _ _ _ cfg internal i;
      })
