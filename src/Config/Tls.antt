-- ===== src/Config/Tls.antt =====
-- `NewServerConfig` of internal/config/tls.go: with what TLS a server listens. `crypto/tls` and
-- the flag helpers of k8s are the parameter `TlsLib`.
use opa_openshift.Base.{
  ℕ, String, Option, none, some, List, [], ◌∷◌, ◌&&◌, ◌==◌, eq_iff, if◌then◌else◌, Result, ok,
  ◌>>=◌, context, context-eq-ok, >>=-eq-ok, ok_inj, subst, ◌≡◌, refl, arith, Bool-cases, inl, inr,
}

pub record TlsLib : Type 1 where
  pub Certificate : Type 0
  pub load_x509_key_pair : String → String → Result Certificate
  pub tls_version : String → Result ℕ
  pub tls_cipher_suites : List String → Result (List ℕ)

-- `tls.ClientAuthType`, as far as it is used
pub data ClientAuth : Type 0 where
  request_client_cert : ClientAuth

module _ (lib : TlsLib) where
  -- `tls.Config`, the fields that are set
  pub record ServerTls : Type 0 where
    pub certificates : List lib.Certificate
    pub cipher_suites : List ℕ
    pub client_auth : ClientAuth
    pub min_version : ℕ

  enable : String → String → String → List String → Result (Option ServerTls)
  enable cert_file key_file min_version cipher_suites = do
    tls_cert ← context "server credentials" (lib.load_x509_key_pair cert_file key_file)
    version ← context "TLS version invalid" (lib.tls_version min_version)
    suites ← context "TLS cipher suite name to ID conversion" (lib.tls_cipher_suites cipher_suites)
    ok (
        some (record {
          certificates = tls_cert ∷ [];
          cipher_suites = suites;
          client_auth = request_client_cert;
          min_version = version;
        }))

  -- `none` is a nil configuration: TLS is off.
  unfoldable pub new_server_config :
      String → String → String → List String → Result (Option ServerTls)
  unfolding enable
  new_server_config cert_file key_file min_version cipher_suites =
      if cert_file == "" && key_file == ""
      then ok none
      else enable cert_file key_file min_version cipher_suites

module _ (lib : TlsLib) where
  -- What a server's TLS is: off exactly if neither file is named, and otherwise with the
  -- certificate of these files, the version and the suites that were named.
  abbrev pub IsServerTls : String → String → String → List String → Option (ServerTls lib) → Type 0
  IsServerTls cert_file key_file min_version cipher_suites none = (cert_file ≡ "") × (key_file ≡ "")
  IsServerTls cert_file key_file min_version cipher_suites (some c) =
      (¬ ((cert_file ≡ "") × (key_file ≡ "")))
      × ((cert : lib.Certificate) × (c.certificates ≡ cert ∷ [])
          × (lib.load_x509_key_pair cert_file key_file ≡ ok cert))
      × (lib.tls_version min_version ≡ ok c.min_version)
      × (lib.tls_cipher_suites cipher_suites ≡ ok c.cipher_suites)

  enable_ok :
      (cert_file key_file min_version : String) (suites : List String)
      (tls : Option (ServerTls lib))
      → ¬ ((cert_file ≡ "") × (key_file ≡ ""))
      → enable lib cert_file key_file min_version suites ≡ ok tls
      → IsServerTls cert_file key_file min_version suites tls
  unfolding enable
  enable_ok cert_file key_file min_version suites tls named e =
      let (cert, c, e1) =
        >>=-eq-ok (context "server credentials" (lib.load_x509_key_pair cert_file key_file)) _ e in
      let (version, v, e2) =
        >>=-eq-ok (context "TLS version invalid" (lib.tls_version min_version)) _ e1 in
      let (ids, s, e3) =
        >>=-eq-ok (context "TLS cipher suite name to ID conversion" (lib.tls_cipher_suites suites))
          _ e2 in
      subst (IsServerTls cert_file key_file min_version suites) (ok_inj e3) (
        named,
        (cert, refl, (context-eq-ok _ _ cert).0 c),
        (context-eq-ok _ _ version).0 v,
        (context-eq-ok _ _ ids).0 s,
      )

  -- If the configuration of a server's TLS succeeds, it is as named: off exactly if neither file is
  -- named, and otherwise with the certificate, the version and the suites that were named.
  pub new_server_config-IsServerTls :
      (cert_file key_file min_version : String) (suites : List String)
      (tls : Option (ServerTls lib))
      → new_server_config lib cert_file key_file min_version suites ≡ ok tls
      → IsServerTls cert_file key_file min_version suites tls
  unfolding new_server_config
  new_server_config-IsServerTls cert_file key_file min_version suites tls e =
      elim (Bool-cases (cert_file == "" && key_file == "")) [
        | inl off ↦
            subst (IsServerTls cert_file key_file min_version suites) (ok_inj (rw off at e))
              (ground (arith, eq_iff cert_file "", eq_iff key_file ""))
        | inr on ↦
            enable_ok cert_file key_file min_version suites tls
              (ground (arith, eq_iff cert_file "", eq_iff key_file "")) (rw on at e)
      ]
