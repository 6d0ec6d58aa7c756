-- ===== src/Tests/Startup.antt =====
-- A process that starts.
use opa_openshift.Base.{
  String, true, none, some, [], ◌∷◌, ◌++◌, ◌≡◌, refl, plain, ok, err, ◌<>◌, is_nil, filter,
  if◌then◌else◌, ◌==◌,
}
use opa_openshift.Base.Text.{split, join, has_prefix}
use opa_openshift.Base.Path.{join_path, clean, steps, step, up}
use opa_openshift.Config.{Config}
use opa_openshift.Config.Flags.{
  returned, valid_package, valid_rule, package_from, is_name_start, is_word, all_word,
}
use opa_openshift.Config.Tls.{TlsLib, ServerTls, request_client_cert, new_server_config}
use opa_openshift.Main.{
  Host, Process, in_memory, replace_dots, data_path, root_cas, liveness_check, new_server, start,
}
use opa_openshift.Main.Start.{IsStarted, start-IsStarted}
use opa_openshift.Main.Endpoint.{data_path_names}
use opa_openshift.Tests.Service.{config}

-- A certificate is the names of its two files; there is one version and no suite.
abbrev tls_lib : TlsLib
tls_lib = record {
  Certificate = String × String;
  load_x509_key_pair = λ cert key. ok (cert, key);
  tls_version = λ name. if name == "VersionTLS13" then ok 772 else err (plain "unknown version");
  tls_cipher_suites = λ names. if is_nil names then ok [] else err (plain "unknown suite");
}

abbrev pub host : Host
host = record {
  tls = tls_lib;
  read_file = λ name. ok name;
  CertPool = String;
  pool_of_pem = λ pem. pem;
}

abbrev pub with_tls : Config
with_tls = record config {
  tls = record config.tls { server_cert_file = "tls.crt"; server_key_file = "tls.key" };
}

abbrev pub server_tls : ServerTls tls_lib
server_tls = record {
  certificates = ("tls.crt", "tls.key") ∷ [];
  cipher_suites = [];
  client_auth = request_client_cert;
  min_version = 772;
}

configured : new_server_config tls_lib "tls.crt" "tls.key" "VersionTLS13" [] ≡ ok (some server_tls)
unfolding new_server_config
configured = refl

abbrev pub process : Process host
process = record {
  cache = in_memory with_tls.memcached.expire;
  path = "/v1/data/lokistack/allow";
  liveness = some (record {
    url = "http://localhost:8080";
    min_version = 772;
    root_cas = none;
    expected_status = 404;
  });
  server = record { addr = ":8080"; tls_config = some server_tls };
  internal_server = record { addr = ":8081"; tls_config = none };
}

pub started : start host (returned (ok with_tls)) ≡ ok process
unfolding start liveness_check root_cas new_server new_server_config data_path replace_dots
    join_path clean steps step up split join has_prefix filter
started = refl

start-IsStarted_example : IsStarted host (returned (ok with_tls)) process
start-IsStarted_example = start-IsStarted host (returned (ok with_tls)) process started

package_named : valid_package config.opa.pkg ≡ true
unfolding package_from is_name_start is_word
package_named = refl

rule_named : valid_rule config.opa.rule ≡ true
unfolding valid_rule is_name_start is_word all_word
rule_named = refl

data_path_names_example :
    data_path config.opa
    ≡ "/" <> join "/" ("v1" ∷ "data" ∷ split 46 config.opa.pkg ++ config.opa.rule ∷ [])
data_path_names_example = data_path_names config.opa package_named rule_named
