-- ===== src/Tests/Service.antt =====
-- A configured service with a small API server behind it, and requests to it.
use opa_openshift.Base.{
  pos, String, true, false, none, some, List, [], ◌∷◌, ◌≡◌, refl, plain, ok, err, if◌then◌else◌,
  ◌==◌,
}
use opa_openshift.Base.Text.{split, contains, has_prefix}
use opa_openshift.Base.Assoc.{Assoc, lookup, put}
use opa_openshift.Config.{Config, allow_info}
use opa_openshift.Config.Flags.{
  RawFlags, returned, parse_flags, parse_log_level, set_parsed, check_names, check_viaq,
  add_mappings, parse_mappings, two_parts, valid_rule, package_from, is_name_start, is_word,
  all_word,
}
use opa_openshift.Response.{DataResponse}
use opa_openshift.Cache.{CacherLaws}
use opa_openshift.Cache.Inmemory.{inmemory-laws, none_stored}
use opa_openshift.Openshift.Connect.{Kube, Env, Connection}
use opa_openshift.Handler.{Input, HttpRequest, Sets, Setting}
use opa_openshift.Tests.Samples.{codec, labels, hex, cluster, store, cache}

abbrev pub both_labels : String
both_labels = "kubernetes_namespace_name,k8s_namespace_name"

abbrev pub flags_config : Config
flags_config = record {
  kubeconfig_path = "admin.conf";
  debug_token = "";
  name = "opa-openshift";
  mappings = [];
  log_format = "logfmt";
  log_level = allow_info;
  opa = record {
    pkg = "lokistack";
    rule = "allow";
    matcher = both_labels;
    matcher_op = "or";
    matcher_skip_tenants = "audit";
    matcher_admin_groups = "admins,cluster-admin";
    ssar = false;
    viaq_to_otel_migration = true;
  };
  server = record {
    listen = ":8080";
    listen_internal = ":8081";
    healthcheck_url = "http://localhost:8080";
  };
  tls = record {
    min_version = "VersionTLS13";
    cipher_suites = [];
    server_cert_file = "";
    server_key_file = "";
    internal_server_cert_file = "";
    internal_server_key_file = "";
    internal_server_ca_file = "";
  };
  memcached = record { expire = pos 60; interval = pos 10; servers = [] };
}

abbrev pub flags : RawFlags
flags = record {
  config = flags_config;
  log_level_raw = "info";
  raw_tls_cipher_suites = "";
  mappings_raw = some ("application=loki.grafana.com" ∷ []);
}

abbrev pub config : Config
config = record flags_config { mappings = ("application", "loki.grafana.com") ∷ [] }

abbrev pub quote : String → String
quote s = s

pub parsed : parse_flags quote (ok tt) flags ≡ returned (ok config)
unfolding parse_flags parse_log_level set_parsed check_names check_viaq parse_mappings add_mappings
    two_parts valid_rule package_from is_name_start is_word all_word split contains has_prefix put
parsed = refl

-- A client configuration is its file, its token and its client certificates; a client set is its
-- configuration.
abbrev pub kube : Kube
kube = record {
  RestConfig = String × String × List String;
  Transport = Unit {0};
  Clientset = String × String × List String;
  ProjectClient = String × String × List String;
  recommended_config_path_env_var = "KUBECONFIG";
  recommended_home_dir = ".kube";
  recommended_file_name = "config";
  default_loading_rules = record { explicit_path = ""; precedence = [] };
  in_cluster_config = ok ("in-cluster", "service-account", []);
  client_config = λ rules. ok (rules.explicit_path, "file-token", "admin.crt" ∷ []);
  anonymous_client_config = λ c. (c.0, "", []);
  set_bearer_token = λ c t. (c.0, t, c.2);
  set_wrap_transport = λ c w. c;
  new_clientset = λ c. ok c;
  new_project_client = λ c. ok c;
  bearer_token = λ c. c.1;
  other_credentials = λ c. c.2;
  other_credentials-anonymous = λ c. refl;
  other_credentials-set = λ c t. refl;
  other_credentials-set_wrap_transport = λ c w. refl;
  bearer_token-set = λ c t. refl;
  bearer_token-set_wrap_transport = λ c w. refl;
}

abbrev pub env : Env
env = record { lookup_env = λ name. none; current_user_home = ok "/home/user" }

abbrev pub connection : Connection kube
connection = record {
  k8s_config = ("admin.conf", "file-token", "admin.crt" ∷ []);
  k8s_client = ("admin.conf", "file-token", "admin.crt" ∷ []);
  project_config = ("admin.conf", "t0", []);
  project_client = ("admin.conf", "t0", []);
  ssar = false;
}

-- A set as a list of what was inserted.
abbrev pub list_sets : Sets
list_sets = record {
  Set = List String;
  new = [];
  insert = λ s v. v ∷ s;
  unsorted_list = λ s. s;
  unsorted_list-new = λ x h. h;
  unsorted_list-insert = λ s v x. (λ h. h, λ h. h);
}

abbrev pub read_input : Input
read_input = record {
  groups = "team" ∷ "staff" ∷ [];
  permission = "read";
  resource = "logs";
  subject = "jo";
  tenant = "application";
  extras = record {
    selectors = ("kubernetes_namespace_name", "team-a" ∷ "team-b" ∷ []) ∷ [];
    wildcard_selectors = false;
    metadata_only = false;
  };
}

abbrev pub setting : Setting (Assoc String)
setting = record {
  config = config;
  kube = kube;
  env = env;
  wrap_transport = tt;
  cluster = λ c. cluster;
  unmarshal = λ body. if body == "read" then ok read_input else err (plain "bad JSON");
  sets = list_sets;
  codec = codec;
  labels = labels;
  sha256_hex = hex;
  cache = cache;
  write = λ out. none;
}

abbrev pub laws : CacherLaws cache
laws = inmemory-laws codec store

no_bytes : (k b : String) → ¬ store.Holds [] k b
unfolding lookup
no_bytes k b h = cc

pub nothing_found : (k : String) (r : DataResponse) → ¬ laws.Holds [] k r
nothing_found = none_stored codec store [] no_bytes

abbrev pub read_request : HttpRequest
read_request = record { method = "POST"; body = ok "read"; forwarded_access_token = "t0" }
