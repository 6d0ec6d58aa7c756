-- ===== src/Tests/Requests.antt =====
-- Requests through the whole handler.
use opa_openshift.Base.{
  ok_inj, Bool, some, none, String, true, false, [], ◌∷◌, ◌≡◌, ◌≢◌, ◌⊎◌, refl, ok,
}
use opa_openshift.Base.Text.{split, join}
use opa_openshift.Base.Sort.{sort, insert, str_leb}
use opa_openshift.Base.Assoc.{lookup, has, put}
use opa_openshift.Response.{DataResponse, matched}
use opa_openshift.Config.Matcher.{
  to_matcher, matcher_keys, prepare_map, add_tokens, any_admin, for_request, selects,
  viaq_to_otel_migration, delete_key, delete, index,
}
use opa_openshift.Config.Matcher.Request.{IsExempt}
use opa_openshift.Openshift.Reviews.{Trace}
use opa_openshift.Openshift.Connect.{new_client, connect, get_config, k8s_config, project_config}
use opa_openshift.Authorizer.Cached.{authorize, authorize_known, authorize_missed}
use opa_openshift.Handler.{
  Input, write, pass, verb_of, choose_token, migrate, insert_all, collect, namespaces_of, Prepared,
  prepare_input, prepare, reply, handle,
}
use opa_openshift.Openshift.{Access}
use opa_openshift.Openshift.Reviews.{review_of}
use opa_openshift.Authorizer.Key.{generate_cache_key}
use opa_openshift.Authorizer.Inner.Exact.{decide}
use opa_openshift.Handler.Fresh.{handle-decide}
use opa_openshift.Handler.Checks.{prepare-IsChecked, IsChecked}
use opa_openshift.Handler.Matching.{prepare-matcher}
use opa_openshift.Handler.Replies.{handle_replies, IsErrorReply, IsAnswer}
use opa_openshift.Cache.Memcached.{MemcachedClient}
use opa_openshift.Base.Assoc.{Assoc}
use opa_openshift.Main.Service.{Libraries}
use opa_openshift.Tests.Samples.{may, codec, labels, hex, store, Kept, stored_again}
use opa_openshift.Tests.Service.{
  kube, env, list_sets, config, flags, quote, parsed, setting, read_request, connection,
}

abbrev pub prepared : Prepared setting
prepared = record {
  connection = connection;
  matcher = record {
    keys = "kubernetes_namespace_name" ∷ [];
    matcher_op = "or";
    skip_tenants = ("audit", tt) ∷ [];
    admin_groups = ("admins", tt) ∷ ("cluster-admin", tt) ∷ [];
  };
  query = record {
    token = "t0";
    user = "jo";
    groups = "team" ∷ "staff" ∷ [];
    verb = "get";
    resource = "application";
    resource_name = "logs";
    api_group = "loki.grafana.com";
    namespaces = "team-b" ∷ "team-a" ∷ [];
    metadata_only = false;
  };
}

pub prepared_read : prepare setting read_request ≡ pass prepared
unfolding prepare prepare_input lookup verb_of choose_token new_client connect get_config k8s_config
    project_config migrate insert_all collect namespaces_of to_matcher matcher_keys prepare_map
    add_tokens any_admin for_request selects viaq_to_otel_migration delete_key delete index split
    has put
prepared_read = refl

-- The namespace "team-a" is granted, "team-b" is not.
abbrev pub team_a : DataResponse
team_a = matched "true" "kubernetes_namespace_name=~team-a;or"

handled_read :
    (handle setting read_request [] []).0 ≡ write "Tkubernetes_namespace_name=~team-a;or" ∷ []
unfolding handle reply authorize authorize_known authorize_missed prepare prepare_input lookup
    verb_of choose_token new_client get_config connect migrate selects
    opa_openshift.Cache.Inmemory.get opa_openshift.Cache.Inmemory.set
    opa_openshift.Authorizer.Inner.authorize_inner opa_openshift.Openshift.Reviews.access_review
    opa_openshift.Authorizer.Inner.authorize_reviewed
    opa_openshift.Authorizer.Key.generate_cache_key
    opa_openshift.Authorizer.Inner.authorize_namespaces opa_openshift.Authorizer.Inner.respond
    opa_openshift.Authorizer.Data.minimal_data_response
    opa_openshift.Authorizer.Data.new_data_response opa_openshift.Authorizer.Data.new_matchers
    opa_openshift.Authorizer.Inner.review_namespaces opa_openshift.Authorizer.Key.concat
    opa_openshift.Authorizer.Key.hash_matcher opa_openshift.Authorizer.Key.hash_userinfo has put
    insert sort str_leb join split opa_openshift.Cache.from_json opa_openshift.Cache.to_json
    add_tokens any_admin delete delete_key for_request index matcher_keys prepare_map to_matcher
    viaq_to_otel_migration collect insert_all namespaces_of k8s_config project_config
    opa_openshift.Openshift.Reviews.subject_access_review
handled_read = refl

-- a configured label matcher, a user that is no administrator: the theorem's data
prepare-IsChecked_example :
    (read_request.method ≡ "POST")
    × (body : String) × (input : Input) × (read_request.body ≡ ok body)
    × (setting.unmarshal body ≡ ok input)
    × IsChecked setting read_request.forwarded_access_token input prepared
prepare-IsChecked_example = prepare-IsChecked setting read_request prepared prepared_read

pub has_keys : (to_matcher config.opa).keys ≢ []
unfolding to_matcher matcher_keys split
has_keys e = cc

prepare-matcher_example :
    (body : String) × (input : Input) × (read_request.body ≡ ok body)
    × (setting.unmarshal body ≡ ok input)
    × (¬ IsExempt (to_matcher config.opa) input.tenant input.groups
        → (prepared.matcher.keys ≢ []) × (input.extras.wildcard_selectors ≢ true))
prepare-matcher_example =
    prepare-matcher setting quote (ok tt) flags read_request prepared parsed prepared_read has_keys

handle_replies_example :
    IsErrorReply setting (handle setting read_request [] []).0
    ⊎ IsAnswer setting read_request [] [] (handle setting read_request [] []).0
handle_replies_example = handle_replies setting read_request [] []

pub missed_read :
    (setting.cache.get [] (generate_cache_key hex prepared.query (some prepared.matcher)).0).0
    ≡ ok none
unfolding opa_openshift.Cache.Inmemory.get lookup
missed_read = refl

abbrev allowed : Access → Bool
allowed x = may (review_of false x)

handle-decide_example :
    (handle setting read_request [] []).0
    ≡ reply setting (
        decide labels prepared.matcher allowed
          ("team-a" ∷ "team-b" ∷ [])
          (generate_cache_key hex prepared.query (some prepared.matcher)).1)
handle-decide_example =
    handle-decide setting read_request [] [] prepared allowed ("team-a" ∷ "team-b" ∷ [])
      prepared_read missed_read (λ x trace. refl) (λ trace. refl)

-- Servers that forget nothing.
abbrev memcached_client : MemcachedClient
memcached_client = record {
  Servers = Assoc String;
  get = λ s k. (ok (lookup k s), s);
  set = λ s k b. (ok tt, put k b s);
  Holds = Kept;
  get_holds = λ s k b h. ok_inj h;
  get_keeps = λ s k j b h. h;
  set_holds = stored_again;
}

abbrev pub libs : Libraries
libs = record {
  kube = kube;
  env = env;
  wrap_transport = tt;
  cluster = setting.cluster;
  unmarshal = setting.unmarshal;
  sets = list_sets;
  codec = codec;
  labels = labels;
  sha256_hex = hex;
  write = setting.write;
  ttlcache = store;
  memcached_client = λ interval expire servers. memcached_client;
}
