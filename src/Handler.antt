-- ===== src/Handler.antt =====
-- internal/handler/handler.go: one HTTP request, from its checks to its reply. What goes before the
-- authorizer is `prepare`, the whole handler is `handle`. Log lines are left out.
pub mod Checks
pub mod Early
pub mod Replies
pub mod Sequence
pub mod Matching
pub mod Fresh
pub mod Calls
pub mod Concurrent
use opa_openshift.Base.{
  ℕ, String, Bool, true, false, Option, none, some, List, [], ◌∷◌, ◌&&◌, not, Error, error_text,
  Result, ok, err, if◌then◌else◌, ◌==◌, is_nil, In, ◌≡◌, ◌⊎◌, ◌↔◌,
}
use opa_openshift.Base.Assoc.{lookup}
use opa_openshift.Config.{Config}
use opa_openshift.Config.Matcher.{
  Matcher, Selectors, to_matcher, for_request, is_empty, selects, viaq_to_otel_migration,
}
use opa_openshift.Response.{DataResponse, Codec}
use opa_openshift.Cache.{Cacher}
use opa_openshift.Openshift.Reviews.{Cluster, Trace, client}
use opa_openshift.Openshift.Connect.{Kube, Env, Connection, new_client}
use opa_openshift.Authorizer.{Query, get_verb, create_verb}
use opa_openshift.Authorizer.Data.{Labels}
use opa_openshift.Authorizer.Cached.{Authorizer, authorize}
use opa_openshift.Authorizer.Cached.Errors.{status_of}

-- `InputExtraAttributes`
pub record Extras : Type 0 where
  pub selectors : Selectors
  pub wildcard_selectors : Bool
  pub metadata_only : Bool

-- `Input`; `Permission` is a text.
pub record Input : Type 0 where
  pub groups : List String
  pub permission : String
  pub resource : String
  pub subject : String
  pub tenant : String
  pub extras : Extras

-- What the handler reads of the HTTP request: the method, what `io.ReadAll(r.Body)` gives, and the
-- header "X-Forwarded-Access-Token", "" if it is missing.
pub record HttpRequest : Type 0 where
  pub method : String
  pub body : Result String
  pub forwarded_access_token : String

-- What the handler does to the response writer, in order: `http.Error`, a `Write` that succeeds,
-- and one that fails.
pub data Action : Type 0 where
  http_error : String → ℕ → Action
  write : String → Action
  write_failed : String → Action

-- k8s' `sets.Set[string]`: `UnsortedList` gives each member, in no particular order.
pub record Sets : Type 1 where
  pub Set : Type 0
  pub new : Set
  pub insert : Set → String → Set
  pub unsorted_list : Set → List String
  pub unsorted_list-new : (x : String) → ¬ In x (unsorted_list new)
  pub unsorted_list-insert :
      (s : Set) (v x : String)
      → In x (unsorted_list (insert s v)) ↔ ((v ≡ x) ⊎ In x (unsorted_list s))

-- A check of the handler: it goes on, or it calls `http.Error` and returns.
pub data Step {ℓ} (A : Type ℓ) : Type ℓ where
  pass : A → Step A
  stop : String → ℕ → Step A

infixl 5 ◌>>=◌ ◌>>◌
abbrev pub ◌>>=◌ {ℓ κ} : {A : Type ℓ} {B : Type κ} → Step A → (A → Step B) → Step B
pass a >>= f = f a
stop text code >>= f = stop text code

abbrev pub ◌>>◌ {ℓ} : {B : Type ℓ} → Step (Unit {0}) → Step B → Step B
m >> k = m >>= λ _. k

abbrev pub demand : Bool → String → ℕ → Step (Unit {0})
demand true text code = pass tt
demand false text code = stop text code

abbrev pub or_stop {ℓ} : {A : Type ℓ} → Result A → String → ℕ → Step A
or_stop (ok a) text code = pass a
or_stop (err e) text code = stop text code

abbrev pub some_or_stop {ℓ} : {A : Type ℓ} → Option A → String → ℕ → Step A
some_or_stop (some a) text code = pass a
some_or_stop none text code = stop text code

abbrev pub read_permission : String
read_permission = "read"

abbrev pub write_permission : String
write_permission = "write"

unfoldable pub verb_of : String → Step String
verb_of permission =
    if permission == read_permission
    then pass get_verb
    else if permission == write_permission
    then pass create_verb
    else stop "unknown permission" 400

-- the token of the header, or the debug token
unfoldable pub choose_token : String → String → Step String
choose_token forwarded debug_token =
    if not (forwarded == "")
    then pass forwarded
    else if debug_token == ""
    then stop "missing forwarded access token" 400
    else pass debug_token

-- the block under `cfg.Opa.ViaQToOTELMigration`
unfoldable pub migrate : Bool → Matcher → Selectors → Step Matcher
migrate enabled m selectors =
    if not enabled
    then pass m
    else if selects selectors "kubernetes_namespace_name" && selects selectors "k8s_namespace_name"
    then stop
        "queries with both 'kubernetes_namespace_name' and 'k8s_namespace_name' selectors are not allowed"
        400
    else pass (viaq_to_otel_migration m selectors)

module _ (sets : Sets) where
  unfoldable pub insert_all : sets.Set → List String → sets.Set
  insert_all s [] = s
  insert_all s (v ∷ values) = insert_all (sets.insert s v) values

  -- the loop over the selectors
  unfoldable pub collect : sets.Set → Selectors → sets.Set
  collect s [] = s
  collect s ((label, values) ∷ selectors) = collect (insert_all s values) selectors

  unfoldable pub namespaces_of : Selectors → List String
  namespaces_of selectors = sets.unsorted_list (collect sets.new selectors)

-- The libraries and the environment that the handler runs with, with what `handler.New` is given.
pub record Setting (S : Type 0) : Type 1 where
  pub config : Config
  pub kube : Kube
  pub env : Env
  pub wrap_transport : kube.Transport
  -- the API server, as it is reached through a connection
  pub cluster : Connection kube → Cluster
  -- `json.Unmarshal(body, &req)`
  pub unmarshal : String → Result Input
  pub sets : Sets
  pub codec : Codec
  pub labels : Labels
  pub sha256_hex : String → String
  pub cache : Cacher S
  -- `w.Write`: the error of a write, if it fails
  pub write : String → Option Error

module _ {S : Type 0} (t : Setting S) where
  -- What the authorizer is called with.
  pub record Prepared : Type 0 where
    pub connection : Connection t.kube
    pub matcher : Matcher
    pub query : Query

  -- the matcher of a request, after its groups and its tenant are looked at
  abbrev pub request_matcher : Input → Matcher
  request_matcher input = for_request (to_matcher t.config.opa) input.tenant input.groups

  -- from the decoded input to the call of the authorizer
  unfoldable pub prepare_input : String → Input → Step Prepared
  prepare_input forwarded input = do
    api_group ← some_or_stop (lookup input.tenant t.config.mappings) "unknown tenant" 500
    demand (not (input.resource == "")) "unknown resource" 400
    verb ← verb_of input.permission
    token ← choose_token forwarded t.config.debug_token
    connection ←
        or_stop
          (new_client t.kube t.env t.wrap_transport t.config.kubeconfig_path token
            t.config.opa.ssar)
          "failed to create openshift client" 500
    demand (not (input.extras.wildcard_selectors && not (is_empty (request_matcher input))))
        "wildcard in query namespaces not allowed" 400
    matcher ←
        migrate t.config.opa.viaq_to_otel_migration (request_matcher input) input.extras.selectors
    pass (record {
      connection = connection;
      matcher = matcher;
      query = record {
        token = token;
        user = input.subject;
        groups = input.groups;
        verb = verb;
        resource = input.tenant;
        resource_name = input.resource;
        api_group = api_group;
        namespaces = namespaces_of t.sets input.extras.selectors;
        metadata_only = input.extras.metadata_only;
      };
    })

  unfoldable pub prepare : HttpRequest → Step Prepared
  prepare r = do
    demand (r.method == "POST") "request must be a POST" 400
    body ← or_stop r.body "failed to read body" 500
    input ← or_stop (t.unmarshal body) "failed to unmarshal JSON" 500
    prepare_input r.forwarded_access_token input

  abbrev pub authorizer : Prepared → Authorizer Trace S
  authorizer p = record {
    sha256_hex = t.sha256_hex;
    labels = t.labels;
    client = client (t.cluster p.connection) p.connection.ssar;
    cache = t.cache;
    matcher = p.matcher;
  }

  -- `http.Error(w, err.Error(), statusCode)`, with 500 for an error that carries no status
  abbrev pub error_reply : Error → Action
  error_reply e = http_error (error_text e) (elim (status_of e) [ none ↦ 500 | some sc ↦ sc ])

  unfoldable pub reply : Result DataResponse → List Action
  reply (err e) = error_reply e ∷ []
  reply (ok res) = elim (t.codec.marshal res) [
    | err e ↦ http_error (error_text e) 500 ∷ []
    | ok out ↦ elim (t.write out) [
      | none ↦ write out ∷ []
      | some e ↦ write_failed out ∷ error_reply e ∷ []
    ]
  ]

  unfoldable pub handle : HttpRequest → Trace → S → List Action × Trace × S
  handle r w s = elim (prepare r) [
    | stop text code ↦ (http_error text code ∷ [], w, s)
    | pass p ↦ let (res, w', s') = authorize (authorizer p) p.query w s in (reply res, w', s')
  ]
