-- ===== src/Openshift/Connect.antt =====
-- `NewClient`, `getConfig` and `loadConfig` of internal/openshift/client.go: with whose
-- credentials the two client sets talk to the API server. client-go is the parameter `Kube`.
use opa_openshift.Base.{
  String, Bool, Option, none, some, List, [], ◌∷◌, snoc, Result, ok, ◌>>=◌, context, ◌≡◌, ◌==◌,
  if◌then◌else◌, not,
}
use opa_openshift.Base.Path.{join_path}

-- `clientcmd.ClientConfigLoadingRules`, the fields that the program sets
pub record LoadingRules : Type 0 where
  pub explicit_path : String
  pub precedence : List String

-- What client-go and the OpenShift client provide, with the constants that are read.
pub record Kube : Type 1 where
  pub RestConfig : Type 0
  pub Transport : Type 0
  pub Clientset : Type 0
  pub ProjectClient : Type 0
  pub recommended_config_path_env_var : String
  pub recommended_home_dir : String
  pub recommended_file_name : String
  pub default_loading_rules : LoadingRules
  pub in_cluster_config : Result RestConfig
  -- `NewNonInteractiveDeferredLoadingClientConfig(loader, nil).ClientConfig()`
  pub client_config : LoadingRules → Result RestConfig
  pub anonymous_client_config : RestConfig → RestConfig
  -- the assignments to `cfg.BearerToken` and `cfg.WrapTransport`
  pub set_bearer_token : RestConfig → String → RestConfig
  pub set_wrap_transport : RestConfig → Transport → RestConfig
  pub new_clientset : RestConfig → Result Clientset
  pub new_project_client : RestConfig → Result ProjectClient
  -- `cfg.BearerToken` is a field like any other
  pub bearer_token : RestConfig → String
  -- every other way to authenticate that a configuration holds: a token file, client certificates,
  -- a user name and a password, an exec or auth plugin
  pub other_credentials : RestConfig → List String
  -- `AnonymousClientConfig` gives a copy without any credentials
  pub other_credentials-anonymous :
      (c : RestConfig) → other_credentials (anonymous_client_config c) ≡ []
  pub other_credentials-set :
      (c : RestConfig) (t : String) → other_credentials (set_bearer_token c t) ≡ other_credentials c
  pub other_credentials-set_wrap_transport :
      (c : RestConfig) (w : Transport)
      → other_credentials (set_wrap_transport c w) ≡ other_credentials c
  pub bearer_token-set : (c : RestConfig) (t : String) → bearer_token (set_bearer_token c t) ≡ t
  pub bearer_token-set_wrap_transport :
      (c : RestConfig) (w : Transport) → bearer_token (set_wrap_transport c w) ≡ bearer_token c

-- The process's environment: a variable's value, and the current user's home directory.
pub record Env : Type 0 where
  pub lookup_env : String → Option String
  pub current_user_home : Result String

-- `os.Getenv`
abbrev pub getenv : Env → String → String
getenv env name = elim (env.lookup_env name) [ none ↦ "" | some v ↦ v ]

module _ (kube : Kube) where
  -- The precedence list grows by the kubeconfig of the current user's home if HOME is not set.
  unfoldable pub loading_rules : Env → Result LoadingRules
  loading_rules env = elim (env.lookup_env "HOME") [
    | some h ↦ ok kube.default_loading_rules
    | none ↦ context "could not get current user" env.current_user_home >>= λ home.
        let rules = kube.default_loading_rules in
        ok (record rules {
          precedence =
              snoc rules.precedence
                (join_path (home ∷ kube.recommended_home_dir ∷ kube.recommended_file_name ∷ []));
        })
  ]

  unfoldable pub get_config : Env → String → Result kube.RestConfig
  get_config env kubeconfig =
      if not (kubeconfig == "")
      then kube.client_config (record { explicit_path = kubeconfig; precedence = [] })
      else if getenv env kube.recommended_config_path_env_var == ""
      then kube.in_cluster_config
      else loading_rules env >>= kube.client_config

  -- The client of the authorizer: the two client sets, each with the configuration it was built
  -- from, and the mode.
  pub record Connection : Type 0 where
    pub k8s_config : kube.RestConfig
    pub k8s_client : kube.Clientset
    pub project_config : kube.RestConfig
    pub project_client : kube.ProjectClient
    pub ssar : Bool

  -- `cfg = rest.AnonymousClientConfig(cfg); cfg.BearerToken = token`
  abbrev pub as_user : kube.RestConfig → String → kube.RestConfig
  as_user cfg token = kube.set_bearer_token (kube.anonymous_client_config cfg) token

  -- The configuration of the k8s client set, and that of the project client set.
  unfoldable pub k8s_config : kube.Transport → String → Bool → kube.RestConfig → kube.RestConfig
  k8s_config wt token ssar loaded =
      kube.set_wrap_transport (if ssar then as_user loaded token else loaded) wt

  unfoldable pub project_config : kube.Transport → String → kube.RestConfig → kube.RestConfig
  project_config wt token cfg = kube.set_wrap_transport (as_user cfg token) wt

  -- `NewClient` once the configuration is loaded
  unfoldable pub connect : kube.Transport → String → Bool → kube.RestConfig → Result Connection
  connect wt token ssar loaded = do
    let cfg = k8s_config wt token ssar loaded
    clientset ← context "failed to create k8s clientset" (kube.new_clientset cfg)
    let project_cfg = project_config wt token cfg
    project_client ←
        context "failed to create ocp project clientset" (kube.new_project_client project_cfg)
    ok (record {
      k8s_config = cfg;
      k8s_client = clientset;
      project_config = project_cfg;
      project_client = project_client;
      ssar = ssar;
    })

  unfoldable pub new_client : Env → kube.Transport → String → String → Bool → Result Connection
  new_client env wt kubeconfig_path token ssar = do
    loaded ← get_config env kubeconfig_path
    connect wt token ssar loaded

module _ (kube : Kube) where
  -- The configuration authenticates with the token, and with nothing else.
  abbrev pub IsUser : String → kube.RestConfig → Type 0
  IsUser token cfg = (kube.bearer_token cfg ≡ token) × (kube.other_credentials cfg ≡ [])

  -- Both configurations authenticate with the same.
  abbrev pub HasSame : kube.RestConfig → kube.RestConfig → Type 0
  HasSame loaded cfg =
      (kube.bearer_token cfg ≡ kube.bearer_token loaded)
      × (kube.other_credentials cfg ≡ kube.other_credentials loaded)
