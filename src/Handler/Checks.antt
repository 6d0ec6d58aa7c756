-- ===== src/Handler/Checks.antt =====
-- What a request has passed when internal/handler/handler.go calls the authorizer.
use opa_openshift.Base.{
  ℕ, String, Bool, true, false, Option, none, some, ◌≡◌, ◌≢◌, ◌⊎◌, refl, arith, ◌&&◌, not, Result,
  ok, err, ◌==◌, eq_iff, subst,
}
use opa_openshift.Base.Assoc.{lookup}
use opa_openshift.Config.Matcher.{
  Matcher, Selectors, is_empty, selects, viaq_label, otel_label, viaq_to_otel_migration,
}
use opa_openshift.Openshift.Connect.{Connection, new_client}
use opa_openshift.Authorizer.{Query, get_verb, create_verb}
use opa_openshift.Handler.{
  Input, HttpRequest, Step, pass, stop, ◌>>=◌, ◌>>◌, demand, or_stop, some_or_stop, read_permission,
  write_permission, verb_of, choose_token, migrate, namespaces_of, Setting, Prepared,
  request_matcher, prepare_input, prepare,
}

-- A permission and the verb that it is turned into.
abbrev pub HasVerb : String → String → Type 0
HasVerb permission verb =
    ((permission ≡ read_permission) × (verb ≡ get_verb))
    ⊎ ((permission ≡ write_permission) × (verb ≡ create_verb))

verb_of_pass : (permission verb : String) → verb_of permission ≡ pass verb → HasVerb permission verb
unfolding verb_of
verb_of_pass permission verb e =
    ground (arith, eq_iff permission read_permission, eq_iff permission write_permission)

-- The token of the header, or the debug token if there is none; never an empty one.
abbrev pub HasToken : String → String → String → Type 0
HasToken forwarded debug_token token =
    (token ≢ "")
    × (((forwarded ≢ "") × (token ≡ forwarded)) ⊎ ((forwarded ≡ "") × (token ≡ debug_token)))

choose_token_pass :
    (forwarded debug_token token : String)
    → choose_token forwarded debug_token ≡ pass token
    → HasToken forwarded debug_token token
unfolding choose_token
choose_token_pass forwarded debug_token token e =
    ground (arith, eq_iff forwarded "", eq_iff debug_token "")

-- The matcher after the migration, which is refused if both labels are selected.
abbrev pub HasMatcher : Bool → Matcher → (String → Bool) → Matcher → Matcher → Type 0
HasMatcher enabled m selected migrated out =
    ((enabled ≡ false) × (out ≡ m))
    ⊎ ((enabled ≡ true)
        × (¬ ((selected viaq_label ≡ true) × (selected otel_label ≡ true)))
        × (out ≡ migrated))

migrate_pass :
    (enabled : Bool) (m out : Matcher) (selectors : Selectors)
    → migrate enabled m selectors ≡ pass out
    → HasMatcher enabled m (selects selectors) (viaq_to_otel_migration m selectors) out
unfolding migrate
migrate_pass enabled m out selectors e = ground arith

-- Inversions of a chain of checks that has passed, one for each kind of check.
module _ {ℓ κ} {A : Type ℓ} {B : Type κ} where
  bind_pass :
      (m : Step A) (f : A → Step B) {b : B}
      → (m >>= f) ≡ pass b
      → (a : A) × (m ≡ pass a) × (f a ≡ pass b)
  bind_pass (pass a) f e = (a, refl, e)
  bind_pass (stop text code) f e = cc

some_or_stop-pass {ℓ κ} :
    {A : Type ℓ} {B : Type κ} (o : Option A) (text : String) (code : ℕ) (f : A → Step B) {b : B}
    → (some_or_stop o text code >>= f) ≡ pass b
    → (a : A) × (o ≡ some a) × (f a ≡ pass b)
some_or_stop-pass (some a) text code f e = (a, refl, e)
some_or_stop-pass none text code f e = cc

demand-pass {ℓ} :
    {B : Type ℓ} (b : Bool) (text : String) (code : ℕ) (k : Step B) {out : B}
    → (demand b text code >> k) ≡ pass out
    → (b ≡ true) × (k ≡ pass out)
demand-pass true text code k e = (refl, e)
demand-pass false text code k e = cc

pass_inj {ℓ} : {A : Type ℓ} {a b : A} → pass a ≡ pass b → a ≡ b
pass_inj e = cc

not_both : (a b : Bool) → not (a && not b) ≡ true → a ≡ true → b ≡ true
not_both a b h k = ground arith

or_stop-pass {ℓ κ} :
    {A : Type ℓ} {B : Type κ} (o : Result A) (text : String) (code : ℕ) (f : A → Step B) {b : B}
    → (or_stop o text code >>= f) ≡ pass b
    → (a : A) × (o ≡ ok a) × (f a ≡ pass b)
or_stop-pass (ok a) text code f e = (a, refl, e)
or_stop-pass (err x) text code f e = cc

module _ {S : Type 0} (t : Setting S) where
  -- What is known of a request whose input comes to the authorizer.
  pub record IsChecked (forwarded : String) (input : Input) (p : Prepared t) : Type 0 where
    pub tenant : lookup input.tenant t.config.mappings ≡ some p.query.api_group
    pub resource : input.resource ≢ ""
    pub verb : HasVerb input.permission p.query.verb
    pub token : HasToken forwarded t.config.debug_token p.query.token
    pub connection :
        new_client t.kube t.env t.wrap_transport t.config.kubeconfig_path p.query.token
          t.config.opa.ssar
        ≡ ok p.connection
    pub wildcard :
        input.extras.wildcard_selectors ≡ true → is_empty (request_matcher t input) ≡ true
    pub matcher :
        HasMatcher t.config.opa.viaq_to_otel_migration
          (request_matcher t input)
          (selects input.extras.selectors)
          (viaq_to_otel_migration (request_matcher t input) input.extras.selectors)
          p.matcher
    pub query : p.query ≡ record {
      token = p.query.token;
      user = input.subject;
      groups = input.groups;
      verb = p.query.verb;
      resource = input.tenant;
      resource_name = input.resource;
      api_group = p.query.api_group;
      namespaces = namespaces_of t.sets input.extras.selectors;
      metadata_only = input.extras.metadata_only;
    }

  -- The request that is put together at the end.
  abbrev query_of : Input → String → String → String → Query
  query_of input token verb group = record {
    token = token;
    user = input.subject;
    groups = input.groups;
    verb = verb;
    resource = input.tenant;
    resource_name = input.resource;
    api_group = group;
    namespaces = namespaces_of t.sets input.extras.selectors;
    metadata_only = input.extras.metadata_only;
  }

  -- The values that the checks have found, in the order in which they are made.
  prepare_input_steps :
      (forwarded : String) (input : Input) (p : Prepared t)
      → prepare_input t forwarded input ≡ pass p
      → (group verb token : String) × (conn : Connection t.kube) × (m : Matcher) × (lookup
            input.tenant t.config.mappings
          ≡ some group)
        × (not (input.resource == "") ≡ true)
        × (verb_of input.permission ≡ pass verb)
        × (choose_token forwarded t.config.debug_token ≡ pass token)
        × (new_client t.kube t.env t.wrap_transport t.config.kubeconfig_path token t.config.opa.ssar
            ≡ ok conn)
        × (not (input.extras.wildcard_selectors && not (is_empty (request_matcher t input))) ≡ true)
        × (migrate t.config.opa.viaq_to_otel_migration
              (request_matcher t input)
              input.extras.selectors
            ≡ pass m)
        × (record { connection = conn; matcher = m; query = query_of input token verb group } ≡ p)
  unfolding prepare_input
  prepare_input_steps forwarded input p e =
      let (group, e1, h1) = some_or_stop-pass (lookup input.tenant t.config.mappings) _ _ _ e in
      let (e2, h2) = demand-pass (not (input.resource == "")) _ _ _ h1 in
      let (verb, e3, h3) = bind_pass (verb_of input.permission) _ h2 in
      let (token, e4, h4) = bind_pass (choose_token forwarded t.config.debug_token) _ h3 in
      let (conn, e5, h5) =
        or_stop-pass
          (new_client t.kube t.env t.wrap_transport t.config.kubeconfig_path token
            t.config.opa.ssar)
          _ _ _ h4 in
      let (e6, h6) =
        demand-pass
          (not (input.extras.wildcard_selectors && not (is_empty (request_matcher t input)))) _ _ _
          h5 in
      let (m, e7, h7) =
        bind_pass
          (migrate t.config.opa.viaq_to_otel_migration (request_matcher t input)
            input.extras.selectors)
          _ h6 in
      (group, verb, token, conn, m, e1, e2, e3, e4, e5, e6, e7, pass_inj h7)

  prepare_input_pass :
      (forwarded : String) (input : Input) (p : Prepared t)
      → prepare_input t forwarded input ≡ pass p
      → IsChecked forwarded input p
  prepare_input_pass forwarded input p e =
      let (group, verb, token, conn, m, e1, e2, e3, e4, e5, e6, e7, same) =
        prepare_input_steps forwarded input p e in
      subst (IsChecked forwarded input) same (record {
        tenant = e1;
        resource = ground (arith, eq_iff input.resource "");
        verb = verb_of_pass input.permission verb e3;
        token = choose_token_pass forwarded t.config.debug_token token e4;
        connection = e5;
        wildcard =
            λ h. not_both input.extras.wildcard_selectors (is_empty (request_matcher t input)) e6 h;
        matcher =
            migrate_pass t.config.opa.viaq_to_otel_migration (request_matcher t input) m
              input.extras.selectors e7;
        query = refl;
      })

  -- When the authorizer is called, the request is a POST whose body was read and decoded; its
  -- tenant has a mapping, which is the API group; its resource is not empty; its permission is
  -- "read" or "write"; there is a token; no wildcard stands beside a matcher; and with the
  -- migration on not both namespace labels are selected.
  pub prepare-IsChecked :
      (r : HttpRequest) (p : Prepared t)
      → prepare t r ≡ pass p
      → (r.method ≡ "POST")
        × (body : String) × (input : Input) × (r.body ≡ ok body)
        × (t.unmarshal body ≡ ok input)
        × IsChecked r.forwarded_access_token input p
  unfolding prepare
  prepare-IsChecked r p e =
      let (post, h1) = demand-pass (r.method == "POST") _ _ _ e in
      let (body, read, h2) = or_stop-pass r.body _ _ _ h1 in
      let (input, decoded, h3) = or_stop-pass (t.unmarshal body) _ _ _ h2 in
      (
        (eq_iff _ _).0 post,
        body,
        input,
        read,
        decoded,
        prepare_input_pass r.forwarded_access_token input p h3,
      )
