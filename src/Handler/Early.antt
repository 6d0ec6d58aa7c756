-- ===== src/Handler/Early.antt =====
-- The status with which internal/handler/handler.go refuses a request before the authorizer is
-- asked.
use opa_openshift.Base.{
  ℕ, String, Bool, true, false, Option, none, some, ◌≡◌, ◌⊎◌, inl, inr, refl, arith, Result, ok,
  err, ◌==◌, not, ◌&&◌,
}
use opa_openshift.Base.Assoc.{lookup}
use opa_openshift.Config.Matcher.{Matcher, Selectors, is_empty}
use opa_openshift.Openshift.Connect.{new_client}
use opa_openshift.Handler.{
  HttpRequest, Input, Step, pass, stop, ◌>>=◌, ◌>>◌, demand, or_stop, some_or_stop, verb_of,
  choose_token, migrate, Setting, request_matcher, prepare_input, prepare,
}

-- A status with which a request is refused before the authorizer is asked.
abbrev pub IsEarly : ℕ → Type 0
IsEarly code = (code ≡ 400) ⊎ (code ≡ 500)

verb_of-stop : (p text : String) (code : ℕ) → verb_of p ≡ stop text code → IsEarly code
unfolding verb_of
verb_of-stop p text code e = ground arith

choose_token-stop :
    (f d text : String) (code : ℕ) → choose_token f d ≡ stop text code → IsEarly code
unfolding choose_token
choose_token-stop f d text code e = ground arith

-- A check that can only stop early.
abbrev pub StopsEarly : {A : Type 0} → Step A → Type 0
StopsEarly s = (text : String) (code : ℕ) → s ≡ stop text code → IsEarly code

module _ {A B : Type 0} where
  bind-StopsEarly :
      (m : Step A) (f : A → Step B)
      → StopsEarly m
      → ((a : A) → StopsEarly (f a))
      → StopsEarly (m >>= f)
  bind-StopsEarly (pass a) f h k = k a
  bind-StopsEarly (stop text code) f h k = λ t c e. h t c (cc)

  or_stop_early :
      (o : Result A) (text : String) (code : ℕ) (f : A → Step B)
      → IsEarly code
      → ((a : A) → StopsEarly (f a))
      → StopsEarly (or_stop o text code >>= f)
  or_stop_early (ok a) text code f h k = k a
  or_stop_early (err x) text code f h k = λ t c e. ground arith

  some_or_stop_early :
      (o : Option A) (text : String) (code : ℕ) (f : A → Step B)
      → IsEarly code
      → ((a : A) → StopsEarly (f a))
      → StopsEarly (some_or_stop o text code >>= f)
  some_or_stop_early (some a) text code f h k = k a
  some_or_stop_early none text code f h k = λ t c e. ground arith

module _ {B : Type 0} where
  demand_early :
      (b : Bool) (text : String) (code : ℕ) (k : Step B)
      → IsEarly code
      → StopsEarly k
      → StopsEarly (demand b text code >> k)
  demand_early true text code k h g = g
  demand_early false text code k h g = λ t c e. ground arith

migrate-stop :
    (enabled : Bool) (m : Matcher) (selectors : Selectors)
    → StopsEarly (migrate enabled m selectors)
unfolding migrate
migrate-stop enabled m selectors text code e = ground arith

pass_early : {A : Type 0} (a : A) → StopsEarly (pass a)
pass_early a text code e = cc

module _ {S : Type 0} (t : Setting S) where
  prepare_input_early : (f : String) (input : Input) → StopsEarly (prepare_input t f input)
  unfolding prepare_input
  prepare_input_early f input =
      some_or_stop_early (lookup input.tenant t.config.mappings) _ 500 _ (inr refl) λ group.
        demand_early (not (input.resource == "")) _ 400 _ (inl refl) (
          bind-StopsEarly (verb_of input.permission) _ (verb_of-stop input.permission) λ verb.
            bind-StopsEarly (choose_token f t.config.debug_token) _
              (choose_token-stop f t.config.debug_token)
              λ token.
                or_stop_early
                  (new_client t.kube t.env t.wrap_transport t.config.kubeconfig_path token
                    t.config.opa.ssar)
                  _ 500 _ (inr refl)
                  λ conn.
                    demand_early
                      (not (
                        input.extras.wildcard_selectors
                        && not (is_empty (request_matcher t input))))
                      _ 400 _ (inl refl)
                      (bind-StopsEarly
                        (migrate t.config.opa.viaq_to_otel_migration (request_matcher t input)
                          input.extras.selectors)
                        _
                        (migrate-stop t.config.opa.viaq_to_otel_migration (request_matcher t input)
                          input.extras.selectors)
                        (λ m. pass_early _)))

  pub prepare_early : (r : HttpRequest) → StopsEarly (prepare t r)
  unfolding prepare
  prepare_early r = demand_early (r.method == "POST") _ 400 _ (inl refl) (
      or_stop_early r.body _ 500 _ (inr refl) λ body.
        or_stop_early (t.unmarshal body) _ 500 _ (inr refl)
          λ input. prepare_input_early r.forwarded_access_token input)
