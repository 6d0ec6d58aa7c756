-- ===== src/Main/Metrics.antt =====
-- main.go: the metrics that the process registers when it starts. signalhttp, healthcheck and the
-- registry are parameters; none stands for a panic.
use opa_openshift.Base.{
  String, List, [], ◌∷◌, ◌++◌, Option, none, some, ◌≡◌, inl, inr, refl, sym, ap, ◌∙◌, subst, In,
  In-append_cases, In-append_left, In-append_right, map, append-nil, arith, eq_iff, Bool, true,
  false, ◌==◌, ◌||◌, ◌&&◌, not,
}
use opa_openshift.Cache.Metrics.{Desc, describe}
use opa_openshift.Instrumentation.{
  Prometheus, RoundTripperInstrumenter, counter_opts, duration_opts, IsWrapping, new_round_tripper,
  some_inj, new_round_tripper_instrumenter, new_round_tripper_instrumenter-IsWrapping,
}
use opa_openshift.Main.{CacheChoice, in_memory, memcached}

abbrev pub Distinct : List String → Type 0
Distinct [] = Unit
Distinct (x ∷ xs) = ¬ In x xs × Distinct xs

-- None of the names is registered.
abbrev pub Free : List String → List String → Type 0
Free names registered = (n : String) → In n names → ¬ In n registered

-- The same as tests.
abbrev is_in : String → List String → Bool
is_in s [] = false
is_in s (x ∷ xs) = x == s || is_in s xs

abbrev is_distinct : List String → Bool
is_distinct [] = true
is_distinct (x ∷ xs) = not (is_in x xs) && is_distinct xs

abbrev is_free : List String → List String → Bool
is_free [] registered = true
is_free (n ∷ names) registered = not (is_in n registered) && is_free names registered

In-is_in : (s : String) (xs : List String) → In s xs → is_in s xs ≡ true
In-is_in s [] h = absurd h
In-is_in s (x ∷ xs) (inl same) = ground (arith, (eq_iff x s).1 same)
In-is_in s (x ∷ xs) (inr h) = let rest = In-is_in s xs h in ground arith

pub is_distinct-Distinct : (xs : List String) → is_distinct xs ≡ true → Distinct xs
is_distinct-Distinct [] e = tt
is_distinct-Distinct (x ∷ xs) e = (
  λ h. let found = In-is_in x xs h in absurd (ground arith),
  is_distinct-Distinct xs (ground arith),
)

pub is_free-Free :
    (names registered : List String) → is_free names registered ≡ true → Free names registered
is_free-Free [] registered e n h k = h
is_free-Free (m ∷ names) registered e n (inl same) k =
    let found = In-is_in n registered k in
    absurd (subst (λ n. is_in n registered ≡ true → ⊥) same (λ f. ground arith) found)
is_free-Free (m ∷ names) registered e n (inr h) k =
    is_free-Free names registered (ground arith) n h k

-- A library that registers metrics of its own.
pub record Registration (prometheus : Prometheus) : Type 0 where
  pub names : List String
  pub register : prometheus.Registerer → Option prometheus.Registerer
  pub registers :
      (r : prometheus.Registerer)
      → Free names (prometheus.registered r)
      → (q : prometheus.Registerer) × (register r ≡ some q)
        × (prometheus.registered q ≡ prometheus.registered r ++ names)

pub record Metrics : Type 1 where
  pub prometheus : Prometheus
  -- `prometheus.NewRegistry()`
  pub new_registry : prometheus.Registerer
  pub registered-new_registry : prometheus.registered new_registry ≡ []
  -- `signalhttp.NewHandlerInstrumenter`
  pub handler_instrumenter : Registration prometheus
  -- `healthcheck.NewMetricsHandler`
  pub health_metrics : Registration prometheus
  -- `MustRegister` of a collector, with what it describes
  pub must_register : prometheus.Registerer → List Desc → Option prometheus.Registerer
  pub must_register_free :
      (r : prometheus.Registerer) (ds : List Desc)
      → Distinct (map (λ d. d.name) ds)
      → Free (map (λ d. d.name) ds) (prometheus.registered r)
      → (q : prometheus.Registerer) × (must_register r ds ≡ some q)
        × (prometheus.registered q ≡ prometheus.registered r ++ map (λ d. d.name) ds)

module _ (m : Metrics) where
  open m use {prometheus}

  -- Only the in-memory cache has metrics.
  unfoldable pub register_cache : CacheChoice → prometheus.Registerer → Option prometheus.Registerer
  register_cache (in_memory expire) r = m.must_register r describe
  register_cache (memcached interval expire servers) r = some r

  -- the instrumenter of the transports, and the registry
  abbrev pub Made : Type 0
  Made = RoundTripperInstrumenter prometheus × prometheus.Registerer

  abbrev with_cache :
      RoundTripperInstrumenter prometheus → Option prometheus.Registerer → Option Made
  with_cache rti none = none
  with_cache rti (some r) = some (rti, r)

  abbrev with_health :
      CacheChoice → RoundTripperInstrumenter prometheus → Option prometheus.Registerer → Option Made
  with_health c rti none = none
  with_health c rti (some r) = with_cache rti (register_cache c r)

  -- The registry is not nil.
  abbrev with_transport :
      CacheChoice
      → Option (RoundTripperInstrumenter prometheus × Option prometheus.Registerer)
      → Option Made
  with_transport c none = none
  with_transport c (some (rti, none)) = none
  with_transport c (some (rti, some r)) = with_health c rti (m.health_metrics.register r)

  abbrev with_handler : CacheChoice → Option prometheus.Registerer → Option Made
  with_handler c none = none
  with_handler c (some r) = with_transport c (new_round_tripper_instrumenter prometheus (some r))

  -- From the new registry to the registration of the cache's metrics.
  unfoldable pub register_metrics : CacheChoice → Option Made
  register_metrics c = with_handler c (m.handler_instrumenter.register m.new_registry)

  -- `wt`
  unfoldable pub wrap_transport :
      RoundTripperInstrumenter prometheus → prometheus.RoundTripper → Option prometheus.RoundTripper
  wrap_transport rti rt = new_round_tripper prometheus rti "openshift" rt

  -- The names that this repository's metrics have.
  abbrev pub transport_names : List String
  transport_names = (counter_opts prometheus).name ∷ (duration_opts prometheus).name ∷ []

  abbrev pub cache_names : List String
  cache_names = map (λ d. d.name) describe

  abbrev pub names_of : CacheChoice → List String
  names_of (in_memory expire) = cache_names
  names_of (memcached interval expire servers) = []

  cache_names-Distinct : Distinct cache_names
  unfolding describe opa_openshift.Cache.Metrics.desc_cache_inserts
      opa_openshift.Cache.Metrics.desc_cache_requests
      opa_openshift.Cache.Metrics.desc_cache_evictions
  cache_names-Distinct = is_distinct-Distinct cache_names refl

  cache_names-Free : Free cache_names transport_names
  unfolding describe counter_opts duration_opts opa_openshift.Cache.Metrics.desc_cache_inserts
      opa_openshift.Cache.Metrics.desc_cache_requests
      opa_openshift.Cache.Metrics.desc_cache_evictions
  cache_names-Free = is_free-Free cache_names transport_names refl

  register_cache-Free :
      (c : CacheChoice) (r : prometheus.Registerer)
      → Free (names_of c) (prometheus.registered r)
      → (q : prometheus.Registerer) × (register_cache c r ≡ some q)
        × (prometheus.registered q ≡ prometheus.registered r ++ names_of c)
  unfolding register_cache
  register_cache-Free (in_memory expire) r free =
      m.must_register_free r describe cache_names-Distinct free
  register_cache-Free (memcached interval expire servers) r free = (r, refl, sym (append-nil _))

  Free-append : (names xs ys : List String) → Free names xs → Free names ys → Free names (xs ++ ys)
  Free-append names xs ys free_xs free_ys n h k = elim (In-append_cases n xs ys k) [
    | inl i ↦ free_xs n h i
    | inr i ↦ free_ys n h i
  ]

  -- What is known of the names of the two libraries, and of those of this repository.
  pub record IsApart (c : CacheChoice) : Type 0 where
    pub handler_apart : Free (transport_names ++ names_of c) m.handler_instrumenter.names
    pub health_handler : Free m.health_metrics.names m.handler_instrumenter.names
    pub health_apart : Free m.health_metrics.names (transport_names ++ names_of c)

  names_of-Free : (c : CacheChoice) → Free (names_of c) transport_names
  names_of-Free (in_memory expire) = cache_names-Free
  names_of-Free (memcached interval expire servers) = λ n h k. h

  -- What has been registered when nothing was in the way.
  abbrev pub registered_after : CacheChoice → List String
  registered_after c =
      ((m.handler_instrumenter.names ++ transport_names) ++ m.health_metrics.names) ++ names_of c

  module _ (c : CacheChoice) (apart : IsApart c) where
    handler_registered :
        (r : prometheus.Registerer) × (m.handler_instrumenter.register m.new_registry ≡ some r)
        × (prometheus.registered r ≡ m.handler_instrumenter.names)
    handler_registered =
        let (r, e, names) =
          m.handler_instrumenter.registers m.new_registry
            (λ n h k. subst (In n) m.registered-new_registry k) in
        (r, e, names ∙ ap (λ ns. ns ++ m.handler_instrumenter.names) m.registered-new_registry)

    -- The transport's metrics are not registered yet.
    abbrev HasRoom : prometheus.Registerer → Type 0
    HasRoom r =
        ¬ In (counter_opts prometheus).name (prometheus.registered r)
        × ¬ In (duration_opts prometheus).name (prometheus.registered r)

    room :
        (r : prometheus.Registerer)
        → prometheus.registered r ≡ m.handler_instrumenter.names
        → HasRoom r
    room r names = (
      λ k. apart.handler_apart _ (inl refl) (subst (In _) names k),
      λ k. apart.handler_apart _ (inr (inl refl)) (subst (In _) names k),
    )

    transport_registered :
        (r : prometheus.Registerer)
        → prometheus.registered r ≡ m.handler_instrumenter.names
        → (rti : RoundTripperInstrumenter prometheus) × (q : prometheus.Registerer)
          × (new_round_tripper_instrumenter prometheus (some r) ≡ some (rti, some q))
          × IsWrapping prometheus rti
          × (prometheus.registered q ≡ m.handler_instrumenter.names ++ transport_names)
    transport_registered r names =
        let (rti, after, e, wraps, added) =
          new_round_tripper_instrumenter-IsWrapping prometheus (some r)
            (λ q same. subst HasRoom (some_inj same) (room r names)) in
        let (q, kept, more) = added r refl in
        (
          rti,
          q,
          e ∙ ap (λ a. some (rti, a)) kept,
          wraps,
          more ∙ ap (λ ns. ns ++ transport_names) names,
        )

    health_registered :
        (r : prometheus.Registerer)
        → prometheus.registered r ≡ m.handler_instrumenter.names ++ transport_names
        → (q : prometheus.Registerer) × (m.health_metrics.register r ≡ some q)
          × (prometheus.registered q
              ≡ (m.handler_instrumenter.names ++ transport_names) ++ m.health_metrics.names)
    health_registered r names =
        let (q, e, more) = m.health_metrics.registers r (
          subst (Free m.health_metrics.names) (sym names) (
            Free-append _ _ _ apart.health_handler (λ n h k.
              apart.health_apart n h (In-append_left n transport_names (names_of c) k)))) in
        (q, e, more ∙ ap (λ ns. ns ++ m.health_metrics.names) names)

    cache_registered :
        (r : prometheus.Registerer)
        → prometheus.registered r
          ≡ (m.handler_instrumenter.names ++ transport_names) ++ m.health_metrics.names
        → (q : prometheus.Registerer) × (register_cache c r ≡ some q)
          × (prometheus.registered q ≡ registered_after c)
    cache_registered r names =
        let (q, e, more) = register_cache-Free c r (
          subst (Free (names_of c)) (sym names) (
            Free-append _ _ _
              (Free-append _ _ _
                (λ n h k. apart.handler_apart n (In-append_right n transport_names _ h) k)
                (names_of-Free c))
              (λ n h k. apart.health_apart n k (In-append_right n transport_names _ h)))) in
        (q, e, more ∙ ap (λ ns. ns ++ names_of c) names)

    -- If the metrics of the two libraries have other names than each other and than those of this
    -- repository, then the process registers all metrics without a panic, those of the cache
    -- exactly if it is in memory; and what it hands to the handler wraps every transport without a
    -- panic.
    pub register_metrics-wrap_transport :
        (rti : RoundTripperInstrumenter prometheus) × (q : prometheus.Registerer)
        × (register_metrics c ≡ some (rti, q))
        × (prometheus.registered q ≡ registered_after c)
        × ((rt : prometheus.RoundTripper)
            → (out : prometheus.RoundTripper) × (wrap_transport rti rt ≡ some out))
    unfolding register_metrics wrap_transport
    register_metrics-wrap_transport =
        let (r1, e1, n1) = handler_registered in
        let (rti, r2, e2, wraps, n2) = transport_registered r1 n1 in
        let (r3, e3, n3) = health_registered r2 n2 in
        let (q, e4, n4) = cache_registered r3 n3 in
        (
          rti,
          q,
          ap (with_handler c) e1
              ∙ ap (with_transport c) e2
              ∙ ap (with_health c rti) e3
              ∙ ap (with_cache rti) e4,
          n4,
          λ rt. wraps "openshift" rt,
        )
