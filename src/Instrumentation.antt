-- ===== src/Instrumentation.antt =====
-- internal/instrumentation/instrument.go: the metrics of the client's transport. Prometheus's
-- library is the parameter `Prometheus`; none stands for a panic.
use opa_openshift.Base.{
  String, List, [], ◌∷◌, ◌++◌, Option, none, some, ◌≡◌, ◌≢◌, ◌⊎◌, inl, inr, refl, sym, ap, ◌∙◌,
  subst, All, In, filter, not, ◌==◌,
}

-- `prometheus.Opts`: a metric's name and its help
pub record Opts : Type 0 where
  pub name : String
  pub help : String

abbrev pub without : String → List String → List String
without label labels = filter (λ l. not (l == label)) labels

-- A vector's labels are those that have no value yet. A label of the vector can be given a value
-- once; a transport is instrumented with vectors whose labels are "code" and "method" at most.
pub record Prometheus : Type 1 where
  pub CounterVec : Type 0
  pub HistogramVec : Type 0
  pub RoundTripper : Type 0
  pub Registerer : Type 0
  pub new_counter_vec : Opts → List String → CounterVec
  -- with the default buckets
  pub new_histogram_vec : Opts → List String → HistogramVec
  pub counter_labels : CounterVec → List String
  pub histogram_labels : HistogramVec → List String
  pub counter_labels-new :
      (o : Opts) (ls : List String) → counter_labels (new_counter_vec o ls) ≡ ls
  pub histogram_labels-new :
      (o : Opts) (ls : List String) → histogram_labels (new_histogram_vec o ls) ≡ ls
  pub registered : Registerer → List String
  pub must_register : Registerer → CounterVec → HistogramVec → Option Registerer
  pub must_register_new :
      (r : Registerer) (o p : Opts) (ls ks : List String)
      → ¬ In o.name (registered r)
      → ¬ In p.name (registered r)
      → o.name ≢ p.name
      → (q : Registerer) × (must_register r (new_counter_vec o ls) (new_histogram_vec p ks)
          ≡ some q)
        × (registered q ≡ registered r ++ o.name ∷ p.name ∷ [])
  pub must_curry_counter : CounterVec → String → String → Option CounterVec
  pub must_curry_histogram : HistogramVec → String → String → Option HistogramVec
  pub curry_counter :
      (c : CounterVec) (label value : String)
      → In label (counter_labels c)
      → (d : CounterVec) × (must_curry_counter c label value ≡ some d)
        × (counter_labels d ≡ without label (counter_labels c))
  pub curry_histogram :
      (c : HistogramVec) (label value : String)
      → In label (histogram_labels c)
      → (d : HistogramVec) × (must_curry_histogram c label value ≡ some d)
        × (histogram_labels d ≡ without label (histogram_labels c))
  pub instrument_counter : CounterVec → RoundTripper → Option RoundTripper
  pub instrument_duration : HistogramVec → RoundTripper → Option RoundTripper
  pub counter_instruments :
      (c : CounterVec) (rt : RoundTripper)
      → All (λ l. (l ≡ "code") ⊎ (l ≡ "method")) (counter_labels c)
      → (out : RoundTripper) × (instrument_counter c rt ≡ some out)
  pub duration_instruments :
      (c : HistogramVec) (rt : RoundTripper)
      → All (λ l. (l ≡ "code") ⊎ (l ≡ "method")) (histogram_labels c)
      → (out : RoundTripper) × (instrument_duration c rt ≡ some out)

pub some_inj : {A : Type 0} {a b : A} → some a ≡ some b → a ≡ b
some_inj e = cc

module _ (prometheus : Prometheus) where
  open prometheus use {CounterVec, HistogramVec, RoundTripper, Registerer}

  pub record RoundTripperInstrumenter : Type 0 where
    pub request_counter : CounterVec
    pub request_duration : HistogramVec

  unfoldable pub counter_opts : Opts
  counter_opts = record {
    name = "client_api_requests_total";
    help = "A counter for requests from the wrapped client.";
  }

  unfoldable pub duration_opts : Opts
  duration_opts = record {
    name = "request_duration_seconds";
    help = "A histogram of request latencies.";
  }

  unfoldable pub new_vectors : RoundTripperInstrumenter
  new_vectors = record {
    request_counter = prometheus.new_counter_vec counter_opts ("code" ∷ "method" ∷ "client" ∷ []);
    request_duration = prometheus.new_histogram_vec duration_opts ("method" ∷ "client" ∷ []);
  }

  -- A nil registerer is none.
  abbrev made_with : Option Registerer → Option (RoundTripperInstrumenter × Option Registerer)
  made_with none = none
  made_with (some q) = some (new_vectors, some q)

  unfoldable pub new_round_tripper_instrumenter :
      Option Registerer → Option (RoundTripperInstrumenter × Option Registerer)
  new_round_tripper_instrumenter none = some (new_vectors, none)
  new_round_tripper_instrumenter (some r) =
      made_with
        (prometheus.must_register r new_vectors.request_counter new_vectors.request_duration)

  -- `MustCurryWith` twice, then the two wrappers, the inner one first
  unfoldable pub new_round_tripper :
      RoundTripperInstrumenter → String → RoundTripper → Option RoundTripper
  new_round_tripper rti name rt =
      elim (prometheus.must_curry_counter rti.request_counter "client" name) [
        | none ↦ none
        | some counter ↦ elim (prometheus.must_curry_histogram rti.request_duration "client" name) [
          | none ↦ none
          | some duration ↦ elim (prometheus.instrument_duration duration rt) [
            | none ↦ none
            | some inner ↦ prometheus.instrument_counter counter inner
          ]
        ]
      ]

  -- What can be said of an instrumenter that was made: it wraps every transport.
  abbrev pub IsWrapping : RoundTripperInstrumenter → Type 0
  IsWrapping rti =
      (name : String) (rt : RoundTripper)
      → (out : RoundTripper) × (new_round_tripper rti name rt ≡ some out)

  names_differ : counter_opts.name ≢ duration_opts.name
  unfolding counter_opts duration_opts
  names_differ e = cc

  -- What is left of the vectors' labels once the client's name is given.
  curried_vectors :
      (name : String)
      → (counter : CounterVec) × (duration : HistogramVec) × (prometheus.must_curry_counter
            new_vectors.request_counter "client" name
          ≡ some counter)
        × (prometheus.must_curry_histogram new_vectors.request_duration "client" name
            ≡ some duration)
        × (prometheus.counter_labels counter ≡ "code" ∷ "method" ∷ [])
        × (prometheus.histogram_labels duration ≡ "method" ∷ [])
  unfolding filter new_vectors
  curried_vectors name =
      let all = prometheus.counter_labels-new counter_opts ("code" ∷ "method" ∷ "client" ∷ []) in
      let timed = prometheus.histogram_labels-new duration_opts ("method" ∷ "client" ∷ []) in
      let (counter, c, left) =
        prometheus.curry_counter new_vectors.request_counter "client" name
          (subst (In "client") (sym all) (inr (inr (inl refl)))) in
      let (duration, d, rest) =
        prometheus.curry_histogram new_vectors.request_duration "client" name
          (subst (In "client") (sym timed) (inr (inl refl))) in
      (
        counter,
        duration,
        c,
        d,
        left ∙ ap (without "client") all,
        rest ∙ ap (without "client") timed,
      )

  new_vectors-IsWrapping : IsWrapping new_vectors
  unfolding new_round_tripper
  new_vectors-IsWrapping name rt =
      let (counter, duration, c, d, left, rest) = curried_vectors name in
      let IsKnown : String → Type 0 = λ l. (l ≡ "code") ⊎ (l ≡ "method") in
      let (inner, e) =
        prometheus.duration_instruments duration rt
          (subst (All IsKnown) (sym rest) (inr refl, tt)) in
      let (out, f) =
        prometheus.counter_instruments counter inner
          (subst (All IsKnown) (sym left) (inl refl, (inr refl, tt))) in
      (out, rw (new_round_tripper, c, d, e) f)

  -- q has the two metrics in addition to those of r.
  abbrev pub IsAdded : Registerer → Registerer → Type 0
  IsAdded r q =
      prometheus.registered q
      ≡ prometheus.registered r ++ counter_opts.name ∷ duration_opts.name ∷ []

  registered_vectors :
      (r : Registerer)
      → ¬ In counter_opts.name (prometheus.registered r)
      → ¬ In duration_opts.name (prometheus.registered r)
      → (q : Registerer) × (prometheus.must_register r new_vectors.request_counter
            new_vectors.request_duration
          ≡ some q)
        × IsAdded r q
  unfolding new_vectors
  registered_vectors r no_counter no_duration =
      prometheus.must_register_new r counter_opts duration_opts ("code" ∷ "method" ∷ "client" ∷ [])
        ("method" ∷ "client" ∷ []) no_counter no_duration names_differ

  -- If neither metric is registered yet, or there is no registry, then the instrumenter is made
  -- without a panic, its two metrics are registered, and it wraps every transport, under any name,
  -- without a panic.
  pub new_round_tripper_instrumenter-IsWrapping :
      (r : Option Registerer)
      → ((q : Registerer)
          → r ≡ some q
          → ¬ In counter_opts.name (prometheus.registered q)
            × ¬ In duration_opts.name (prometheus.registered q))
      → (rti : RoundTripperInstrumenter) × (after : Option Registerer)
        × (new_round_tripper_instrumenter r ≡ some (rti, after))
        × IsWrapping rti
        × ((q : Registerer) → r ≡ some q → (p : Registerer) × (after ≡ some p) × IsAdded q p)
  unfolding new_round_tripper_instrumenter
  new_round_tripper_instrumenter-IsWrapping none h =
      (new_vectors, none, refl, new_vectors-IsWrapping, λ q e. absurd (cc))
  new_round_tripper_instrumenter-IsWrapping (some r) h =
      let (no_counter, no_duration) = h r refl in
      let (q, made, names) = registered_vectors r no_counter no_duration in
      (
        new_vectors,
        some q,
        ap (λ o. made_with o) made,
        new_vectors-IsWrapping,
        λ p e. (q, refl, subst (λ x. IsAdded x q) (some_inj e) names),
      )
