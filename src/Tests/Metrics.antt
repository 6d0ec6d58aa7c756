-- ===== src/Tests/Metrics.antt =====
-- Metrics of a small library.
use opa_openshift.Base.{pos, String, List, [], ◌∷◌, ◌++◌, some, ◌≡◌, refl, map}
use opa_openshift.Cache.Metrics.{
  describe, desc_cache_inserts, desc_cache_requests, desc_cache_evictions,
}
use opa_openshift.Instrumentation.{
  Prometheus, without, RoundTripperInstrumenter, counter_opts, duration_opts,
}
use opa_openshift.Main.{CacheChoice, in_memory}
use opa_openshift.Main.Metrics.{
  Metrics, IsApart, is_free-Free, transport_names, names_of, registered_after, register_metrics,
  wrap_transport, register_metrics-wrap_transport,
}

-- A vector is its name and its labels, a registry the names in it, and a transport the names of
-- the metrics around it.
abbrev library : Prometheus
library = record {
  CounterVec = String × List String;
  HistogramVec = String × List String;
  RoundTripper = List String;
  Registerer = List String;
  new_counter_vec = λ o ls. (o.name, ls);
  new_histogram_vec = λ o ls. (o.name, ls);
  counter_labels = λ c. c.1;
  histogram_labels = λ c. c.1;
  counter_labels-new = λ o ls. refl;
  histogram_labels-new = λ o ls. refl;
  registered = λ r. r;
  must_register = λ r c d. some (r ++ c.0 ∷ d.0 ∷ []);
  must_register_new = λ r o p ls ks no_o no_p differ. (_, refl, refl);
  must_curry_counter = λ c label value. some (c.0, without label c.1);
  must_curry_histogram = λ c label value. some (c.0, without label c.1);
  curry_counter = λ c label value given. (_, refl, refl);
  curry_histogram = λ c label value given. (_, refl, refl);
  instrument_counter = λ c rt. some (c.0 ∷ rt);
  instrument_duration = λ c rt. some (c.0 ∷ rt);
  counter_instruments = λ c rt known. (_, refl);
  duration_instruments = λ c rt known. (_, refl);
}

abbrev metrics : Metrics
metrics = record {
  prometheus = library;
  new_registry = [];
  registered-new_registry = refl;
  handler_instrumenter = record {
    names = "http_requests_total" ∷ [];
    register = λ r. some (r ++ "http_requests_total" ∷ []);
    registers = λ r free. (_, refl, refl);
  };
  health_metrics = record {
    names = "healthcheck" ∷ [];
    register = λ r. some (r ++ "healthcheck" ∷ []);
    registers = λ r free. (_, refl, refl);
  };
  must_register = λ r ds. some (r ++ map (λ d. d.name) ds);
  must_register_free = λ r ds distinct free. (_, refl, refl);
}

abbrev choice : CacheChoice
choice = in_memory (pos 60)

apart : IsApart metrics choice
unfolding counter_opts duration_opts describe desc_cache_inserts desc_cache_requests
    desc_cache_evictions
apart = record {
  handler_apart =
      is_free-Free (transport_names metrics ++ names_of metrics choice) ("http_requests_total" ∷ [])
        refl;
  health_handler = is_free-Free ("healthcheck" ∷ []) ("http_requests_total" ∷ []) refl;
  health_apart =
      is_free-Free ("healthcheck" ∷ []) (transport_names metrics ++ names_of metrics choice) refl;
}

register_metrics-wrap_transport_example :
    (rti : RoundTripperInstrumenter library) × (q : List String) × (register_metrics metrics choice
      ≡ some (rti, q))
    × (q ≡ registered_after metrics choice)
    × ((rt : List String) → (out : List String) × (wrap_transport metrics rti rt ≡ some out))
register_metrics-wrap_transport_example = register_metrics-wrap_transport metrics choice apart
