-- ===== src/Cache/Metrics.antt =====
-- internal/cache/metrics.go and the collector of internal/cache/inmemory.go.
use opa_openshift.Base.{ℕ, String, List, [], ◌∷◌, ◌<>◌}

abbrev pub metrics_prefix : String
metrics_prefix = "opa_openshift_cache_"

-- A description: its name, its help and its labels, as `prometheus.NewDesc` takes them.
pub record Desc : Type 0 where
  pub name : String
  pub help : String
  pub labels : List String

unfoldable pub desc_cache_requests : Desc
desc_cache_requests = record {
  name = metrics_prefix <> "requests_total";
  help = "Counts the number of retrieval requests to the cache.";
  labels = "result" ∷ [];
}

unfoldable pub desc_cache_inserts : Desc
desc_cache_inserts = record {
  name = metrics_prefix <> "inserts_total";
  help = "Counts the number of inserts into the cache.";
  labels = [];
}

unfoldable pub desc_cache_evictions : Desc
desc_cache_evictions = record {
  name = metrics_prefix <> "evictions_total";
  help = "Counts the number of cache evictions.";
  labels = [];
}

abbrev pub result_hit : String
result_hit = "hit"

abbrev pub result_miss : String
result_miss = "miss"

-- The counters of ttlcache.
pub record Counts : Type 0 where
  pub insertions : ℕ
  pub hits : ℕ
  pub misses : ℕ
  pub evictions : ℕ

-- `prometheus.MustNewConstMetric` of a counter, with a label value for each label
pub record Metric : Type 0 where
  pub desc : Desc
  pub value : ℕ
  pub label_values : List String

-- `Describe`: what is sent to the channel, in order
unfoldable pub describe : List Desc
describe = desc_cache_inserts ∷ desc_cache_requests ∷ desc_cache_evictions ∷ []

-- `Collect`: what is sent to the channel, in order
unfoldable pub collect : Counts → List Metric
collect metrics =
    record { desc = desc_cache_inserts; value = metrics.insertions; label_values = [] }
    ∷ record { desc = desc_cache_requests; value = metrics.hits; label_values = result_hit ∷ [] }
    ∷ record { desc = desc_cache_requests; value = metrics.misses; label_values = result_miss ∷ [] }
    ∷ record { desc = desc_cache_evictions; value = metrics.evictions; label_values = [] }
    ∷ []
