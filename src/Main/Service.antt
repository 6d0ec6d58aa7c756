-- ===== src/Main/Service.antt =====
-- main.go as a whole: the handler of internal/handler/handler.go on the cache that the
-- configuration chooses, with the libraries that the process is linked with.
use opa_openshift.Base.{ℕ, ℤ, String, List, [], ◌≡◌, ◌≢◌, Option, Error, Result, ok}
use opa_openshift.Base.Interleaving.{System, Reach}
use opa_openshift.Response.{DataResponse, Codec}
use opa_openshift.Cache.{Cacher, CacherLaws}
use opa_openshift.Cache.Inmemory.{TtlCache, inmemory, inmemory-laws}
use opa_openshift.Cache.Memcached.{MemcachedClient, memcache, memcache-laws}
use opa_openshift.Config.{Config}
use opa_openshift.Config.Matcher.{to_matcher}
use opa_openshift.Config.Matcher.Request.{IsExempt}
use opa_openshift.Openshift.Connect.{Kube, Env, Connection}
use opa_openshift.Openshift.Reviews.{Cluster}
use opa_openshift.Authorizer.Data.{Labels}
use opa_openshift.Authorizer.Cached.Provenance.{key_of}
use opa_openshift.Handler.{Input, Sets, HttpRequest, write, pass, Setting, Prepared, prepare}
use opa_openshift.Handler.Concurrent.{HttpPhase, Shared, RequestMove, IsCacheLoss, IsFresh}
use opa_openshift.Main.{CacheChoice, in_memory, memcached, choose_cache}

-- What the process is linked with and what surrounds it.
pub record Libraries : Type 1 where
  pub kube : Kube
  pub env : Env
  pub wrap_transport : kube.Transport
  pub cluster : Connection kube → Cluster
  pub unmarshal : String → Result Input
  pub sets : Sets
  pub codec : Codec
  pub labels : Labels
  pub sha256_hex : String → String
  pub write : String → Option Error
  pub ttlcache : TtlCache
  -- `memcached.New`, with the interval, the time to live and the servers
  pub memcached_client : ℤ → ℤ → List String → MemcachedClient

module _ (libs : Libraries) where
  -- `NewMemached`
  abbrev pub new_memcached :
      (interval expiration : ℤ) (servers : List String)
      → Cacher (libs.memcached_client interval expiration servers).Servers
  new_memcached interval expiration servers =
      memcache libs.codec (libs.memcached_client interval expiration servers)

  abbrev pub CacheState : CacheChoice → Type 0
  CacheState (in_memory expire) = libs.ttlcache.Store
  CacheState (memcached interval expire servers) =
      (libs.memcached_client interval expire servers).Servers

  -- `mc`
  abbrev pub new_cache : (c : CacheChoice) → Cacher (CacheState c)
  new_cache (in_memory expire) = inmemory libs.codec libs.ttlcache
  new_cache (memcached interval expire servers) = new_memcached interval expire servers

  -- Either cache keeps the promise of its interface.
  abbrev pub new_cache-laws : (c : CacheChoice) → CacherLaws (new_cache c)
  new_cache-laws (in_memory expire) = inmemory-laws libs.codec libs.ttlcache
  new_cache-laws (memcached interval expire servers) =
      memcache-laws libs.codec (libs.memcached_client interval expire servers)

  -- `handler.New(l, mc, wt, cfg)`
  abbrev pub new_handler : (cfg : Config) → Setting (CacheState (choose_cache cfg.memcached))
  new_handler cfg = record {
    config = cfg;
    kube = libs.kube;
    env = libs.env;
    wrap_transport = libs.wrap_transport;
    cluster = libs.cluster;
    unmarshal = libs.unmarshal;
    sets = libs.sets;
    codec = libs.codec;
    labels = libs.labels;
    sha256_hex = libs.sha256_hex;
    cache = new_cache (choose_cache cfg.memcached);
    write = libs.write;
  }

  -- What stands behind an answer of the service to a request: a response that is granted in some
  -- sense under the cache key of the request.
  pub record IsBacked (cfg : Config) (Granted : String → DataResponse → Type 0) (r : HttpRequest)
      (out : String) : Type 0 where
    pub prepared : Prepared (new_handler cfg)
    pub response : DataResponse
    pub input : Input
    pub body : String
    pub passed : prepare (new_handler cfg) r ≡ pass prepared
    pub read : r.body ≡ ok body
    pub decoded : libs.unmarshal body ≡ ok input
    pub written : libs.codec.marshal response ≡ ok out
    pub granted : Granted (key_of libs.sha256_hex prepared.query prepared.matcher) response
    pub matched :
        ¬ IsExempt (to_matcher cfg.opa) input.tenant input.groups → prepared.matcher.keys ≢ []

  -- The service while it handles requests: its cache and what the API server has answered, and where
  -- each request stands.
  abbrev pub ServiceState : Config → Type 0
  ServiceState cfg = System (Shared (new_handler cfg)) (HttpPhase (new_handler cfg))

  abbrev pub IsReachable : (cfg : Config) → (ℕ → HttpRequest) → ServiceState cfg → Type 0
  IsReachable cfg requests =
      let laws = new_cache-laws (choose_cache cfg.memcached) in
      Reach (RequestMove (new_handler cfg) laws requests)
        (IsCacheLoss (new_handler cfg) laws requests) (IsFresh (new_handler cfg) laws requests)
