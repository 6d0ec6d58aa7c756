-- ===== src/Lib.antt =====
-- A model of opa-openshift, the service that answers Observatorium's authorization requests by
-- asking an OpenShift cluster, and of what makes its answers right.
--
-- The program. main.go reads the flags, chooses a cache and serves one HTTP handler. For each
-- request the handler checks the input, builds a client for the caller's token and a label matcher
-- for the caller, and calls the authorizer. The authorizer looks the request up in the cache under
-- a key; on a miss it sends access reviews to the cluster, builds a response, stores it and
-- returns it. The handler writes the response as JSON, or an HTTP error. The process runs until a
-- signal comes or one of its two servers fails, and then shuts the servers down.
--
-- Where each part is:
--   Config            internal/config/config.go: the configuration's records
--   Config/Flags      `ParseFlags`, `parseLogLevel`, the expressions for package and rule
--   Config/Matcher    internal/config/matcher.go: `ToMatcher`, `prepareMap`, `ForRequest`,
--                     `ViaQToOTELMigration`, on values; on pointers and slices, in
--                     Config/Matcher/Aliasing
--   Config/Tls        internal/config/tls.go: `NewServerConfig`
--   Response          the values of OPA's `types.DataResponseV1` that are used
--   Cache             internal/cache: `Cacher` and its laws, `toJSON`, `fromJSON`; the two
--                     implementations in Cache/Inmemory and Cache/Memcached, the metrics in
--                     Cache/Metrics
--   Openshift         internal/openshift/client.go: `Client` and its laws; access reviews and
--                     projects in Openshift/Reviews, `NewClient` in Openshift/Connect
--   Authorizer        internal/authorizer: the cache key (cache.go) in Authorizer/Key, and of
--                     authorizer.go the responses in Authorizer/Data, `authorizeInner` in
--                     Authorizer/Inner, `Authorize` in Authorizer/Cached, and calls of it that run
--                     at the same time in Authorizer/Concurrent
--   Handler           internal/handler/handler.go: `prepare` is the handler up to the call of the
--                     authorizer, `handle` all of it; requests that are handled at the same time are
--                     in Handler/Concurrent
--   Openshift/Interfaces  internal/external/k8s/client.go and ocp/client.go: the interfaces that
--                     the client calls, and its calls through them
--   Instrumentation   internal/instrumentation/instrument.go: the metrics of the client's transport
--   Fakes             internal/external/k8s/k8sfakes and ocp/ocpfakes: the generated doubles of
--                     these interfaces; Fakes/Client is the client on them, as its tests set it up
--   Main              main.go: the start-up, as far as it decides what is served; the handler on the
--                     cache that is chosen, in Main/Service; the run group, the signals and the
--                     shutdown, up to the end of the process, in Main/Lifecycle; the metrics that
--                     it registers, in Main/Metrics
--   Base              what the modules share: results and errors, texts, paths, sorting, maps
--   Tests             runs on small inputs, and inputs that meet the hypotheses of the theorems
--
-- How it is modelled. Go's `(value, error)` is `Result`; an error is its text and, for
-- `StatusCodeError`, its status. The cache and the outside world are states that are passed on
-- explicitly: a cache is a `Cacher` on a state S, a cluster client a `Client` on a state W, so
-- that the answer to a question may change from one call to the next. Components meet in these
-- records; `CacherLaws` and `ClientLaws` say what their users rely on, and Cache/Inmemory,
-- Cache/Memcached and Openshift/Reviews show that the implementations keep them. Loops are
-- recursion on the list that they run over, so no fuel is needed. A request is handled by one
-- function; for requests that are handled at the same time, Handler/Concurrent takes the steps that
-- they make on their shared cache in any order (Base/Interleaving), with those of the authorizer
-- from Authorizer/Concurrent, keeps what the API server has answered to each request, and shows that
-- the handler by itself makes these steps. A process is
-- its own steps and the events from outside, in any order. Maps are association lists. An `int32`
-- is an integer, the bounds of which are written out where they matter. A text is its sequence of
-- characters.
--
-- Code outside the repository is a parameter: JSON (`Codec`, `unmarshal`), SHA-256 in hexadecimal,
-- ttlcache (`TtlCache`), the memcached client (`MemcachedClient`), Prometheus's label matchers
-- (`Labels`, and what they match in `Matching`), client-go (`Kube`, `Api`, `Kinds`), the API server
-- (`Cluster`), k8s' sets (`Sets`), the metrics libraries (`Prometheus`, `Metrics`), crypto/tls
-- (`TlsLib`), oklog/run (`RunGroup`) and pflag, from whose variables `parse_flags` starts. Signals,
-- channels and net/http's servers are modelled as Go's library has them.
--
-- Not modelled: log lines; the internal server's handlers in main.go, which a library provides;
-- connections on which no request is in flight, which `Shutdown` closes; the locks inside a double
-- of internal/external, each function of which is one step.
pub mod Base
pub mod Config
pub mod Response
pub mod Cache
pub mod Openshift
pub mod Authorizer
pub mod Handler
pub mod Instrumentation
pub mod Fakes
pub mod Main
mod Tests
