-- ===== src/Cache.antt =====
-- internal/cache/cache.go: the interface of a cache of responses, and their JSON form. The two
-- implementations are in Cache/Inmemory and Cache/Memcached, the metrics in Cache/Metrics.
pub mod Inmemory
pub mod Memcached
pub mod Metrics
use opa_openshift.Base.{String, Option, some, Result, ok, err, context, ◌≡◌, ◌⊎◌, refl, arith}
use opa_openshift.Response.{DataResponse, Codec}

-- `Cacher`: a cache is a state with two operations. `Get` may change the state, too (an entry may
-- expire, a counter may grow).
pub record Cacher (S : Type 0) : Type 0 where
  pub get : S → String → Result (Option DataResponse) × S
  pub set : S → String → DataResponse → Result (Unit {0}) × S

-- What a client relies on: a response that is found was set under its key. An entry may vanish at
-- any time, and nothing is promised about that.
pub record CacherLaws {S : Type 0} (c : Cacher S) : Type 1 where
  pub Holds : S → String → DataResponse → Type 0
  pub get_holds :
      (s : S) (k : String) (r : DataResponse) → (c.get s k).0 ≡ ok (some r) → Holds s k r
  pub get_keeps : (s : S) (k j : String) (r : DataResponse) → Holds (c.get s k).1 j r → Holds s j r
  pub set_holds :
      (s : S) (k j : String) (r q : DataResponse)
      → Holds (c.set s k r).1 j q
      → ((k ≡ j) × (r ≡ q)) ⊎ Holds s j q

unfoldable pub to_json : Codec → DataResponse → Result String
to_json codec res = context "failed to convert DataResponseV1 to JSON" (codec.marshal res)

unfoldable pub from_json : Codec → String → Result DataResponse
from_json codec b = context "failed to convert JSON to DataResponseV1" (codec.unmarshal b)

-- A response that was written is read back as it was.
pub from_json-to_json :
    (codec : Codec) (r : DataResponse) (b : String)
    → to_json codec r ≡ ok b
    → from_json codec b ≡ ok r
unfolding to_json from_json
from_json-to_json codec r b e = ground (arith, codec.unmarshal-marshal r b)
