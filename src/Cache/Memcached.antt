-- ===== src/Cache/Memcached.antt =====
-- internal/cache/memcached.go: the cache over telemeter's memcached client, which is a parameter.
use opa_openshift.Base.{
  String, Option, none, some, Result, ok, err, ◌≡◌, ◌⊎◌, inl, inr, subst, arith, context,
  Result-cases,
}
use opa_openshift.Response.{DataResponse, Codec}
use opa_openshift.Cache.{Cacher, CacherLaws, to_json, from_json, from_json-to_json}

-- The client: its state is that of the servers. `Holds` is what they may still return.
pub record MemcachedClient : Type 1 where
  pub Servers : Type 0
  pub get : Servers → String → Result (Option String) × Servers
  pub set : Servers → String → String → Result (Unit {0}) × Servers
  pub Holds : Servers → String → String → Type 0
  pub get_holds : (s : Servers) (k b : String) → (get s k).0 ≡ ok (some b) → Holds s k b
  pub get_keeps : (s : Servers) (k j b : String) → Holds (get s k).1 j b → Holds s j b
  -- a write that failed may have reached the server
  pub set_holds :
      (s : Servers) (k j b d : String) → Holds (set s k b).1 j d → ((k ≡ j) × (b ≡ d)) ⊎ Holds s j d

module _ (codec : Codec) (mc : MemcachedClient) where
  -- `Get`, after the client has answered
  unfoldable pub read_found : Result (Option String) → Result (Option DataResponse)
  read_found (err e) = context "failed to fetch from memcached" (err e)
  read_found (ok none) = ok none
  read_found (ok (some b)) = elim (from_json codec b) [ ok res ↦ ok (some res) | err e ↦ err e ]

  -- `Get`
  unfoldable pub get : mc.Servers → String → Result (Option DataResponse) × mc.Servers
  get s k = let (found, s') = mc.get s k in (read_found found, s')

  -- `Set`
  unfoldable pub set : mc.Servers → String → DataResponse → Result (Unit {0}) × mc.Servers
  set s k res = elim (to_json codec res) [
    | err e ↦ (err e, s)
    | ok v ↦ let (done, s') = mc.set s k v in (context "failed to store in memcached" done, s')
  ]

  abbrev pub memcache : Cacher mc.Servers
  memcache = record { get = get; set = set }

module _ (codec : Codec) (mc : MemcachedClient) where
  -- The bytes under the key may be returned, and read back as the response.
  abbrev Stored : mc.Servers → String → DataResponse → Type 0
  Stored s k r = (b : String) × mc.Holds s k b × (from_json codec b ≡ ok r)

  memcache_get_holds :
      (s : mc.Servers) (k : String) (r : DataResponse)
      → (get codec mc s k).0 ≡ ok (some r)
      → Stored s k r
  unfolding get read_found
  memcache_get_holds s k r e = elim (Result-cases (mc.get s k).0) [
    | inr (x, failed) ↦ ground arith
    | inl (none, missed) ↦ ground arith
    | inl (some b, found) ↦ (b, mc.get_holds s k b found, ground arith)
  ]

  memcache_set_holds :
      (s : mc.Servers) (k j : String) (r q : DataResponse)
      → Stored (set codec mc s k r).1 j q
      → ((k ≡ j) × (r ≡ q)) ⊎ Stored s j q
  unfolding set
  memcache_set_holds s k j r q (d, held, read) = elim (Result-cases (to_json codec r)) [
    | inl (b, written) ↦
        elim (mc.set_holds s k j b d (subst (λ t. mc.Holds t j d) (rw (written, set)) held)) [
          | inl (same, value) ↦ inl (same, ground (arith, from_json-to_json codec r b written))
          | inr old ↦ inr (d, old, read)
        ]
    | inr (e, failed) ↦ inr (d, subst (λ t. mc.Holds t j d) (rw (failed, set)) held, read)
  ]

  -- The memcached cache keeps the promise of its interface: what it finds under a key is a
  -- response that was set under that key, unchanged by the passage through JSON.
  pub memcache-laws : CacherLaws (memcache codec mc)
  unfolding get
  memcache-laws = record {
    Holds = Stored;
    get_holds = memcache_get_holds;
    get_keeps = λ s k j r (b, held, read). (b, mc.get_keeps s k j b held, read);
    set_holds = memcache_set_holds;
  }
