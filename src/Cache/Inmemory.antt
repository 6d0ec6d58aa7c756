-- ===== src/Cache/Inmemory.antt =====
-- internal/cache/inmemory.go: the cache over ttlcache, which is a parameter.
use opa_openshift.Base.{
  ◌^◌, ◌<◌, ℤ, scale, String, Option, none, some, Result, ok, err, ◌≡◌, ◌⊎◌, inl, inr, arith,
  Option-cases, Result-cases, subst, pos, negsuc, pos_part, neg_part, ◌≤◌, ◌*◌, refl,
}
use opa_openshift.Response.{DataResponse, Codec}
use opa_openshift.Cache.{Cacher, CacherLaws, to_json, from_json, from_json-to_json}
use opa_openshift.Cache.Metrics.{Counts}

-- A ttlcache from texts to bytes. `Holds` is what may still be found; an entry that was set is
-- found until something replaces, evicts or expires it.
pub record TtlCache : Type 1 where
  pub Store : Type 0
  -- `ttlcache.New` with a time to live in nanoseconds, and no touch on a hit
  pub new : ℤ → Store
  pub get : Store → String → Option String × Store
  -- `Set(k, v, ttlcache.DefaultTTL)`
  pub set : Store → String → String → Store
  pub metrics : Store → Counts
  pub Holds : Store → String → String → Type 0
  pub get_holds : (s : Store) (k b : String) → (get s k).0 ≡ some b → Holds s k b
  pub get_keeps : (s : Store) (k j b : String) → Holds (get s k).1 j b → Holds s j b
  pub set_holds :
      (s : Store) (k j b d : String) → Holds (set s k b) j d → ((k ≡ j) × (b ≡ d)) ⊎ Holds s j d

-- `time.Duration(int64(expire) * int64(time.Second))`, in nanoseconds
unfoldable pub expire_duration : ℤ → ℤ
expire_duration expire = scale expire 1000000000

module _ (codec : Codec) (tc : TtlCache) where
  -- `NewInMemoryCache`
  unfoldable pub new_in_memory_cache : ℤ → tc.Store
  new_in_memory_cache expire = tc.new (expire_duration expire)

  -- `Get`
  unfoldable pub get : tc.Store → String → Result (Option DataResponse) × tc.Store
  get s k =
      let (item, s') = tc.get s k in
      (
        elim item [
          | none ↦ ok none
          | some value ↦ elim (from_json codec value) [ ok res ↦ ok (some res) | err e ↦ err e ]
        ],
        s',
      )

  -- `Set`
  unfoldable pub set : tc.Store → String → DataResponse → Result (Unit {0}) × tc.Store
  set s k res = elim (to_json codec res) [ err e ↦ (err e, s) | ok v ↦ (ok tt, tc.set s k v) ]

  abbrev pub inmemory : Cacher tc.Store
  inmemory = record { get = get; set = set }

module _ (codec : Codec) (tc : TtlCache) where
  -- The bytes under the key may be found, and read back as the response.
  abbrev pub Stored : tc.Store → String → DataResponse → Type 0
  Stored s k r = (b : String) × tc.Holds s k b × (from_json codec b ≡ ok r)

  pub inmemory_get_holds :
      (s : tc.Store) (k : String) (r : DataResponse)
      → (get codec tc s k).0 ≡ ok (some r)
      → Stored s k r
  unfolding get
  inmemory_get_holds s k r e = elim (Option-cases (tc.get s k).0) [
    | inl missed ↦ ground arith
    | inr (b, found) ↦ (b, tc.get_holds s k b found, ground arith)
  ]

  pub inmemory_set_holds :
      (s : tc.Store) (k j : String) (r q : DataResponse)
      → Stored (set codec tc s k r).1 j q
      → ((k ≡ j) × (r ≡ q)) ⊎ Stored s j q
  unfolding set
  inmemory_set_holds s k j r q (d, held, read) = elim (Result-cases (to_json codec r)) [
    | inl (b, written) ↦
        elim (tc.set_holds s k j b d (subst (λ t. tc.Holds t j d) (rw (written, set)) held)) [
          | inl (same, value) ↦ inl (same, ground (arith, from_json-to_json codec r b written))
          | inr old ↦ inr (d, old, read)
        ]
    | inr (e, failed) ↦ inr (d, subst (λ t. tc.Holds t j d) (rw (failed, set)) held, read)
  ]

  -- The in-memory cache keeps the promise of its interface: what it finds under a key is a
  -- response that was set under that key, unchanged by the passage through JSON.
  unfoldable pub inmemory-laws : CacherLaws (inmemory codec tc)
  unfolding get
  inmemory-laws = record {
    Holds = Stored;
    get_holds = inmemory_get_holds;
    get_keeps = λ s k j r (b, held, read). (b, tc.get_keeps s k j b held, read);
    set_holds = inmemory_set_holds;
  }

  -- In an empty store nothing is found.
  pub none_stored :
      (s : tc.Store)
      → ((k b : String) → ¬ tc.Holds s k b)
      → (k : String) (r : DataResponse) → ¬ inmemory-laws.Holds s k r
  unfolding inmemory-laws
  none_stored s empty k r (b, held, read) = empty k b held

  -- A response that was set is found again, as long as its entry has not left the store.
  pub get-set :
      (s : tc.Store) (k b : String) (r : DataResponse)
      → to_json codec r ≡ ok b
      → (tc.get (tc.set s k b) k).0 ≡ some b
      → ((set codec tc s k r).0 ≡ ok tt) × ((get codec tc (set codec tc s k r).1 k).0 ≡ ok (some r))
  unfolding get set
  get-set s k b r written kept = (ground arith, ground (arith, from_json-to_json codec r b written))

-- The lifetime of an entry, in nanoseconds, is 10⁹ times the configured number of seconds, of the
-- same sign; for every 32-bit number of seconds it fits in 64 bits, so that the product in `int64`
-- does not wrap around.
pub expire_duration_bounds :
    (expire : ℤ)
    → neg_part expire ≤ 2 ^ 31
    → pos_part expire < 2 ^ 31
    → (pos_part (expire_duration expire) ≡ pos_part expire * 10 ^ 9)
      × (neg_part (expire_duration expire) ≡ neg_part expire * 10 ^ 9)
      × (neg_part (expire_duration expire) ≤ 2 ^ 63)
      × (pos_part (expire_duration expire) < 2 ^ 63)
unfolding expire_duration scale
expire_duration_bounds (pos n) h k = (refl, refl, omega arith, omega arith)
expire_duration_bounds (negsuc n) h k = (refl, omega arith, omega arith, omega arith)
