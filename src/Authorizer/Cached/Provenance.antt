-- ===== src/Authorizer/Cached/Provenance.antt =====
-- What `Authorize` of internal/authorizer/authorizer.go may answer from its cache: over any
-- sequence of requests, only decisions that were made under the same key.
use opa_openshift.Base.{String, some, ◌≡◌, refl, ok}
use opa_openshift.Response.{DataResponse}
use opa_openshift.Openshift.{Client}
use opa_openshift.Cache.{Cacher, CacherLaws}
use opa_openshift.Config.Matcher.{Matcher}
use opa_openshift.Authorizer.{Query}
use opa_openshift.Authorizer.Key.{generate_cache_key}
use opa_openshift.Authorizer.Data.{Labels}
use opa_openshift.Authorizer.Inner.{authorize_inner}
use opa_openshift.Authorizer.Cached.{authorize}
pub use opa_openshift.Authorizer.Cached.Keyed.{key_of}
use opa_openshift.Authorizer.Cached.Keyed.{IsKept, authorize-IsKept, authorizer}

-- The decision was made for some request with that key, in some state of the world.
pub record IsDecision (W : Type 0) (sha256_hex : String → String) (labels : Labels) (key : String)
    (r : DataResponse) : Type 0 where
  pub client : Client W
  pub matcher : Matcher
  pub query : Query
  pub world : W
  pub same_key : key_of sha256_hex query matcher ≡ key
  pub decided :
      (authorize_inner labels client matcher
        (generate_cache_key sha256_hex query (some matcher)).1
        world).0
      ≡ ok r

-- All requests of the process share the cache and the libraries; each brings its own client, for
-- its own token, and its own matcher.
module _ (W : Type 0) {S : Type 0} (sha256_hex : String → String) (labels : Labels)
    {cache : Cacher S} (laws : CacherLaws cache) where
  -- Whatever may be found in the cache is a decision made under its key.
  abbrev pub IsFaithful : S → Type 0
  IsFaithful s = IsKept W sha256_hex labels laws (IsDecision W sha256_hex labels) s

  -- A request keeps the cache faithful, and what it answers with is a decision that was made
  -- under its own key, by this request or by an earlier one.
  pub authorize-IsFaithful :
      (client : Client W) (matcher : Matcher) (q : Query) (w : W) (s : S)
      → IsFaithful s
      → let out = authorize (authorizer W sha256_hex labels cache client matcher) q w s in
        IsFaithful out.2
        × ((r : DataResponse)
            → out.0 ≡ ok r
            → IsDecision W sha256_hex labels (key_of sha256_hex q matcher) r)
  authorize-IsFaithful client matcher q =
      authorize-IsKept W sha256_hex labels laws (IsDecision W sha256_hex labels) client matcher q
        (λ w r decided. record {
          client = client;
          matcher = matcher;
          query = q;
          world = w;
          same_key = refl;
          decided = decided;
        })

  -- The states of the cache after any sequence of requests, for any users and in any states of
  -- the world, that begins with a cache in which nothing is found.
  pub data Reach : S → Type 0 where
    start : (s : S) → ((k : String) (r : DataResponse) → ¬ laws.Holds s k r) → Reach s
    next :
        {s : S} (client : Client W) (matcher : Matcher) (q : Query) (w : W)
        → Reach s
        → Reach (authorize (authorizer W sha256_hex labels cache client matcher) q w s).2

  pub Reach-IsFaithful : {s : S} → Reach s → IsFaithful s
  Reach-IsFaithful (start s nothing) = λ k r held. absurd (nothing k r held)
  Reach-IsFaithful (next {s} client matcher q w reached) =
      (authorize-IsFaithful client matcher q w s (Reach-IsFaithful reached)).0

  -- After any sequence of requests that begins with an empty cache, the answer to the next one is
  -- a decision that `authorizeInner` made, now or earlier, for a request with the same key: the
  -- cache never serves a response that was made under another key, or that was never made.
  pub authorize-IsDecision :
      {s : S}
      → Reach s
      → (client : Client W) (matcher : Matcher) (q : Query) (w : W) (r : DataResponse)
      → (authorize (authorizer W sha256_hex labels cache client matcher) q w s).0 ≡ ok r
      → IsDecision W sha256_hex labels (key_of sha256_hex q matcher) r
  authorize-IsDecision {s} reached client matcher q w =
      (authorize-IsFaithful client matcher q w s (Reach-IsFaithful reached)).1
