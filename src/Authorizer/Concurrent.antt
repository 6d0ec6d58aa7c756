-- ===== src/Authorizer/Concurrent.antt =====
-- Calls of `Authorize` in internal/authorizer/authorizer.go that run at the same time, as the HTTP
-- server makes them: each with its own client and matcher, all on one cache. A step is one access
-- to the cache, which locks itself, or a whole decision. The answers that a decision gets from
-- the API server are left open, so that it loses nothing to be one step. How calls take turns is in
-- Base/Interleaving.
pub mod Alone
pub mod Safety
pub mod Progress
use opa_openshift.Base.{
  ℕ, String, Bool, true, false, Option, none, some, ◌≡◌, ◌||◌, ◌==◌, ◌=?◌, Error, status_code_error,
  Result, ok, err, ◌<>◌, if◌then◌else◌,
}
use opa_openshift.Base.Interleaving.{System}
use opa_openshift.Response.{DataResponse}
use opa_openshift.Openshift.{Client}
use opa_openshift.Cache.{Cacher, CacherLaws}
use opa_openshift.Config.Matcher.{Matcher}
use opa_openshift.Authorizer.{Query, get_verb, create_verb}
use opa_openshift.Authorizer.Key.{generate_cache_key}
use opa_openshift.Authorizer.Data.{Labels}
use opa_openshift.Authorizer.Inner.{with_status, status_internal_server_error, authorize_inner}
use opa_openshift.Authorizer.Cached.{status_bad_request}

-- The arguments of one call, with the matcher of its authorizer.
pub record Task : Type 0 where
  pub matcher : Matcher
  pub query : Query

-- Where a call stands: before the lookup; after a miss; with a response that is not stored yet;
-- returned.
pub data Phase : Type 0 where
  waiting : Phase
  missed : Phase
  decided : DataResponse → Phase
  finished : Result DataResponse → Phase

abbrev pub known_verb : Query → Bool
known_verb q = q.verb == create_verb || q.verb == get_verb

module _ (sha256_hex : String → String) where
  abbrev pub task_key : Task → String
  task_key t = (generate_cache_key sha256_hex t.query (some t.matcher)).0

  -- The query with its groups sorted.
  abbrev pub task_query : Task → Query
  task_query t = (generate_cache_key sha256_hex t.query (some t.matcher)).1

-- Any client, in any state of the outside world.
abbrev pub any_client : (W : Type 0) → Client W × W → Client W × W
any_client W c = c

-- A decision is made with one of the clients of a family, from one of the states of the world.
module _ {C W S : Type 0} (backend : C → Client W × W) (sha256_hex : String → String)
    (labels : Labels) (cache : Cacher S) where
  -- One step of one call, on the cache in the state s.
  pub data Move (t : Task) (s : S) : Phase → S → Phase → Type 0 where
    refuse :
        known_verb t.query ≡ false
        → Move t s waiting s (
            finished
              (err (status_code_error ("unexpected verb: " <> t.query.verb) status_bad_request)))
    fault :
        (e : Error)
        → known_verb t.query ≡ true
        → (cache.get s (task_key sha256_hex t)).0 ≡ err e
        → Move t s waiting (cache.get s (task_key sha256_hex t)).1 (
            finished (
              err (
                with_status "failed to fetch authorization response from cache"
                  status_internal_server_error e)))
    hit :
        (r : DataResponse)
        → known_verb t.query ≡ true
        → (cache.get s (task_key sha256_hex t)).0 ≡ ok (some r)
        → Move t s waiting (cache.get s (task_key sha256_hex t)).1 (finished (ok r))
    miss :
        known_verb t.query ≡ true
        → (cache.get s (task_key sha256_hex t)).0 ≡ ok none
        → Move t s waiting (cache.get s (task_key sha256_hex t)).1 missed
    fail :
        (c : C) (e : Error)
        → (authorize_inner labels (backend c).0 t.matcher (task_query sha256_hex t) (backend c).1).0
          ≡ err e
        → Move t s missed s (finished (err e))
    decide :
        (c : C) (r : DataResponse)
        → (authorize_inner labels (backend c).0 t.matcher (task_query sha256_hex t) (backend c).1).0
          ≡ ok r
        → Move t s missed s (decided r)
    -- whatever the cache answers, the response is returned
    store :
        (r : DataResponse)
        → Move t s (decided r) (cache.set s (task_key sha256_hex t) r).1 (finished (ok r))

  -- The outside world after the decision of a step, if it makes one.
  abbrev pub world_after : {t : Task} {s s' : S} {p p' : Phase} → Move t s p s' p' → Option W
  world_after (refuse unknown) = none
  world_after (fault e known failed) = none
  world_after (hit r known found) = none
  world_after (miss known nothing) = none
  world_after {t} (fail c e failed) =
      some
        (authorize_inner labels (backend c).0 t.matcher (task_query sha256_hex t) (backend c).1).1
  world_after {t} (decide c r made) =
      some
        (authorize_inner labels (backend c).0 t.matcher (task_query sha256_hex t) (backend c).1).1
  world_after (store r) = none

  -- The steps of one call, with no other in between.
  pub data Moves (t : Task) : S → Phase → S → Phase → Type 0 where
    here : {s : S} {p : Phase} → Moves t s p s p
    next :
        {s s' s'' : S} {p p' p'' : Phase}
        → Move t s p s' p'
        → Moves t s' p' s'' p''
        → Moves t s p s'' p''

module _ {S : Type 0} {cache : Cacher S} (laws : CacherLaws cache) where
  -- The cache loses entries, and gets none.
  abbrev pub IsLoss : S → S → Type 0
  IsLoss s s' = (k : String) (r : DataResponse) → laws.Holds s' k r → laws.Holds s k r

  abbrev pub IsEmpty : S → Type 0
  IsEmpty s = (k : String) (r : DataResponse) → ¬ laws.Holds s k r

module _ {C W S : Type 0} (backend : C → Client W × W) (sha256_hex : String → String)
    (labels : Labels) {cache : Cacher S} (laws : CacherLaws cache) (tasks : ℕ → Task) where
  abbrev pub TaskMove : ℕ → S → Phase → S → Phase → Type 0
  TaskMove i = Move backend sha256_hex labels cache (tasks i)

  -- A process starts with an empty cache and no call begun.
  abbrev pub IsFresh : System S Phase → Type 0
  IsFresh y = IsEmpty laws y.shared × ((i : ℕ) → y.phase i ≡ waiting)
