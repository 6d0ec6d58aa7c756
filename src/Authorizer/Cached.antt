-- ===== src/Authorizer/Cached.antt =====
-- `Authorize` of internal/authorizer/authorizer.go: the decision behind the cache.
pub mod Keyed
pub mod Provenance
pub mod Repeat
pub mod Errors
use opa_openshift.Base.{
  String, Bool, true, false, Option, none, some, ◌||◌, Error, status_code_error, Result, ok, err,
  ◌<>◌, ℕ, if◌then◌else◌, ◌==◌,
}
use opa_openshift.Response.{DataResponse}
use opa_openshift.Openshift.{Client}
use opa_openshift.Cache.{Cacher}
use opa_openshift.Config.Matcher.{Matcher}
use opa_openshift.Authorizer.{Query, get_verb, create_verb}
use opa_openshift.Authorizer.Key.{generate_cache_key}
use opa_openshift.Authorizer.Data.{Labels}
use opa_openshift.Authorizer.Inner.{with_status, status_internal_server_error, authorize_inner}

abbrev pub status_bad_request : ℕ
status_bad_request = 400

-- `Authorizer`, with the libraries that it calls.
pub record Authorizer (W S : Type 0) : Type 1 where
  pub sha256_hex : String → String
  pub labels : Labels
  pub client : Client W
  pub cache : Cacher S
  pub matcher : Matcher

module _ {W S : Type 0} (a : Authorizer W S) where
  -- what follows a miss; a cache that cannot be written only costs a log line
  unfoldable pub authorize_missed : String → Query → W → S → Result DataResponse × W × S
  authorize_missed key q w s =
      let (res, w') = authorize_inner a.labels a.client a.matcher q w in
      elim res [ err e ↦ (err e, w', s) | ok r ↦ (ok r, w', (a.cache.set s key r).1) ]

  -- what follows the check of the verb
  unfoldable pub authorize_known : Query → W → S → Result DataResponse × W × S
  authorize_known q w s =
      let (key, q') = generate_cache_key a.sha256_hex q (some a.matcher) in
      let (found, s') = a.cache.get s key in
      elim found [
        | err e ↦ (
          err (
              with_status "failed to fetch authorization response from cache"
                status_internal_server_error e),
          w,
          s',
        )
        | ok (some res) ↦ (ok res, w, s')
        | ok none ↦ authorize_missed key q' w s'
      ]

  unfoldable pub authorize : Query → W → S → Result DataResponse × W × S
  authorize q w s =
      if q.verb == create_verb || q.verb == get_verb
      then authorize_known q w s
      else (err (status_code_error ("unexpected verb: " <> q.verb) status_bad_request), w, s)
