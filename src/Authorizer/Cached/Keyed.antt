-- ===== src/Authorizer/Cached/Keyed.antt =====
-- A property of keys and responses that every decision has under its key holds of all that
-- `Authorize` of internal/authorizer/authorizer.go stores and answers.
use opa_openshift.Base.{
  String, none, some, ◌≡◌, inl, inr, subst, ◌||◌, ok, err-ne-ok, ok_inj, Result-cases, Bool-cases,
  ◌==◌,
}
use opa_openshift.Response.{DataResponse}
use opa_openshift.Openshift.{Client}
use opa_openshift.Cache.{Cacher, CacherLaws}
use opa_openshift.Config.Matcher.{Matcher}
use opa_openshift.Authorizer.{Query, get_verb, create_verb}
use opa_openshift.Authorizer.Key.{generate_cache_key}
use opa_openshift.Authorizer.Data.{Labels}
use opa_openshift.Authorizer.Inner.{authorize_inner}
use opa_openshift.Authorizer.Cached.{Authorizer, authorize_missed, authorize_known, authorize}

abbrev pub key_of : (String → String) → Query → Matcher → String
key_of sha256_hex q m = (generate_cache_key sha256_hex q (some m)).0

-- All requests of the process share the cache and the libraries; each brings its own client, for
-- its own token, and its own matcher.
module _ (W : Type 0) {S : Type 0} (sha256_hex : String → String) (labels : Labels)
    (cache : Cacher S) where
  abbrev pub authorizer : Client W → Matcher → Authorizer W S
  authorizer client matcher = record {
    sha256_hex = sha256_hex;
    labels = labels;
    client = client;
    cache = cache;
    matcher = matcher;
  }

module _ (W : Type 0) {S : Type 0} (sha256_hex : String → String) (labels : Labels)
    {cache : Cacher S} (laws : CacherLaws cache) (P : String → DataResponse → Type 0) where
  -- Whatever may be found in the cache has the property.
  abbrev pub IsKept : S → Type 0
  IsKept s = (k : String) (r : DataResponse) → laws.Holds s k r → P k r

  module _ (client : Client W) (matcher : Matcher) (q : Query)
      (made : (w : W) (r : DataResponse)
        → (authorize_inner labels client matcher
            (generate_cache_key sha256_hex q (some matcher)).1
            w).0
          ≡ ok r
        → P (key_of sha256_hex q matcher) r) where
    missed-IsKept :
        (w : W) (s : S)
        → IsKept s
        → let out =
            authorize_missed
              (authorizer W sha256_hex labels cache client matcher)
              (key_of sha256_hex q matcher)
              (generate_cache_key sha256_hex q (some matcher)).1
              w
              s in
          IsKept out.2 × ((r : DataResponse) → out.0 ≡ ok r → P (key_of sha256_hex q matcher) r)
    unfolding authorize_missed
    missed-IsKept w s f =
        let q' = (generate_cache_key sha256_hex q (some matcher)).1 in
        elim (Result-cases (authorize_inner labels client matcher q' w).0) [
          | inr (x, failed) ↦ rw (failed, authorize_missed) (f, λ r e. absurd (err-ne-ok e))
          | inl (r, decided) ↦
              let has = made w r decided in
              rw (decided, authorize_missed)
                (
                  λ k p held. elim (laws.set_holds s (key_of sha256_hex q matcher) k r p held) [
                    | inl (same, value) ↦ subst (λ j. P j p) same (subst (P _) value has)
                    | inr old ↦ f k p old
                  ],
                  λ p e. subst (P _) (ok_inj e) has,
                )
        ]

    known-IsKept :
        (w : W) (s : S)
        → IsKept s
        → let out = authorize_known (authorizer W sha256_hex labels cache client matcher) q w s in
          IsKept out.2 × ((r : DataResponse) → out.0 ≡ ok r → P (key_of sha256_hex q matcher) r)
    unfolding authorize_known
    known-IsKept w s f =
        let key = key_of sha256_hex q matcher in
        let f' : IsKept (cache.get s key).1 = λ k r held. f k r (laws.get_keeps s key k r held) in
        elim (Result-cases (cache.get s key).0) [
          | inr (x, failed) ↦ rw (failed, authorize_known) (f', λ r e. absurd (err-ne-ok e))
          | inl (some r, found) ↦
              rw (found, authorize_known)
                (f', λ p e. subst (P _) (ok_inj e) (f key r (laws.get_holds s key r found)))
          | inl (none, missed) ↦
              rw (missed, authorize_known) (missed-IsKept w (cache.get s key).1 f')
        ]

    -- A request whose own decision has the property keeps it for the cache, and its answer has it
    -- under its key.
    pub authorize-IsKept :
        (w : W) (s : S)
        → IsKept s
        → let out = authorize (authorizer W sha256_hex labels cache client matcher) q w s in
          IsKept out.2 × ((r : DataResponse) → out.0 ≡ ok r → P (key_of sha256_hex q matcher) r)
    unfolding authorize
    authorize-IsKept w s f = elim (Bool-cases (q.verb == create_verb || q.verb == get_verb)) [
      | inl known ↦ rw (known, authorize) (known-IsKept w s f)
      | inr unknown ↦ rw (unknown, authorize) (f, λ r e. absurd (err-ne-ok e))
    ]
