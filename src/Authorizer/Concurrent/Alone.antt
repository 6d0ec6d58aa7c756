-- ===== src/Authorizer/Concurrent/Alone.antt =====
-- The steps of a call that nothing else comes between, against `Authorize` as a whole: the steps
-- of internal/authorizer/authorizer.go are those that the function makes.
use opa_openshift.Base.{
  String, true, none, some, ◌≡◌, refl, sym, subst, Result, ok, Bool-cases, Result-cases, inl, inr,
}
use opa_openshift.Response.{DataResponse}
use opa_openshift.Openshift.{Client}
use opa_openshift.Cache.{Cacher}
use opa_openshift.Authorizer.Data.{Labels}
use opa_openshift.Authorizer.Inner.{authorize_inner}
use opa_openshift.Authorizer.Cached.{Authorizer, authorize_missed, authorize_known, authorize}
use opa_openshift.Authorizer.Concurrent.{
  Task, Phase, waiting, missed, decided, finished, known_verb, task_key, task_query, Move, refuse,
  fault, hit, miss, fail, decide, store, Moves, here, next,
}

module _ {C W S : Type 0} (backend : C → Client W × W) (sha256_hex : String → String)
    (labels : Labels) (cache : Cacher S) (t : Task) where
  abbrev pub for_client : C → Authorizer W S
  for_client c = record {
    sha256_hex = sha256_hex;
    labels = labels;
    client = (backend c).0;
    cache = cache;
    matcher = t.matcher;
  }

  missed-Moves :
      (c : C) (s : S)
      → let out =
          authorize_missed
            (for_client c)
            (task_key sha256_hex t)
            (task_query sha256_hex t)
            (backend c).1
            s in
        Moves backend sha256_hex labels cache t s missed out.2 (finished out.0)
  unfolding authorize_missed
  missed-Moves c s =
      elim (Result-cases
        (authorize_inner labels (backend c).0 t.matcher (task_query sha256_hex t)
          (backend c).1).0) [
            | inr (e, failed) ↦ rw (authorize_missed, failed) (next (fail c e failed) here)
            | inl (r, made) ↦
                rw (authorize_missed, made) (next (decide c r made) (next (store r) here))
          ]

  known-Moves :
      (c : C) (s : S)
      → known_verb t.query ≡ true
      → let out = authorize_known (for_client c) t.query (backend c).1 s in
        Moves backend sha256_hex labels cache t s waiting out.2 (finished out.0)
  unfolding authorize_known
  known-Moves c s known = elim (Result-cases (cache.get s (task_key sha256_hex t)).0) [
    | inr (e, failed) ↦ rw failed (next (fault e known failed) here)
    | inl (none, nothing) ↦ rw nothing (next (miss known nothing) (missed-Moves c _))
    | inl (some r, found) ↦ rw found (next (hit r known found) here)
  ]

  -- A call of `Authorize` is a run of these steps, from the lookup to the answer.
  pub authorize-Moves :
      (c : C) (s : S)
      → let out = authorize (for_client c) t.query (backend c).1 s in
        Moves backend sha256_hex labels cache t s waiting out.2 (finished out.0)
  unfolding authorize
  authorize-Moves c s = elim (Bool-cases (known_verb t.query)) [
    | inl known ↦ rw known (known-Moves c s known)
    | inr unknown ↦ rw unknown (next (refuse unknown) here)
  ]

  abbrev pub Gives : Result DataResponse × W × S → Result DataResponse → S → Type 0
  Gives out res s' = (out.0 ≡ res) × (out.2 ≡ s')

  -- What the rest of a run that ends in s' with the answer res comes to.
  abbrev pub Rest : S → Phase → S → Result DataResponse → Type 0
  Rest s waiting s' res = (c : C) × Gives (authorize (for_client c) t.query (backend c).1 s) res s'
  Rest s missed s' res =
      (c : C) × Gives
        (authorize_missed (for_client c) (task_key sha256_hex t) (task_query sha256_hex t)
          (backend c).1 s)
        res s'
  Rest s (decided r) s' res = (ok r ≡ res) × ((cache.set s (task_key sha256_hex t) r).1 ≡ s')
  Rest s (finished done) s' res = (done ≡ res) × (s ≡ s')

  module _ (default : C) where
    pub Move-Rest :
        {s s1 : S} {p p1 : Phase} (s' : S) (res : Result DataResponse)
        → Move backend sha256_hex labels cache t s p s1 p1
        → Rest s1 p1 s' res
        → Rest s p s' res
    unfolding authorize authorize_known authorize_missed
    Move-Rest s' res (refuse unknown) (same, kept) =
        (default, (rw (authorize, unknown) same, rw (authorize, unknown) kept))
    Move-Rest s' res (fault e known failed) (same, kept) = (
      default,
      (
        rw (authorize, known, authorize_known, failed) same,
        rw (authorize, known, authorize_known, failed) kept,
      ),
    )
    Move-Rest s' res (hit r known found) (same, kept) = (
      default,
      (
        rw (authorize, known, authorize_known, found) same,
        rw (authorize, known, authorize_known, found) kept,
      ),
    )
    Move-Rest s' res (miss known nothing) (c, (same, kept)) = (
      c,
      (
        rw (authorize, known, authorize_known, nothing) same,
        rw (authorize, known, authorize_known, nothing) kept,
      ),
    )
    Move-Rest s' res (fail c e failed) (same, kept) =
        (c, (rw (authorize_missed, failed) same, rw (authorize_missed, failed) kept))
    Move-Rest s' res (decide c r made) (same, kept) =
        (c, (rw (authorize_missed, made) same, rw (authorize_missed, made) kept))
    Move-Rest s' res (store r) (same, kept) = (same, kept)

    Moves-Rest :
        {s s' : S} {p p' : Phase} (res : Result DataResponse)
        → Moves backend sha256_hex labels cache t s p s' p'
        → p' ≡ finished res
        → Rest s p s' res
    Moves-Rest {s} res here e = subst (λ q. Rest s q s res) (sym e) (refl, refl)
    Moves-Rest res (next move moves) e = Move-Rest _ res move (Moves-Rest res moves e)

    -- A run from the lookup to the answer res, with nothing of another call in between, is a call
    -- of `Authorize` that returns res and leaves the cache as the run does.
    pub Moves-authorize :
        {s s' : S} (res : Result DataResponse)
        → Moves backend sha256_hex labels cache t s waiting s' (finished res)
        → (c : C) × (((authorize (for_client c) t.query (backend c).1 s).0 ≡ res)
            × ((authorize (for_client c) t.query (backend c).1 s).2 ≡ s'))
    Moves-authorize res moves = Moves-Rest res moves refl
