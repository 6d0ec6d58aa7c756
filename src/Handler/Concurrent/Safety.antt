-- ===== src/Handler/Concurrent/Safety.antt =====
-- What internal/handler/handler.go answers to requests that are handled at the same time.
use opa_openshift.Base.{
  ℕ, true, String, List, [], ◌∷◌, ◌++◌, ◌≡◌, ◌⊎◌, inl, inr, refl, sym, subst, ap, ◌∙◌, Result, ok,
  err, Result-cases, Option-cases, error_text, In-append_right, ◌=?◌, arith,
}
use opa_openshift.Base.Interleaving.{
  update, System, Reach, Invariant, IsSoundSystem, Reach-IsSoundSystem,
}
use opa_openshift.Response.{DataResponse}
use opa_openshift.Cache.{CacherLaws}
use opa_openshift.Openshift.Reviews.{Trace}
use opa_openshift.Authorizer.Cached.Keyed.{key_of, IsKept}
use opa_openshift.Authorizer.Concurrent.{
  Phase, waiting, missed, decided, finished, Move, refuse, fault, hit, miss, fail, decide, store,
}
use opa_openshift.Authorizer.Concurrent.Safety.{IsSound, Decided, Move-IsSound}
use opa_openshift.Handler.{
  HttpRequest, Action, http_error, write, write_failed, pass, Setting, Prepared, prepare, reply,
  error_reply,
}
use opa_openshift.Handler.Concurrent as Http
use opa_openshift.Handler.Concurrent.{
  asking, task_of, HttpPhase, received, authorizing, replied, HttpMove, accept, proceed, answer,
  calls_of, Shared, RequestMove, IsCacheLoss, IsFresh,
}
use opa_openshift.Handler.Concurrent.Reviewed.{
  IsReviewed, own-IsReviewed, IsGrowth, IsReviewed-later, update-IsGrowth,
}
use opa_openshift.Handler.Concurrent.Granted.{IsWithin}

module _ {S : Type 0} (t : Setting S) where
  -- A reply that is one write is the write of a response's JSON.
  written_response :
      (res : DataResponse) (out : String)
      → reply t (ok res) ≡ write out ∷ []
      → t.codec.marshal res ≡ ok out
  unfolding reply
  written_response res out e = elim (Result-cases (t.codec.marshal res)) [
    | inr (x, failed) ↦
        let other : http_error (error_text x) 500 ∷ [] ≡ write out ∷ [] =
          subst (λ a. a ≡ write out ∷ []) (rw (failed, reply)) e in
        absurd (cc)
    | inl (json, marshalled) ↦ elim (Option-cases (t.write json)) [
      | inl fine ↦
          let same : write json ∷ [] ≡ write out ∷ [] =
            subst (λ a. a ≡ write out ∷ []) (rw (marshalled, fine, reply)) e in
          marshalled ∙ ap ok (cc)
      | inr (x, failed) ↦
          let other : write_failed json ∷ error_reply t x ∷ [] ≡ write out ∷ [] =
            subst (λ a. a ≡ write out ∷ []) (rw (marshalled, failed, reply)) e in
          absurd (cc)
    ]
  ]

  module _ (laws : CacherLaws t.cache) (requests : ℕ → HttpRequest) where
    -- A reply is an error, or that of a response which was reviewed under the request's own key.
    abbrev IsRightReply : (ℕ → Trace) → HttpRequest → List Action → Type 0
    IsRightReply answered r actions =
        ((text : String) × (code : ℕ) × (actions ≡ http_error text code ∷ []))
        ⊎ ((p : Prepared t) × (res : DataResponse) × (prepare t r ≡ pass p)
            × IsReviewed t requests answered (key_of t.sha256_hex p.query p.matcher) res
            × (actions ≡ reply t (ok res)))

    abbrev IsSoundCall : (ℕ → Trace) → Prepared t → Phase → Type 0
    IsSoundCall answered p ph =
        IsSound (asking p.connection.ssar) t.sha256_hex t.labels laws
          (IsReviewed t requests answered) (task_of t p) ph

    abbrev IsSoundPhase : (ℕ → Trace) → ℕ → HttpPhase t → Type 0
    IsSoundPhase answered i received = Unit
    IsSoundPhase answered i (authorizing p ph) =
        (prepare t (requests i) ≡ pass p) × IsSoundCall answered p ph
    IsSoundPhase answered i (replied actions) = IsRightReply answered (requests i) actions

    abbrev IsKeptCache : (ℕ → Trace) → S → Type 0
    IsKeptCache answered = IsKept Trace t.sha256_hex t.labels laws (IsReviewed t requests answered)

    module _ (old new : ℕ → Trace) (more : IsGrowth t requests old new) where
      IsSoundCall-later :
          (p : Prepared t) (ph : Phase) → IsSoundCall old p ph → IsSoundCall new p ph
      IsSoundCall-later p waiting h = tt
      IsSoundCall-later p missed h = tt
      IsSoundCall-later p (decided r) h = IsReviewed-later t requests old new _ r more h
      IsSoundCall-later p (finished (ok r)) h = IsReviewed-later t requests old new _ r more h
      IsSoundCall-later p (finished (err e)) h = tt

      IsSoundPhase-later :
          (i : ℕ) (ph : HttpPhase t) → IsSoundPhase old i ph → IsSoundPhase new i ph
      IsSoundPhase-later i received h = tt
      IsSoundPhase-later i (authorizing p ph) (passed, h) = (passed, IsSoundCall-later p ph h)
      IsSoundPhase-later i (replied actions) (inl failed) = inl failed
      IsSoundPhase-later i (replied actions) (inr (p, res, passed, h, e)) =
          inr (p, res, passed, IsReviewed-later t requests old new _ res more h, e)

    reply-IsRightReply :
        (answered : ℕ → Trace) (i : ℕ) (p : Prepared t) (res : Result DataResponse)
        → prepare t (requests i) ≡ pass p
        → IsSoundCall answered p (finished res)
        → IsRightReply answered (requests i) (reply t res)
    unfolding reply
    reply-IsRightReply answered i p (ok res) passed h = inr (p, res, passed, h, refl)
    reply-IsRightReply answered i p (err e) passed h = inl (_, _, refl)

    -- The calls of a step of the authorizer are logged.
    step-Decided :
        (answered : ℕ → Trace) (i : ℕ) (p : Prepared t) {s s' : S} {ph ph' : Phase}
        → prepare t (requests i) ≡ pass p
        → (move : Move
            (asking p.connection.ssar)
            t.sha256_hex
            t.labels
            t.cache
            (task_of t p)
            s
            ph
            s'
            ph')
        → IsWithin (calls_of t {r = requests i} (proceed p move)) (answered i)
        → Decided
            (asking p.connection.ssar)
            t.sha256_hex
            t.labels
            laws
            (IsReviewed t requests answered)
            move
    step-Decided answered i p passed (refuse unknown) within = tt
    step-Decided answered i p passed (fault e known failed) within = tt
    step-Decided answered i p passed (hit r known found) within = tt
    step-Decided answered i p passed (miss known nothing) within = tt
    step-Decided answered i p passed (fail c e failed) within = tt
    step-Decided answered i p passed (decide c r made) within =
        own-IsReviewed t requests answered i p passed c r made within
    step-Decided answered i p passed (store r) within = tt

    HttpMove-IsSoundPhase :
        (answered : ℕ → Trace) (i : ℕ) {s s' : S} {ph ph' : HttpPhase t}
        → (move : HttpMove t (requests i) s ph s' ph') → IsWithin (calls_of t move) (answered i)
        → IsKeptCache answered s
        → IsSoundPhase answered i ph
        → IsKeptCache answered s' × IsSoundPhase answered i ph'
    HttpMove-IsSoundPhase answered i (Http.refuse text code stopped) within f h =
        (f, inl (text, code, refl))
    HttpMove-IsSoundPhase answered i (accept p passed) within f h = (f, (passed, tt))
    HttpMove-IsSoundPhase answered i (proceed p move) within f (passed, h) =
        let (g, k) =
          Move-IsSound (asking p.connection.ssar) t.sha256_hex t.labels laws
            (IsReviewed t requests answered) move (step-Decided answered i p passed move within) f
            h in
        (g, (passed, k))
    HttpMove-IsSoundPhase answered i (answer p res) within f (passed, h) =
        (f, reply-IsRightReply answered i p res passed h)

    RequestMove-IsGrowth :
        (i : ℕ) {x x' : Shared t} {ph ph' : HttpPhase t}
        → RequestMove t laws requests i x ph x' ph'
        → IsGrowth t requests x.answered x'.answered
    RequestMove-IsGrowth i {x} m =
        subst (IsGrowth t requests x.answered) (sym m.logged)
          (update-IsGrowth t requests x.answered i (calls_of t m.move))

    own_calls :
        (old : ℕ → Trace) (i : ℕ) (calls : Trace) → IsWithin calls (update old i (old i ++ calls) i)
    own_calls old i calls c h =
        let itself : (i =? i) ≡ true = ground arith in rw itself (In-append_right c (old i) calls h)

    RequestMove-IsSoundPhase :
        (i : ℕ) {x x' : Shared t} {ph ph' : HttpPhase t}
        → RequestMove t laws requests i x ph x' ph'
        → IsKeptCache x.answered x.cache
        → IsSoundPhase x.answered i ph
        → IsKeptCache x'.answered x'.cache × IsSoundPhase x'.answered i ph'
    RequestMove-IsSoundPhase i {x} {x'} {ph} m f h =
        let more = RequestMove-IsGrowth i m in
        HttpMove-IsSoundPhase x'.answered i m.move
          (subst (λ log. IsWithin (calls_of t m.move) (log i)) (sym m.logged)
            (own_calls x.answered i (calls_of t m.move)))
          (λ k r held. IsReviewed-later t requests x.answered x'.answered k r more (f k r held))
          (IsSoundPhase-later x.answered x'.answered more i ph h)

    abbrev replies : Invariant (RequestMove t laws requests) (IsCacheLoss t laws requests)
    replies = record {
      Kept = λ x. IsKeptCache x.answered x.cache;
      Sound = λ x. IsSoundPhase x.answered;
      move_keeps = RequestMove-IsSoundPhase;
      move_spares = λ i j {s} {s'} {p} {p'} {q} move h.
          IsSoundPhase-later s.answered s'.answered (RequestMove-IsGrowth i move) j q h;
      lose_keeps = λ {s} {s'} (lost, same) h.
          subst (λ log. IsKeptCache log s'.cache) (sym same) (λ k r held. h k r (lost k r held));
      lose_spares =
          λ j {s} {s'} {q} (lost, same) h. subst (λ log. IsSoundPhase log j q) (sym same) h;
    }

    IsFresh-IsSoundSystem :
        (y : System (Shared t) (HttpPhase t))
        → IsFresh t laws requests y
        → IsSoundSystem (RequestMove t laws requests) (IsCacheLoss t laws requests) replies y
    IsFresh-IsSoundSystem y (empty, quiet, fresh) = record {
      kept = λ k r held. absurd (empty k r held);
      sound = λ i. subst (IsSoundPhase y.shared.answered i) (sym (fresh i)) tt;
    }

    -- However the requests to a process that starts with an empty cache are interleaved, and
    -- whatever the cache loses on the way: an answer is the JSON of a response that was decided
    -- for this request or for another one that the process has got, that passed the service's
    -- checks and has the same cache key; and whatever that response grants, the API server has
    -- answered with yes, in this run, in the calls which were made for the request it was decided for.
    pub replied-IsReviewed :
        {y : System (Shared t) (HttpPhase t)}
        → Reach
            (RequestMove t laws requests)
            (IsCacheLoss t laws requests)
            (IsFresh t laws requests)
            y
        → (i : ℕ) (out : String) → y.phase i ≡ replied (write out ∷ [])
        → (p : Prepared t) × (res : DataResponse) × (prepare t (requests i) ≡ pass p)
          × (t.codec.marshal res ≡ ok out)
          × IsReviewed t requests y.shared.answered (key_of t.sha256_hex p.query p.matcher) res
    replied-IsReviewed {y} reached i out e =
        elim (subst (IsSoundPhase y.shared.answered i) e
          ((Reach-IsSoundSystem _ _ replies IsFresh-IsSoundSystem reached).sound i)) [
            | inl (text, code, error) ↦ absurd (cc)
            | inr (p, res, passed, reviewed, sent) ↦
                (p, res, passed, written_response res out (sym sent), reviewed)
          ]
