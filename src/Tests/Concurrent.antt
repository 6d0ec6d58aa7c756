-- ===== src/Tests/Concurrent.antt =====
-- Two requests that are handled at the same time on one cache.
use opa_openshift.Base.{◌++◌, ℕ, String, [], false, ◌≡◌, refl, ok}
use opa_openshift.Base.Text.{join}
use opa_openshift.Base.Sort.{sort, insert, str_leb}
use opa_openshift.Base.Assoc.{Assoc}
use opa_openshift.Base.Interleaving.{update, System, Step}
use opa_openshift.Openshift.Reviews.{Trace, client, access_review, subject_access_review}
use opa_openshift.Authorizer.Key.{hash_userinfo, generate_cache_key}
use opa_openshift.Authorizer.Data.{new_data_response, new_matchers}
use opa_openshift.Authorizer.Inner.{
  review_namespaces, respond, authorize_inner, authorize_reviewed, authorize_namespaces,
}
use opa_openshift.Authorizer.Concurrent.{
  Task, waiting, missed, decided, finished, task_key, task_query, miss, decide, store,
}
use opa_openshift.Handler.{HttpRequest, reply, handle}
use opa_openshift.Handler.Concurrent.Alone.{handle-HttpMoves, IsHandled, HttpMoves-IsHandled}
use opa_openshift.Handler.Concurrent.{
  HttpMoves, here, next, task_of, HttpPhase, received, authorizing, replied, accept, proceed,
  answer, RequestMove, Shared, IsCacheLoss,
}
use opa_openshift.Tests.Samples.{labels, hex, cluster, cache}
use opa_openshift.Tests.Service.{setting, laws, read_request}
use opa_openshift.Tests.Requests.{team_a, prepared, prepared_read, missed_read}

-- every request is the same
abbrev requests : ℕ → HttpRequest
requests i = read_request

abbrev read_task : Task
read_task = task_of setting prepared

abbrev key : String
key = task_key hex read_task

abbrev out : String
out = "Tkubernetes_namespace_name=~team-a;or"

abbrev State : Type 0
State = System (Shared setting) (HttpPhase setting)

-- One step of a request, with the cache after it and the calls that it made.
abbrev moved : State → Assoc String → ℕ → Trace → HttpPhase setting → State
moved y s i calls p = record {
  shared = record {
    cache = s;
    answered = update y.shared.answered i (y.shared.answered i ++ calls);
  };
  phase = update y.phase i p;
}

abbrev begun : State
begun = record { shared = record { cache = []; answered = λ i. [] }; phase = λ i. received }

abbrev calls : Trace
calls =
    (authorize_inner labels (client cluster false) prepared.matcher (task_query hex read_task) []).1

-- Both pass the checks and miss; then the first decides, stores and replies.
abbrev first_accepted : State
first_accepted = moved begun [] 0 [] (authorizing prepared waiting)

abbrev accepted : State
accepted = moved first_accepted [] 1 [] (authorizing prepared waiting)

abbrev first_missed : State
first_missed = moved accepted (cache.get [] key).1 0 [] (authorizing prepared missed)

abbrev both_missed : State
both_missed =
    moved first_missed (cache.get first_missed.shared.cache key).1 1 []
      (authorizing prepared missed)

abbrev first_decided : State
first_decided =
    moved both_missed both_missed.shared.cache 0 calls (authorizing prepared (decided team_a))

abbrev first_stored : State
first_stored =
    moved first_decided (cache.set first_decided.shared.cache key team_a).1 0 []
      (authorizing prepared (finished (ok team_a)))

abbrev first_replied : State
first_replied =
    moved first_stored first_stored.shared.cache 0 [] (replied (reply setting (ok team_a)))

decided_read :
    (authorize_inner labels (client cluster false) prepared.matcher (task_query hex read_task) []).0
    ≡ ok team_a
unfolding authorize_inner authorize_reviewed access_review subject_access_review
    authorize_namespaces review_namespaces respond new_data_response new_matchers join
    generate_cache_key hash_userinfo sort insert str_leb
decided_read = refl

abbrev OneStep : State → State → Type 0
OneStep = Step (RequestMove setting laws requests) (IsCacheLoss setting laws requests)

handle-HttpMoves_example :
    HttpMoves setting read_request [] received
      (handle setting read_request [] []).2
      (replied (handle setting read_request [] []).0)
handle-HttpMoves_example = handle-HttpMoves setting read_request []

-- One request alone.
read_moves :
    HttpMoves setting read_request [] received
      (cache.set (cache.get [] key).1 key team_a).1
      (replied (reply setting (ok team_a)))
read_moves = next (accept prepared prepared_read) (
    next (proceed prepared (miss refl missed_read)) (
      next (proceed prepared (decide cluster team_a decided_read))
        (next (proceed prepared (store team_a)) (next (answer prepared (ok team_a)) here))))

HttpMoves-IsHandled_example :
    IsHandled setting read_request []
      (cache.set (cache.get [] key).1 key team_a).1
      (reply setting (ok team_a))
HttpMoves-IsHandled_example =
    HttpMoves-IsHandled setting cluster read_request (reply setting (ok team_a)) read_moves
