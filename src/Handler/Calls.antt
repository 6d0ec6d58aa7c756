-- ===== src/Handler/Calls.antt =====
-- Which calls to the API server one HTTP request to internal/handler/handler.go causes.
use opa_openshift.Base.{◌+◌, some, length}
use opa_openshift.Openshift.Reviews.{Trace}
use opa_openshift.Authorizer.{Query}
use opa_openshift.Authorizer.Key.{generate_cache_key}
use opa_openshift.Authorizer.Inner.Calls.{IsMade, reviewed_names}
use opa_openshift.Authorizer.Cached.{Authorizer}
use opa_openshift.Handler.{Setting, Prepared}

module _ {S : Type 0} (t : Setting S) where
  -- The query of a request as the decision gets it, with its groups sorted.
  abbrev pub decided_query : Prepared t → Query
  decided_query p = (generate_cache_key t.sha256_hex p.query (some p.matcher)).1

  -- What was called between two states is one decision for the prepared request.
  abbrev pub IsCalledFor : Prepared t → Trace → Trace → Type 0
  IsCalledFor p w w' =
      let cluster = t.cluster p.connection in
      let ssar = p.connection.ssar in
      let names = reviewed_names cluster ssar (decided_query p) t.labels p.matcher w in
      IsMade cluster ssar (decided_query p) (2 + length names) w w'
