-- ===== src/Handler/Concurrent/Granted.antt =====
-- What a response of internal/handler/handler.go grants, against the calls that the API server has
-- answered.
use opa_openshift.Base.{String, Bool, true, false, List, ◌≡◌, ◌⊎◌, inl, inr, ok, In, All, All-map}
use opa_openshift.Response.{DataResponse, bare}
use opa_openshift.Openshift.Reviews.{Trace, Call, Cluster, Granted, Listed, client, client-laws}
use opa_openshift.Config.Matcher.{Matcher}
use opa_openshift.Authorizer.{Query, access_in}
use opa_openshift.Authorizer.Data.{Labels, new_data_response}
use opa_openshift.Authorizer.Inner.Audit.{IsJustified, denied, cluster_wide, named}

-- All calls of the one trace are in the other.
abbrev pub IsWithin : Trace → Trace → Type 0
IsWithin t t' = (c : Call) → In c t → In c t'

Listed-later : (t t' : Trace) (n : String) → IsWithin t t' → Listed t n → Listed t' n
Listed-later t t' n more (ns, h, i) = (ns, more _ h, i)

module _ (labels : Labels) (ssar : Bool) (matcher : Matcher) (q : Query) where
  -- The API server has answered the access to the namespace with yes, and the request names the
  -- namespace or the server has listed it; or it has answered the access to all namespaces with
  -- yes, and has listed this one.
  abbrev pub IsAllowedIn : Trace → String → Type 0
  IsAllowedIn t n =
      (Granted ssar t (access_in q n) × (In n q.namespaces ⊎ Listed t n))
      ⊎ (Granted ssar t (access_in q "") × Listed t n)

  -- What the response grants has been answered with yes in these calls: everything, after a yes to
  -- the access to all namespaces; or the namespaces of a list, each of them allowed.
  pub data IsGrantedIn (t : Trace) (r : DataResponse) : Type 0 where
    nothing : r ≡ bare false → IsGrantedIn t r
    everything : r ≡ bare true → Granted ssar t (access_in q "") → IsGrantedIn t r
    namespaces :
        (ns : List String)
        → new_data_response labels ns matcher ≡ ok r
        → All (IsAllowedIn t) ns
        → IsGrantedIn t r

  module _ (t t' : Trace) (more : IsWithin t t') where
    IsAllowedIn-later : (n : String) → IsAllowedIn t n → IsAllowedIn t' n
    IsAllowedIn-later n (inl (g, inl asked)) = inl (more _ g, inl asked)
    IsAllowedIn-later n (inl (g, inr listed)) =
        inl (more _ g, inr (Listed-later t t' n more listed))
    IsAllowedIn-later n (inr (g, listed)) = inr (more _ g, Listed-later t t' n more listed)

    pub IsGrantedIn-later : (r : DataResponse) → IsGrantedIn t r → IsGrantedIn t' r
    IsGrantedIn-later r (nothing e) = nothing e
    IsGrantedIn-later r (everything e g) = everything e (more _ g)
    IsGrantedIn-later r (namespaces ns e h) = namespaces ns e (All-map IsAllowedIn-later ns h)

  module _ (cluster : Cluster) where
    pub IsJustified-IsGrantedIn :
        {t : Trace} {r : DataResponse}
        → IsJustified labels (client cluster ssar) (client-laws cluster ssar) matcher q t r
        → IsGrantedIn t r
    IsJustified-IsGrantedIn (denied e) = nothing e
    IsJustified-IsGrantedIn (cluster_wide e g) = everything e g
    IsJustified-IsGrantedIn (named ns e h) = namespaces ns e h
