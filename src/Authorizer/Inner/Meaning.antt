-- ===== src/Authorizer/Inner/Meaning.antt =====
-- What a user can read with the label matchers that internal/authorizer/authorizer.go answers.
use opa_openshift.Base.{String, true, List, ◌≡◌, inl, inr, ok, All, All-map, All-In, map}
use opa_openshift.Response.{matched}
use opa_openshift.Openshift.{Client, ClientLaws}
use opa_openshift.Config.Matcher.{Matcher}
use opa_openshift.Authorizer.{Query}
use opa_openshift.Authorizer.Data.{Labels}
use opa_openshift.Authorizer.Data.Meaning.{IsName, Matching, IsDataFor, new_data_response-IsDataFor}
use opa_openshift.Authorizer.Inner.{authorize_inner}
use opa_openshift.Authorizer.Inner.Audit.{
  IsPermitted, IsJustified, denied, cluster_wide, named, authorize_inner-IsJustified,
}

module _ (labels : Labels) (matching : Matching labels) {W : Type 0} (client : Client W)
    (laws : ClientLaws client) (matcher : Matcher) (q : Query)
    (query_names : All IsName q.namespaces) where
  open matching use {name, matches}

  -- Every namespace that was listed so far has the form of a name.
  abbrev pub IsListedName : W → Type 0
  IsListedName w = (n : String) → laws.Listed w n → IsName n

  permitted-IsName :
      (w : W) (n : String)
      → IsListedName w
      → IsPermitted labels client laws matcher q w n
      → IsName n
  permitted-IsName w n listed_names (inl (g, inl i)) = All-In IsName q.namespaces n query_names i
  permitted-IsName w n listed_names (inl (g, inr l)) = listed_names n l
  permitted-IsName w n listed_names (inr (g, l)) = listed_names n l

  -- A response that allows with data holds a matcher for each key, and each lets a namespace
  -- through only if it is permitted.
  pub record IsRestricting (w : W) (d : String) : Type 0 where
    pub matchers : List labels.LabelMatcher
    pub written :
        labels.marshal (record { matchers = matchers; matcher_op = matcher.matcher_op }) ≡ ok d
    pub names : map name matchers ≡ matcher.keys
    pub permitted :
        All
          (λ m. (x : String) → matches m x ≡ true → IsPermitted labels client laws matcher q w x)
          matchers

  IsRestricting-of_data :
      (w : W) (ns : List String) (d : String)
      → All (IsPermitted labels client laws matcher q w) ns
      → IsDataFor labels matching matcher ns d
      → IsRestricting w d
  IsRestricting-of_data w ns d h data_for = record {
    matchers = data_for.matchers;
    written = data_for.written;
    names = data_for.names;
    permitted =
        All-map
          (λ m exact x t.
            All-In (IsPermitted labels client laws matcher q w) ns x h ((exact x).0 t))
          data_for.matchers data_for.exact;
  }

  IsRestricting-of_justified :
      (w : W) (d : String)
      → IsListedName w
      → IsJustified labels client laws matcher q w (matched "true" d)
      → IsRestricting w d
  IsRestricting-of_justified w d listed_names (denied e) = absurd (cc)
  IsRestricting-of_justified w d listed_names (cluster_wide e g) = absurd (cc)
  IsRestricting-of_justified w d listed_names (named ns e h) =
      elim (new_data_response-IsDataFor labels matching matcher ns "true" d
        (All-map (λ n. permitted-IsName w n listed_names) ns h) e) [
          | inl (never, none_left) ↦ absurd (cc)
          | inr (_, data_for) ↦ IsRestricting-of_data w ns d h data_for
        ]

  -- If the listed projects and the namespaces that the request names have the form of names, a
  -- decision that allows a read with data lets the user read only what the cluster has permitted:
  -- the data holds one matcher for each key, and each matches a text only if it is a namespace whose
  -- own review was positive, or that was listed while the cluster-wide review was positive.
  pub authorize_inner-IsRestricting :
      (w : W) (d : String)
      → IsListedName (authorize_inner labels client matcher q w).1
      → (authorize_inner labels client matcher q w).0 ≡ ok (matched "true" d)
      → IsRestricting (authorize_inner labels client matcher q w).1 d
  authorize_inner-IsRestricting w d listed_names e =
      IsRestricting-of_justified (authorize_inner labels client matcher q w).1 d listed_names
        (authorize_inner-IsJustified labels client laws matcher q w (matched "true" d) e)
