-- ===== src/Authorizer/Data.antt =====
-- `minimalDataResponseV1` and `newDataResponseV1` of internal/authorizer/authorizer.go. Label
-- matchers are Prometheus's, a parameter.
pub mod Meaning
use opa_openshift.Base.{
  String, Bool, true, List, [], ◌∷◌, ◌&&◌, not, Result, ok, ◌>>=◌, context, if◌then◌else◌, is_nil,
}
use opa_openshift.Base.Text.{join}
use opa_openshift.Response.{DataResponse, bare, matched}
use opa_openshift.Config.Matcher.{Matcher, is_empty}

-- `AuthzResponseData`
pub record AuthzResponseData (L : Type 0) : Type 0 where
  pub matchers : List L
  pub matcher_op : String

-- What the authorizer uses of Prometheus's labels and of `json.Marshal`.
pub record Labels : Type 1 where
  pub LabelMatcher : Type 0
  -- `labels.NewMatcher(labels.MatchRegexp, name, value)`
  pub new_matcher : String → String → Result LabelMatcher
  pub marshal : AuthzResponseData LabelMatcher → Result String

unfoldable pub minimal_data_response : Bool → DataResponse
minimal_data_response allowed = bare allowed

module _ (labels : Labels) where
  -- the loop over `matcher.Keys`
  unfoldable pub new_matchers : String → List String → Result (List labels.LabelMatcher)
  new_matchers value [] = ok []
  new_matchers value (key ∷ keys) =
      context "failed to create new matcher" (labels.new_matcher key value) >>= λ lm.
      new_matchers value keys >>= λ lms. ok (lm ∷ lms)

  unfoldable pub new_data_response : List String → Matcher → Result DataResponse
  unfolding minimal_data_response
  new_data_response ns matcher =
      if is_empty matcher && not (is_nil ns) then ok (minimal_data_response true) else do
        matchers ← new_matchers (join "|" ns) matcher.keys
        json ←
            context "failed to marshal matcher to json"
              (labels.marshal (record { matchers = matchers; matcher_op = matcher.matcher_op }))
        ok (matched (if is_nil ns then "false" else "true") json)
