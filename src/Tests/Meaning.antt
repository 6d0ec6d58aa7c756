-- ===== src/Tests/Meaning.antt =====
-- What the samples' label matchers let through, and which calls a request makes.
use opa_openshift.Base.{
  String, Bool, true, false, List, [], ◌∷◌, ◌≡◌, ◌↔◌, inl, inr, refl, arith, ok, ok_inj, All,
  All-map, All-In, Result, In, ◌==◌, ◌||◌, subst, sym, ap, String-cases,
}
use opa_openshift.Base.Text.{join, split, split-join, Lacks}
use opa_openshift.Openshift.Reviews.{
  client, client-laws, Trace, access_review, subject_access_review, list_namespaces, Listed, Review,
  reviewed, listed,
}
use opa_openshift.Response.{matched}
use opa_openshift.Authorizer.{Query}
use opa_openshift.Authorizer.Data.{new_data_response, new_matchers}
use opa_openshift.Authorizer.Data.Meaning.{IsName, Matching, all_name_chars}
use opa_openshift.Authorizer.Inner.{
  review_namespaces, respond, authorize_inner, authorize_reviewed, authorize_namespaces,
  authorize_listed,
}
use opa_openshift.Authorizer.Inner.Meaning.{IsRestricting, authorize_inner-IsRestricting}
use opa_openshift.Tests.Samples.{labels, cluster, ns_matcher, read_of}

abbrev member : String → List String → Bool
member x [] = false
member x (y ∷ ys) = y == x || member x ys

member-In : (x : String) (ys : List String) → (member x ys ≡ true) ↔ In x ys
member-In x [] = (λ e. absurd (cc), λ h. absurd h)
member-In x (y ∷ ys) = elim (String-cases y x) [
  | inl (same, t) ↦ (λ e. inl same, λ h. rw t refl)
  | inr (other, f) ↦ (
    λ e. inr ((member-In x ys).0 (rw f at e)),
    λ h. elim h [ inl same ↦ absurd (other same) | inr i ↦ rw f ((member-In x ys).1 i) ],
  )
]

bar_free : (s : String) → all_name_chars s ≡ true → Lacks b'|' s
bar_free String.[] h = tt
bar_free (String.◌∷◌ c s) h = (ground arith, bar_free s (ground arith))

bars_free : (n : String) → IsName n → Lacks b'|' n
bars_free n h = bar_free n h.1

-- The expression of a matcher is its alternatives between bars.
abbrev matching : Matching labels
matching = record {
  name = λ m. m.0;
  matches = λ m x. member x (split b'|' m.1);
  name-new_matcher = λ key value m e. sym (ap (λ (p : String × String). p.0) (ok_inj e));
  matches-new_matcher = λ key n ns m h e x.
      rw (sym (ok_inj e))
        (rw (split-join "|" n ns (All-map (λ k. bars_free k) (n ∷ ns) h)) (member-In x (n ∷ ns)));
}

two_names : All IsName ("team-a" ∷ "team-b" ∷ [])
two_names = (((λ e. cc), refl), (((λ e. cc), refl), tt))

-- asks for no namespace, so that the projects are listed
abbrev metadata_query : Query
metadata_query = record (read_of "jo" ("staff" ∷ "team" ∷ []) []) { metadata_only = true }

abbrev metadata_trace : Trace
metadata_trace = (authorize_inner labels (client cluster false) ns_matcher metadata_query []).1

listed_inj : {xs ys : List String} → listed (ok xs) ≡ listed (ok ys) → xs ≡ ys
listed_inj e = cc

not_reviewed :
    {r : Review} {b : Result Bool} {c : Result (List String)} → ¬ (reviewed r b ≡ listed c)
not_reviewed e = cc

Listed-names : (n : String) → Listed metadata_trace n → IsName n
unfolding authorize_inner authorize_reviewed access_review subject_access_review list_namespaces
    authorize_namespaces authorize_listed review_namespaces respond
Listed-names n (ns, inl e, i) = absurd (not_reviewed e)
Listed-names n (ns, inr (inl e), i) =
    All-In IsName ns n (subst (All IsName) (listed_inj e) two_names) i
Listed-names n (ns, inr (inr (inl e)), i) = absurd (not_reviewed e)
Listed-names n (ns, inr (inr (inr (inl e))), i) = absurd (not_reviewed e)
Listed-names n (ns, inr (inr (inr (inr h))), i) = absurd h

decided_metadata :
    (authorize_inner labels (client cluster false) ns_matcher metadata_query []).0
    ≡ ok (matched "true" "kubernetes_namespace_name=~team-a;or")
unfolding authorize_inner authorize_reviewed access_review subject_access_review list_namespaces
    authorize_namespaces authorize_listed review_namespaces respond new_data_response new_matchers
    join
decided_metadata = refl

authorize_inner-IsRestricting_example :
    IsRestricting labels matching
      (client cluster false)
      (client-laws cluster false)
      ns_matcher
      metadata_query
      tt
      metadata_trace
      "kubernetes_namespace_name=~team-a;or"
authorize_inner-IsRestricting_example =
    authorize_inner-IsRestricting labels matching (client cluster false) (client-laws cluster false)
      ns_matcher metadata_query tt [] "kubernetes_namespace_name=~team-a;or" Listed-names
      decided_metadata
