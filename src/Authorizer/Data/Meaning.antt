-- ===== src/Authorizer/Data/Meaning.antt =====
-- What the label matchers in a response of internal/authorizer/authorizer.go let through.
use opa_openshift.Base.{
  ℕ, String, Bool, true, List, [], ◌∷◌, map, ◌≡◌, ◌≢◌, ◌↔◌, ◌⊎◌, inl, inr, refl, ap, ◌∙◌, ◌&&◌, not,
  Result, ok, context, >>=-eq-ok, context-eq-ok, ok_inj, if◌then◌else◌, is_nil, All, In, subst,
  Bool-cases, leb, ◌=?◌, ◌||◌, code,
}
use opa_openshift.Base.Text.{join}
use opa_openshift.Response.{DataResponse, bare, matched}
use opa_openshift.Config.Matcher.{Matcher, is_empty}
use opa_openshift.Authorizer.Data.{
  Labels, AuthzResponseData, minimal_data_response, new_matchers, new_data_response,
}

-- a letter, a digit or a dash: no other character stands in the name of a namespace
abbrev pub is_name_char : ℕ → Bool
is_name_char c = (leb b'a' c && leb c b'z') || (leb b'0' c && leb c b'9') || c =? b'-'

abbrev pub all_name_chars : String → Bool
all_name_chars String.[] = true
all_name_chars (String.◌∷◌ c s) = is_name_char (code c) && all_name_chars s

-- The form of a namespace's name, a DNS label. No character of it means anything in a regular
-- expression.
abbrev pub IsName : String → Type 0
IsName s = (s ≢ "") × (all_name_chars s ≡ true)

-- Prometheus's matchers of the kind `MatchRegexp`: the whole label value has to match, so that
-- names joined by bars are an alternation.
pub record Matching (labels : Labels) : Type 0 where
  pub name : labels.LabelMatcher → String
  pub matches : labels.LabelMatcher → String → Bool
  pub name-new_matcher :
      (key value : String) (m : labels.LabelMatcher)
      → labels.new_matcher key value ≡ ok m
      → name m ≡ key
  pub matches-new_matcher :
      (key n : String) (ns : List String) (m : labels.LabelMatcher)
      → All IsName (n ∷ ns)
      → labels.new_matcher key (join "|" (n ∷ ns)) ≡ ok m
      → (x : String) → (matches m x ≡ true) ↔ In x (n ∷ ns)

bare-ne-matched :
    {b : Bool} {a d : String}
    → (let r : Result DataResponse = ok (bare b) in r) ≡ ok (matched a d)
    → ⊥
bare-ne-matched e = cc

matched_data :
    {a b d c : String}
    → (let r : Result DataResponse = ok (matched b c) in r) ≡ ok (matched a d)
    → c ≡ d
matched_data e = cc

matched_allowed :
    {a b d c : String}
    → (let r : Result DataResponse = ok (matched b c) in r) ≡ ok (matched a d)
    → a ≡ b
matched_allowed e = cc

module _ (labels : Labels) (matching : Matching labels) where
  open matching use {name, matches}

  -- The data of a response: a matcher for each key, in the order of the keys, and each lets
  -- through exactly the namespaces.
  pub record IsDataFor (matcher : Matcher) (ns : List String) (d : String) : Type 0 where
    pub matchers : List labels.LabelMatcher
    pub written :
        labels.marshal (record { matchers = matchers; matcher_op = matcher.matcher_op }) ≡ ok d
    pub names : map name matchers ≡ matcher.keys
    pub exact : All (λ m. (x : String) → (matches m x ≡ true) ↔ In x ns) matchers

  new_matchers-exact :
      (n : String) (ns keys : List String) (ms : List labels.LabelMatcher)
      → All IsName (n ∷ ns)
      → new_matchers labels (join "|" (n ∷ ns)) keys ≡ ok ms
      → (map name ms ≡ keys) × All (λ m. (x : String) → (matches m x ≡ true) ↔ In x (n ∷ ns)) ms
  unfolding new_matchers
  new_matchers-exact n ns [] ms h e =
      subst
        (λ l. (map name l ≡ []) × All (λ m. (x : String) → (matches m x ≡ true) ↔ In x (n ∷ ns)) l)
        (ok_inj e) (refl, tt)
  new_matchers-exact n ns (k ∷ ks) ms h e =
      let (m, made, e1) =
        >>=-eq-ok
          (context "failed to create new matcher" (labels.new_matcher k (join "|" (n ∷ ns)))) _ e in
      let (rest, more, e2) = >>=-eq-ok (new_matchers labels (join "|" (n ∷ ns)) ks) _ e1 in
      let (names, exact) = new_matchers-exact n ns ks rest h more in
      let made' = (context-eq-ok _ _ m).0 made in
      subst
        (λ l.
          (map name l ≡ k ∷ ks) × All (λ m. (x : String) → (matches m x ≡ true) ↔ In x (n ∷ ns)) l)
        (ok_inj e2)
        (
          ap (λ j. j ∷ map name rest) (matching.name-new_matcher k _ m made') ∙ ap (◌∷◌ k) names,
          (matching.matches-new_matcher k n ns m h made', exact),
        )

  -- What a response with data is put together from.
  data_parts :
      (matcher : Matcher) (ns : List String) (a d : String)
      → new_data_response labels ns matcher ≡ ok (matched a d)
      → (ms : List labels.LabelMatcher) × (new_matchers labels (join "|" ns) matcher.keys ≡ ok ms)
        × (labels.marshal (record { matchers = ms; matcher_op = matcher.matcher_op }) ≡ ok d)
        × (a ≡ (if is_nil ns then "false" else "true"))
  unfolding new_data_response minimal_data_response
  data_parts matcher ns a d e = elim (Bool-cases (is_empty matcher && not (is_nil ns))) [
    | inl allowed ↦ absurd (bare-ne-matched (rw (allowed, new_data_response) at e))
    | inr needed ↦
        let (ms, made, e1) =
          >>=-eq-ok (new_matchers labels (join "|" ns) matcher.keys) _
            (rw (needed, new_data_response) at e) in
        let content : AuthzResponseData labels.LabelMatcher = record {
          matchers = ms;
          matcher_op = matcher.matcher_op;
        } in
        let (json, written, e2) =
          >>=-eq-ok (context "failed to marshal matcher to json" (labels.marshal content)) _ e1 in
        (ms, made, (context-eq-ok _ _ json).0 written ∙ ap ok (matched_data e2), matched_allowed e2)
  ]

  pub new_data_response-IsDataFor :
      (matcher : Matcher) (ns : List String) (a d : String)
      → All IsName ns
      → new_data_response labels ns matcher ≡ ok (matched a d)
      → ((a ≡ "false") × (ns ≡ [])) ⊎ ((a ≡ "true") × IsDataFor matcher ns d)
  new_data_response-IsDataFor matcher [] a d h e =
      let (ms, made, written, allowed) = data_parts matcher [] a d e in inl (allowed, refl)
  new_data_response-IsDataFor matcher (n ∷ ns) a d h e =
      let (ms, made, written, allowed) = data_parts matcher (n ∷ ns) a d e in
      let (names, exact) = new_matchers-exact n ns matcher.keys ms h made in
      inr (allowed, record { matchers = ms; written = written; names = names; exact = exact })
