-- ===== src/Handler/Matching.antt =====
-- Who is answered without a label matcher by internal/handler/handler.go.
use opa_openshift.Base.{
  String, true, [], ◌≡◌, ◌≢◌, inl, inr, sym, subst, ap, ◌∙◌, nil_of_is_nil, Result, ok,
}
use opa_openshift.Config.Flags.{RawFlags, returned, parse_flags}
use opa_openshift.Config.Flags.Checks.{parse_flags-IsChecked}
use opa_openshift.Config.Matcher.{Matcher, to_matcher, is_empty, viaq_to_otel_migration}
use opa_openshift.Config.Matcher.Request.{IsExempt, for_request-IsExempt, IsExempt-of_empty}
use opa_openshift.Config.Matcher.Migration.{migration-ne-nil}
use opa_openshift.Handler.{HttpRequest, Input, pass, Setting, Prepared, request_matcher, prepare}
use opa_openshift.Handler.Checks.{IsChecked, prepare-IsChecked}

module _ {S : Type 0} (t : Setting S) where
  abbrev configured : Matcher
  configured = to_matcher t.config.opa

  -- Unless the request is exempt, its matcher is the configured one, and has a key left after the
  -- migration.
  matcher_kept :
      (quote : String → String) (hidden : Result (Unit {0})) (raw : RawFlags) (forwarded : String)
      (input : Input) (p : Prepared t)
      → parse_flags quote hidden raw ≡ returned (ok t.config)
      → IsChecked t forwarded input p
      → configured.keys ≢ []
      → ¬ IsExempt configured input.tenant input.groups
      → p.matcher.keys ≢ []
  matcher_kept quote hidden raw forwarded input p parsed checked keys exempt nil =
      let whole = (for_request-IsExempt configured input.tenant input.groups).1 exempt in
      elim checked.matcher [
        | inl (off, same) ↦ keys (ap (λ (m : Matcher). m.keys) (sym (same ∙ whole)) ∙ nil)
        | inr (on, _, same) ↦
            let names = (parse_flags-IsChecked quote hidden raw t.config parsed).viaq on in
            migration-ne-nil t.config.opa input.extras.selectors names.0 names.1 keys (
              subst (λ m. (viaq_to_otel_migration m input.extras.selectors).keys ≡ []) whole
                (ap (λ (m : Matcher). m.keys) (sym same) ∙ nil))
      ]

  no_wildcard :
      (input : Input)
      → configured.keys ≢ []
      → ¬ IsExempt configured input.tenant input.groups
      → ¬ (is_empty (request_matcher t input) ≡ true)
  no_wildcard input keys exempt empty =
      elim (IsExempt-of_empty configured input.tenant input.groups (nil_of_is_nil _ empty)) [
        | inl none_left ↦ keys none_left
        | inr ex ↦ exempt ex
      ]

  -- With a configuration that comes from the flags and has matcher keys, a request whose tenant is
  -- not to be skipped and whose groups are no admin groups comes to the authorizer with a matcher
  -- that has a key, whatever its selectors are; and it comes there only without wildcards.
  pub prepare-matcher :
      (quote : String → String) (hidden : Result (Unit {0})) (raw : RawFlags) (r : HttpRequest)
      (p : Prepared t)
      → parse_flags quote hidden raw ≡ returned (ok t.config)
      → prepare t r ≡ pass p
      → configured.keys ≢ []
      → (body : String) × (input : Input) × (r.body ≡ ok body)
        × (t.unmarshal body ≡ ok input)
        × (¬ IsExempt configured input.tenant input.groups
            → (p.matcher.keys ≢ []) × (input.extras.wildcard_selectors ≢ true))
  prepare-matcher quote hidden raw r p parsed prepared keys =
      let (post, body, input, read, decoded, checked) = prepare-IsChecked t r p prepared in
      (
        body,
        input,
        read,
        decoded,
        λ exempt. (
          matcher_kept quote hidden raw r.forwarded_access_token input p parsed checked keys exempt,
          λ wild. no_wildcard input keys exempt (checked.wildcard wild),
        ),
      )
