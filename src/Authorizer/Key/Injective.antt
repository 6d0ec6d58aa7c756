-- ===== src/Authorizer/Key/Injective.antt =====
-- What two queries have in common if internal/authorizer/cache.go gives them the same key.
use opa_openshift.Base.{
  String, Bool, true, false, Option, none, some, List, [], ◌∷◌, ◌++◌, ◌≡◌, ◌≢◌, refl, ap, sym, ◌∙◌,
  arith, ◌<>◌, All, Bool-cases, inl, inr, is_nil,
}
use text.Mathlib.TextLemmas.{append-eq-nil_iff}
use opa_openshift.Base.Text.{
  split, join, Lacks, split-append, split-join, split_of_Lacks, join-split, Lacks-append,
  Lacks-join,
}
use opa_openshift.Base.Sort.{sort}
use opa_openshift.Config.Matcher.{Matcher}
use opa_openshift.Authorizer.{Query}
use opa_openshift.Authorizer.Key.{
  concat, show_bool, hash_userinfo, hash_matcher, generate_cache_key,
}

-- Texts without a comma, as the fields of a key are if no name holds one.
abbrev NoComma : String → Type 0
NoComma = Lacks b','

abbrev NoColon : String → Type 0
NoColon = Lacks b':'

join_inj :
    (xs ys : List String)
    → All NoComma xs
    → All NoComma ys
    → xs ≢ []
    → ys ≢ []
    → join "," xs ≡ join "," ys
    → xs ≡ ys
join_inj [] ys hx hy nx ny e = absurd (nx refl)
join_inj (x ∷ xs) [] hx hy nx ny e = absurd (ny refl)
join_inj (x ∷ xs) (y ∷ ys) hx hy nx ny e =
    sym (split-join "," x xs hx) ∙ ap (split b',') e ∙ split-join "," y ys hy

snoc_inj : (xs ys : List String) (x y : String) → xs ++ x ∷ [] ≡ ys ++ y ∷ [] → (xs ≡ ys) × (x ≡ y)
snoc_inj [] [] x y e = (refl, cc)
snoc_inj [] (b ∷ []) x y e = absurd (cc)
snoc_inj [] (b ∷ c ∷ ys) x y e = absurd (cc)
snoc_inj (a ∷ []) [] x y e = absurd (cc)
snoc_inj (a ∷ c ∷ xs) [] x y e = absurd (cc)
snoc_inj (a ∷ xs) (b ∷ ys) x y e =
    let (same, last) = snoc_inj xs ys x y (ground arith) in (ground arith, last)

user_parts : (u h : String) → NoColon h → split b':' (u <> ":" <> h) ≡ split b':' u ++ h ∷ []
user_parts u h n = split-append ":" u h ∙ ap (◌++◌ (split b':' u)) (split_of_Lacks b':' h n)

-- A name and a hexadecimal sum, joined by a colon, are told apart whatever the name is.
user_hash_inj :
    (u v h k : String) → NoColon h → NoColon k → u <> ":" <> h ≡ v <> ":" <> k → (u ≡ v) × (h ≡ k)
user_hash_inj u v h k nh nk e =
    let parts : split b':' u ++ h ∷ [] ≡ split b':' v ++ k ∷ [] =
      sym (user_parts u h nh) ∙ ap (split b':') e ∙ user_parts v k nk in
    let (same, last) = snoc_inj (split b':' u) (split b':' v) h k parts in
    (sym (join-split ":" u) ∙ ap (join ":") same ∙ join-split ":" v, last)

abbrev NonEmpty : String → Type 0
NonEmpty s = s ≢ ""

namespaces_inj :
    (xs ys : List String)
    → All NoColon xs
    → All NoColon ys
    → All NonEmpty xs
    → All NonEmpty ys
    → join ":" xs ≡ join ":" ys
    → xs ≡ ys
unfolding join
namespaces_inj [] [] hx hy nx ny e = refl
namespaces_inj [] (y ∷ []) hx hy nx ny e = absurd (ny.0 (sym e))
namespaces_inj [] (y ∷ z ∷ ys) hx hy nx ny e = absurd (ny.0 ((append-eq-nil_iff.0 (sym e)).0))
namespaces_inj (x ∷ []) [] hx hy nx ny e = absurd (nx.0 e)
namespaces_inj (x ∷ z ∷ xs) [] hx hy nx ny e = absurd (nx.0 ((append-eq-nil_iff.0 e).0))
namespaces_inj (x ∷ xs) (y ∷ ys) hx hy nx ny e =
    sym (split-join ":" x xs hx) ∙ ap (split b':') e ∙ split-join ":" y ys hy

-- No name in the query holds the characters that the key is put together with: no comma, and in a
-- namespace no colon either. The user may hold colons, as "kube:admin" does.
pub record IsPlain (q : Query) : Type 0 where
  pub verb : NoComma q.verb
  pub api_group : NoComma q.api_group
  pub resource_name : NoComma q.resource_name
  pub resource : NoComma q.resource
  pub user : NoComma q.user
  pub namespaces : All NoComma q.namespaces
  pub namespaces_colon : All NoColon q.namespaces
  pub namespaces_nil : All NonEmpty q.namespaces

-- What is hashed for a query's owner.
abbrev pub digest_input : Query → String
digest_input q = concat (q.token ∷ q.user ∷ sort q.groups)

-- What two queries with one key agree in.
pub record Agree (q p : Query) : Type 0 where
  pub verb : q.verb ≡ p.verb
  pub metadata_only : q.metadata_only ≡ p.metadata_only
  pub api_group : q.api_group ≡ p.api_group
  pub resource_name : q.resource_name ≡ p.resource_name
  pub resource : q.resource ≡ p.resource
  pub namespaces : q.namespaces ≡ p.namespaces
  pub user : q.user ≡ p.user
  pub digest : digest_input q ≡ digest_input p

show_bool-NoComma : (b : Bool) → NoComma (show_bool b)
show_bool-NoComma true = omega arith
show_bool-NoComma false = omega arith

show_bool_inj : (a b : Bool) → show_bool a ≡ show_bool b → a ≡ b
show_bool_inj true true e = refl
show_bool_inj true false e = absurd (cc)
show_bool_inj false true e = absurd (cc)
show_bool_inj false false e = refl

module _ (sha256_hex : String → String)
    (hex : (s : String) → Lacks b',' (sha256_hex s) × Lacks b':' (sha256_hex s)) where
  hash_matcher-NoComma : (m : Option Matcher) → NoComma (hash_matcher sha256_hex m)
  unfolding hash_matcher
  hash_matcher-NoComma none = omega arith
  hash_matcher-NoComma (some m) = elim (Bool-cases (is_nil m.keys)) [
    | inl e ↦ rw (e, hash_matcher) (omega arith)
    | inr e ↦ rw (e, hash_matcher) (Lacks-append b',' "m:" _ (omega arith) (hex _).0)
  ]

  key_parts : Query → Matcher → List String
  key_parts q m =
      q.verb
      ∷ show_bool q.metadata_only
      ∷ q.api_group
      ∷ q.resource_name
      ∷ q.resource
      ∷ join ":" q.namespaces
      ∷ (q.user <> ":" <> sha256_hex (digest_input q))
      ∷ hash_matcher sha256_hex (some m)
      ∷ []

  key_parts-NoComma : (q : Query) (m : Matcher) → IsPlain q → All NoComma (key_parts q m)
  unfolding key_parts
  key_parts-NoComma q m h = (
    h.verb,
    (
      show_bool-NoComma q.metadata_only,
      (
        h.api_group,
        (
          h.resource_name,
          (
            h.resource,
            (
              Lacks-join b',' ":" q.namespaces (omega arith) h.namespaces,
              (
                Lacks-append b',' q.user _ h.user
                    (Lacks-append b',' ":" (sha256_hex (digest_input q)) (omega arith) (hex _).0),
                (hash_matcher-NoComma (some m), tt),
              ),
            ),
          ),
        ),
      ),
    ),
  )

  -- Take two queries in each of which the verb, the API group, the resource, its name, the user and
  -- the namespaces hold no comma, and each namespace is not empty and holds no colon; and a SHA-256
  -- whose printed form holds neither a comma nor a colon. If they have one key, they agree in
  -- everything but the token and the groups; and of these they agree in the text that is hashed, if
  -- SHA-256 does not collide on the two texts. The hashes of their matchers are then equal.
  pub generate_cache_key_inj :
      (q p : Query) (m n : Matcher)
      → IsPlain q
      → IsPlain p
      → (sha256_hex (digest_input q) ≡ sha256_hex (digest_input p)
          → digest_input q ≡ digest_input p)
      → (generate_cache_key sha256_hex q (some m)).0 ≡ (generate_cache_key sha256_hex p (some n)).0
      → Agree q p × (hash_matcher sha256_hex (some m) ≡ hash_matcher sha256_hex (some n))
  unfolding generate_cache_key hash_userinfo key_parts
  generate_cache_key_inj q p m n hq hp apart e =
      let parts =
        join_inj (key_parts q m) (key_parts p n) (key_parts-NoComma q m hq)
          (key_parts-NoComma p n hp) (cc) (cc) e in
      let named : q.user <> ":" <> sha256_hex (digest_input q)
          ≡ p.user <> ":" <> sha256_hex (digest_input p) =
        cc in
      let (user, sums) = user_hash_inj q.user p.user _ _ (hex _).1 (hex _).1 named in
      let joined : join ":" q.namespaces ≡ join ":" p.namespaces = cc in
      (
        record {
          verb = cc;
          metadata_only = show_bool_inj _ _ (cc);
          api_group = cc;
          resource_name = cc;
          resource = cc;
          namespaces =
              namespaces_inj q.namespaces p.namespaces hq.namespaces_colon hp.namespaces_colon
                hq.namespaces_nil hp.namespaces_nil joined;
          user = user;
          digest = apart sums;
        },
        cc,
      )
