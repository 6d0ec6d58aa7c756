-- ===== src/Authorizer/Key/Collision.antt =====
-- Where internal/authorizer/cache.go writes the groups into the hash without a separator.
use opa_openshift.Base.{String, some, [], ◌∷◌, ◌≡◌, ◌<>◌, refl, true, arith}
use text.Mathlib.TextLemmas.{append-nil}
use opa_openshift.Base.Sort.{str_leb, insert, sort}
use opa_openshift.Config.Matcher.{Matcher}
use opa_openshift.Authorizer.{Query}
use opa_openshift.Authorizer.Key.{concat, hash_userinfo, generate_cache_key}

digest_pair : (t u a b : String) → concat (t ∷ u ∷ a ∷ b ∷ []) ≡ concat (t ∷ u ∷ (a <> b) ∷ [])
unfolding concat
digest_pair t u a b = simp (append-nil)

sort_pair : (a b : String) → str_leb a b ≡ true → sort (a ∷ b ∷ []) ≡ a ∷ b ∷ []
unfolding sort insert
sort_pair a b h = ground arith

sort_one : (a : String) → sort (a ∷ []) ≡ a ∷ []
unfolding sort insert
sort_one a = refl

-- For the same token, user and request, the groups a and b, with a not after b in the order of
-- texts, and the single group whose name is a and b written together get the same key.
pub groups_ambiguous :
    (sha256_hex : String → String) (q : Query) (m : Matcher) (a b : String)
    → str_leb a b ≡ true
    → (generate_cache_key sha256_hex (record q { groups = a ∷ b ∷ [] }) (some m)).0
      ≡ (generate_cache_key sha256_hex (record q { groups = (a <> b) ∷ [] }) (some m)).0
unfolding generate_cache_key hash_userinfo
groups_ambiguous sha q m a b h =
    rw (sort_pair a b h, sort_one (a <> b), digest_pair q.token q.user a b)
