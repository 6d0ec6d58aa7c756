-- ===== src/Authorizer/Key.antt =====
-- internal/authorizer/cache.go: the key under which a response is cached. SHA-256 is a parameter.
pub mod Order
pub mod Injective
pub mod Collision
use opa_openshift.Base.{
  String, Bool, true, false, Option, none, some, List, [], ◌∷◌, ◌<>◌, if◌then◌else◌, is_nil,
}
use opa_openshift.Base.Text.{join}
use opa_openshift.Base.Sort.{sort}
use opa_openshift.Config.Matcher.{Matcher}
use opa_openshift.Authorizer.{Query}

-- What a sequence of writes to a hash amounts to.
unfoldable pub concat : List String → String
concat [] = ""
concat (s ∷ ss) = s <> concat ss

-- `fmt.Sprintf("%v", b)`
abbrev pub show_bool : Bool → String
show_bool true = "true"
show_bool false = "false"

-- `sha256_hex` is the sum of what was written, in hexadecimal.
module _ (sha256_hex : String → String) where
  -- The groups are sorted in place: the caller's slice is returned with the text.
  unfoldable pub hash_userinfo : String → String → List String → String × List String
  hash_userinfo token user groups =
      let sorted = sort groups in
      (user <> ":" <> sha256_hex (concat (token ∷ user ∷ sorted)), sorted)

  -- `none` is a nil matcher.
  unfoldable pub hash_matcher : Option Matcher → String
  hash_matcher none = "m:empty"
  hash_matcher (some m) =
      if is_nil m.keys then "m:empty" else "m:" <> sha256_hex (concat (sort m.keys))

  -- The key, and the query with its groups as `sort.Strings` leaves them.
  unfoldable pub generate_cache_key : Query → Option Matcher → String × Query
  generate_cache_key q matcher =
      let (user_hash, groups) = hash_userinfo q.token q.user q.groups in
      (
        join "," (
            q.verb
            ∷ show_bool q.metadata_only
            ∷ q.api_group
            ∷ q.resource_name
            ∷ q.resource
            ∷ join ":" q.namespaces
            ∷ user_hash
            ∷ hash_matcher matcher
            ∷ []),
        record q { groups = groups },
      )
