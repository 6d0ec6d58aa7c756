-- ===== src/Authorizer.antt =====
-- internal/authorizer: the decision about a request. Here are the arguments of `Authorize`; the
-- cache key is in Authorizer/Key, the forms of a response in Authorizer/Data, the decision itself
-- in Authorizer/Inner, the decision behind the cache in Authorizer/Cached, and requests that are
-- handled at the same time in Authorizer/Concurrent.
pub mod Key
pub mod Data
pub mod Inner
pub mod Cached
pub mod Concurrent
use opa_openshift.Base.{String, Bool, List}
use opa_openshift.Openshift.{Access}

abbrev pub get_verb : String
get_verb = "get"

abbrev pub create_verb : String
create_verb = "create"

-- The arguments of `Authorize`.
pub record Query : Type 0 where
  pub token : String
  pub user : String
  pub groups : List String
  pub verb : String
  pub resource : String
  pub resource_name : String
  pub api_group : String
  pub namespaces : List String
  pub metadata_only : Bool

-- The access that `authorizeInner` asks the cluster about, in one namespace or, for "", in all.
abbrev pub access_in : Query → String → Access
access_in q namespace = record {
  user = q.user;
  groups = q.groups;
  verb = q.verb;
  resource = q.resource;
  resource_name = q.resource_name;
  api_group = q.api_group;
  namespace = namespace;
}
