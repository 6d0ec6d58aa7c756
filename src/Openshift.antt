-- ===== src/Openshift.antt =====
-- internal/openshift/client.go: what the authorizer asks of the cluster. Here are the interface
-- `Client` and its implementation over the API server's access reviews and projects; how a client
-- is built from the configuration is in Openshift/Connect. The interfaces of
-- internal/external/k8s/client.go and internal/external/ocp/client.go are the parameter `Cluster`.
pub mod Reviews
pub mod Connect
pub mod Api
pub mod Interfaces
use opa_openshift.Base.{String, Bool, true, List, Result, ok, ◌≡◌, In}

-- The arguments of `AccessReview`.
pub record Access : Type 0 where
  pub user : String
  pub groups : List String
  pub verb : String
  pub resource : String
  pub resource_name : String
  pub api_group : String
  pub namespace : String

-- `Client`: an operation takes the state of the outside world to its next state, so that the
-- answer to the same question may change between two calls.
pub record Client (W : Type 0) : Type 0 where
  pub access_review : Access → W → Result Bool × W
  pub list_namespaces : W → Result (List String) × W

-- What a user of the interface can rely on afterwards: a state remembers which accesses were
-- answered with yes and which namespaces were listed.
pub record ClientLaws {W : Type 0} (c : Client W) : Type 1 where
  pub Granted : W → Access → Type 0
  pub Listed : W → String → Type 0
  pub review_grants :
      (a : Access) (w : W) → (c.access_review a w).0 ≡ ok true → Granted (c.access_review a w).1 a
  pub list_lists :
      (w : W) (ns : List String) (n : String)
      → (c.list_namespaces w).0 ≡ ok ns
      → In n ns
      → Listed (c.list_namespaces w).1 n
  pub review_keeps : (a b : Access) (w : W) → Granted w b → Granted (c.access_review a w).1 b
  pub review_keeps_listed :
      (a : Access) (n : String) (w : W) → Listed w n → Listed (c.access_review a w).1 n
  pub list_keeps : (b : Access) (w : W) → Granted w b → Granted (c.list_namespaces w).1 b
