-- ===== src/Tests/Sharing.antt =====
-- A matcher in memory that two requests share.
use opa_openshift.Base.{ℕ, [], ◌∷◌, ◌≡◌, arith}
use opa_openshift.Config.Matcher.{Selectors, for_request, viaq_to_otel_migration}
use opa_openshift.Config.Matcher.Aliasing.{Object, Heap, value, for_request_at, migrate_at}
use opa_openshift.Config.Matcher.Aliasing.Shared.{IsAllocated, migrate_at-for_request_at}

-- The process's matcher is the object 0, and its keys are the array 0.
abbrev configured : Object
configured = record {
  keys = record { array = 0; len = 2 };
  matcher_op = "or";
  skip_tenants = [];
  admin_groups = ("admins", tt) ∷ [];
}

abbrev heap : Heap
heap = record {
  arrays = λ n. "kubernetes_namespace_name" ∷ "k8s_namespace_name" ∷ [];
  next_array = 1;
  objects = λ n. configured;
  next_object = 1;
}

abbrev by_otel : Selectors
by_otel = ("k8s_namespace_name", "team-a" ∷ []) ∷ []

configured-IsAllocated : IsAllocated 0 heap
configured-IsAllocated = (omega arith, omega arith)

abbrev request : ℕ × Heap
request = for_request_at 0 "application" ("staff" ∷ []) heap

migrate_at-for_request_at_example :
    (value request.1 request.0 ≡ for_request (value heap 0) "application" ("staff" ∷ []))
    × (value (migrate_at request.0 by_otel request.1) request.0
        ≡ viaq_to_otel_migration (for_request (value heap 0) "application" ("staff" ∷ [])) by_otel)
    × (value request.1 0 ≡ value heap 0)
    × (value (migrate_at request.0 by_otel request.1) 0 ≡ value heap 0)
migrate_at-for_request_at_example =
    migrate_at-for_request_at 0 "application" ("staff" ∷ []) by_otel heap configured-IsAllocated
