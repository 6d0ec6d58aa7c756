-- ===== src/Tests/Caches.antt =====
-- The caches on concrete contents.
use opa_openshift.Base.{
  ◌*◌, ◌≤◌, ◌<◌, ◌^◌, scale, pos, pos_part, neg_part, some, [], ◌≡◌, refl, ok, arith,
}
use opa_openshift.Base.Assoc.{lookup, put}
use opa_openshift.Response.{DataResponse, matched}
use opa_openshift.Cache.{to_json}
use opa_openshift.Cache.Inmemory.{get, set, get-set, expire_duration, expire_duration_bounds}
use opa_openshift.Tests.Samples.{codec, store}

abbrev response : DataResponse
response = matched "true" "kubernetes_namespace_name=~team-a;or"

written : to_json codec response ≡ ok "Tkubernetes_namespace_name=~team-a;or"
unfolding to_json
written = refl

kept :
    (store.get (store.set [] "key" "Tkubernetes_namespace_name=~team-a;or") "key").0
    ≡ some "Tkubernetes_namespace_name=~team-a;or"
unfolding lookup put
kept = refl

get-set_example :
    ((set codec store [] "key" response).0 ≡ ok tt)
    × ((get codec store (set codec store [] "key" response).1 "key").0 ≡ ok (some response))
get-set_example =
    get-set codec store [] "key" "Tkubernetes_namespace_name=~team-a;or" response written kept

expire_duration_bounds_example :
    (pos_part (expire_duration (pos 60)) ≡ 60 * 10 ^ 9)
    × (neg_part (expire_duration (pos 60)) ≡ 0 * 10 ^ 9)
    × (neg_part (expire_duration (pos 60)) ≤ 2 ^ 63)
    × (pos_part (expire_duration (pos 60)) < 2 ^ 63)
expire_duration_bounds_example = expire_duration_bounds (pos 60) (omega arith) (omega arith)

one_minute : expire_duration (pos 60) ≡ pos 60000000000
unfolding expire_duration scale
one_minute = refl
