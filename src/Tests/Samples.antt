-- ===== src/Tests/Samples.antt =====
-- Small concrete versions of the libraries that the model takes as parameters, a cluster, and
-- requests.
use opa_openshift.Base.{
  String, Bool, true, false, some, List, [], ◌∷◌, ◌≡◌, ◌⊎◌, inl, inr, refl, arith, code, ◌=?◌, ◌==◌,
  eq_iff, ◌&&◌, ◌||◌, ◌<>◌, plain, Result, ok, err, err-ne-ok, ok_inj, subst, if◌then◌else◌, map,
  String-cases,
}
use opa_openshift.Base.Text.{join}
use opa_openshift.Base.Assoc.{Assoc, lookup, put, lookup-put}
use opa_openshift.Response.{DataResponse, no_result, bare, matched, Codec}
use opa_openshift.Cache.{Cacher}
use opa_openshift.Cache.Inmemory.{TtlCache, inmemory}
use opa_openshift.Config.Matcher.{Matcher}
use opa_openshift.Authorizer.{Query}
use opa_openshift.Authorizer.Data.{Labels}
use opa_openshift.Openshift.Reviews.{Cluster, Review, of_subject, of_self}

-- A JSON of one letter and, for a matcher, its data.
abbrev pub encode : DataResponse → Result String
encode no_result = ok "N"
encode (bare true) = ok "Y"
encode (bare false) = ok "Z"
encode (matched a d) =
    if a == "true"
    then ok (String.◌∷◌ "T" d)
    else if a == "false"
    then ok (String.◌∷◌ "F" d)
    else err (plain "?")

abbrev pub decode : String → Result DataResponse
decode String.[] = err (plain "?")
decode (String.◌∷◌ c d) =
    if code c =? b'N'
    then ok no_result
    else if code c =? b'Y'
    then ok (bare true)
    else if code c =? b'Z'
    then ok (bare false)
    else if code c =? b'T'
    then ok (matched "true" d)
    else if code c =? b'F'
    then ok (matched "false" d)
    else err (plain "?")

pub decode-encode : (r : DataResponse) (b : String) → encode r ≡ ok b → decode b ≡ ok r
decode-encode no_result b e = subst (λ t. decode t ≡ ok no_result) (ok_inj e) refl
decode-encode (bare true) b e = subst (λ t. decode t ≡ ok (bare true)) (ok_inj e) refl
decode-encode (bare false) b e = subst (λ t. decode t ≡ ok (bare false)) (ok_inj e) refl
decode-encode (matched a d) b e = elim (String-cases a "true") [
  | inl (same, t) ↦ subst (λ t. decode t ≡ ok (matched a d)) (ok_inj (rw t at e)) (rw same)
  | inr (_, t) ↦ elim (String-cases a "false") [
    | inl (same, f) ↦ subst (λ t. decode t ≡ ok (matched a d)) (ok_inj (rw (t, f) at e)) (rw same)
    | inr (_, f) ↦ absurd (err-ne-ok (rw (t, f) at e))
  ]
]

abbrev pub codec : Codec
codec = record { marshal = encode; unmarshal = decode; unmarshal-marshal = decode-encode }

-- A label matcher is its name and its expression; their JSON is the two texts.
abbrev pub show_matcher : String × String → String
show_matcher (name, value) = name <> "=~" <> value

abbrev pub labels : Labels
labels = record {
  LabelMatcher = String × String;
  new_matcher = λ name value. ok (name, value);
  marshal = λ d. ok (join "," (map show_matcher d.matchers) <> ";" <> d.matcher_op);
}

-- A hash that keeps its input apart by writing it out, with the separators taken out.
abbrev pub hex : String → String
hex String.[] = ""
hex (String.◌∷◌ c s) =
    if (code c =? b',') || (code c =? b':') then String.◌∷◌ "." (hex s) else String.◌∷◌ c (hex s)

-- Who may do what: root everything, anyone in the group "team" read the namespace "team-a".
abbrev pub may : Review → Bool
may (of_subject user groups a) =
    user == "root" || ((a.namespace == "team-a") && (join "," groups == "staff,team"))
may (of_self a) = a.namespace == "team-a"

abbrev pub cluster : Cluster
cluster = record { review = λ t r. ok (may r); projects = λ t. ok ("team-a" ∷ "team-b" ∷ []) }

-- The server cannot be reached.
abbrev pub unreachable : Cluster
unreachable = record {
  review = λ t r. err (plain "no route");
  projects = λ t. err (plain "no route");
}

abbrev pub ns_matcher : Matcher
ns_matcher = record {
  keys = "kubernetes_namespace_name" ∷ [];
  matcher_op = "or";
  skip_tenants = [];
  admin_groups = [];
}

abbrev pub read_of : String → List String → List String → Query
read_of user groups namespaces = record {
  token = "t0";
  user = user;
  groups = groups;
  verb = "get";
  resource = "application";
  resource_name = "logs";
  api_group = "loki.grafana.com";
  namespaces = namespaces;
  metadata_only = false;
}

-- A store that forgets nothing; the time to live is not looked at.
abbrev pub Kept : Assoc String → String → String → Type 0
Kept s k b = lookup k s ≡ some b

pub stored_again :
    (s : Assoc String) (k j b d : String) → Kept (put k b s) j d → ((k ≡ j) × (b ≡ d)) ⊎ Kept s j d
stored_again s k j b d h = ground (arith, lookup-put k j b s, eq_iff k j)

abbrev pub store : TtlCache
store = record {
  Store = Assoc String;
  new = λ ttl. [];
  get = λ s k. (lookup k s, s);
  set = λ s k b. put k b s;
  metrics = λ s. record { insertions = 0; hits = 0; misses = 0; evictions = 0 };
  Holds = Kept;
  get_holds = λ s k b h. h;
  get_keeps = λ s k j b h. h;
  set_holds = stored_again;
}

abbrev pub cache : Cacher (Assoc String)
cache = inmemory codec store
