-- ===== src/Base/Path.antt =====
-- Go's `path.Join` and `path.Clean`, on slash-separated paths.
use mathlib.Core.Bool.{Bool, true, false, ◌||◌, not}
use mathlib.Core.List.{List, [], ◌∷◌, reverse}
use Prim.Native.String.{String}
use text.Mathlib.Text.{◌==◌}
use opa_openshift.Base.Tests.{if◌then◌else◌}
use opa_openshift.Base.Lists.{is_nil, filter}
use opa_openshift.Base.Text.{split, join, has_prefix}
use opa_openshift.Base.Fallible.{◌<>◌}

-- ".." at the elements so far
unfoldable pub up : Bool → List String → List String
up true [] = []
up false [] = ".." ∷ []
up rooted (top ∷ rest) = if top == ".." then ".." ∷ top ∷ rest else rest

-- One element of the path meets the elements so far, the last one first. Without a root, ".."
-- stays where there is nothing to go up from.
unfoldable pub step : Bool → List String → String → List String
step rooted stack part =
    if part == "" || part == "."
    then stack
    else if part == ".."
    then up rooted stack
    else part ∷ stack

unfoldable pub steps : Bool → List String → List String → List String
steps rooted stack [] = reverse stack
steps rooted stack (part ∷ parts) = steps rooted (step rooted stack part) parts

unfoldable pub clean : String → String
clean s =
    let rooted = has_prefix s "/" in
    let out = join "/" (steps rooted [] (split b'/' s)) in
    if rooted then "/" <> out else if out == "" then "." else out

unfoldable pub join_path : List String → String
join_path elems =
    let given = filter (λ e. not (e == "")) elems in
    if is_nil given then "" else clean (join "/" given)
