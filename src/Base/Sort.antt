-- ===== src/Base/Sort.antt =====
-- `sort.Strings`: texts in ascending order of their code points, which for valid UTF-8 is the
-- order of their bytes. The sorted list is unique, so any sorting algorithm gives it.
pub mod Laws
use Prim.Native.String.{String, [], ◌∷◌}
use Prim.Native.Char.{code}
use mathlib.Core.Bool.{Bool, true, false}
use mathlib.Core.List.{List, [], ◌∷◌}
use opa_openshift.Base.Tests.{ltb, ◌=?◌, if◌then◌else◌}

-- `s <= t`
unfoldable pub str_leb : String → String → Bool
str_leb [] t = true
str_leb (c ∷ s) [] = false
str_leb (c ∷ s) (d ∷ t) =
    if ltb (code c) (code d) then true else if code c =? code d then str_leb s t else false

unfoldable pub insert : String → List String → List String
insert s [] = s ∷ []
insert s (t ∷ ts) = if str_leb s t then s ∷ t ∷ ts else t ∷ insert s ts

unfoldable pub sort : List String → List String
sort [] = []
sort (s ∷ ss) = insert s (sort ss)
