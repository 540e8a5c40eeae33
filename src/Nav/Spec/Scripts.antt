-- ===== src/Nav/Spec/Scripts.antt =====
-- The scripts that hold the children of the entries of the specification's tree.
mod PartA
mod PartB
mod PartC
mod PartD
mod PartE
mod PartF
mod PartG
use ta_ref.Prelude.{◌++◌, List, [], ◌∷◌, Option, none, some, true, false}
use ta_ref.Text.{Str, codes, eq_str}
use ta_ref.Nav.Tree.{Node, Nodes}
use ta_ref.Nav.Entry.{nodes}
use ta_ref.Nav.Spec.Scripts.PartA.{a00050, a00056, a00071, a00080}
use ta_ref.Nav.Spec.Scripts.PartB.{a00083}
use ta_ref.Nav.Spec.Scripts.PartC.{
  a00086, a00089, a00092, a00101, a00104, a00113, a00116, a00122, a00128, a00132, a00136, a00140,
  a00144,
}
use ta_ref.Nav.Spec.Scripts.PartD.{
  a00148, a00160, a00172, a00188, a00192, a00196, a00200, a00204, a00208, a00212, a00216, a00220,
  a00224, a00228, a00232, a00236, a00240,
}
use ta_ref.Nav.Spec.Scripts.PartE.{
  a00244, a00248, a00252, a00256, a00260, a00261, a00264, a00267, a00270, a00273, a00276, a00279,
  a00282, a00285, a00288, a00291,
}
use ta_ref.Nav.Spec.Scripts.PartF.{
  a00294, a00306, a00309, a00312, a00315, a00318, a00321, a00324, a00327, a00330, a00333,
}
use ta_ref.Nav.Spec.Scripts.PartG.{
  annotated_dup, dir_17edc2d27dad8bf4bcee8d792b0504f2, dir_766553b45c2595ee373ab9cd46c1b7b4,
  dir_777eb751ba0556a74a781f1965b690d9, dir_d7a110bb8765aa85a3c6cafeaf54b8ea,
  dir_f46799117fa6d4670f313b2ab4ad8389, dir_f9530a031e82794186de7c9c8fdc2b6f, files_dup,
  globals_dup, globals_func,
}

-- Looks for a script by its name.
unfoldable pub find_script : Str → List (Str × List Node) → Option Nodes
unfolding eq_str
find_script name [] = none
find_script name ((key, ns) ∷ scripts) = elim (eq_str key name) [
  | true ↦ some (nodes ns)
  | false ↦ find_script name scripts
]

unfoldable pub scripts_a : List (Str × List Node)
unfolding a00050 a00056 a00071 a00080
scripts_a =
    (codes "a00050", a00050)
    ∷ (codes "a00056", a00056)
    ∷ (codes "a00071", a00071)
    ∷ (codes "a00080", a00080)
    ∷ []

unfoldable pub scripts_b : List (Str × List Node)
unfolding a00083
scripts_b = (codes "a00083", a00083) ∷ []

unfoldable pub scripts_c : List (Str × List Node)
unfolding a00086 a00089 a00092 a00101 a00104 a00113 a00116 a00122 a00128 a00132 a00136 a00140 a00144
scripts_c =
    (codes "a00086", a00086)
    ∷ (codes "a00089", a00089)
    ∷ (codes "a00092", a00092)
    ∷ (codes "a00101", a00101)
    ∷ (codes "a00104", a00104)
    ∷ (codes "a00113", a00113)
    ∷ (codes "a00116", a00116)
    ∷ (codes "a00122", a00122)
    ∷ (codes "a00128", a00128)
    ∷ (codes "a00132", a00132)
    ∷ (codes "a00136", a00136)
    ∷ (codes "a00140", a00140)
    ∷ (codes "a00144", a00144)
    ∷ []

unfoldable pub scripts_d : List (Str × List Node)
unfolding a00148 a00160 a00172 a00188 a00192 a00196 a00200 a00204 a00208 a00212 a00216 a00220 a00224
    a00228 a00232 a00236 a00240
scripts_d =
    (codes "a00148", a00148)
    ∷ (codes "a00160", a00160)
    ∷ (codes "a00172", a00172)
    ∷ (codes "a00188", a00188)
    ∷ (codes "a00192", a00192)
    ∷ (codes "a00196", a00196)
    ∷ (codes "a00200", a00200)
    ∷ (codes "a00204", a00204)
    ∷ (codes "a00208", a00208)
    ∷ (codes "a00212", a00212)
    ∷ (codes "a00216", a00216)
    ∷ (codes "a00220", a00220)
    ∷ (codes "a00224", a00224)
    ∷ (codes "a00228", a00228)
    ∷ (codes "a00232", a00232)
    ∷ (codes "a00236", a00236)
    ∷ (codes "a00240", a00240)
    ∷ []

unfoldable pub scripts_e : List (Str × List Node)
unfolding a00244 a00248 a00252 a00256 a00260 a00261 a00264 a00267 a00270 a00273 a00276 a00279 a00282
    a00285 a00288 a00291
scripts_e =
    (codes "a00244", a00244)
    ∷ (codes "a00248", a00248)
    ∷ (codes "a00252", a00252)
    ∷ (codes "a00256", a00256)
    ∷ (codes "a00260", a00260)
    ∷ (codes "a00261", a00261)
    ∷ (codes "a00264", a00264)
    ∷ (codes "a00267", a00267)
    ∷ (codes "a00270", a00270)
    ∷ (codes "a00273", a00273)
    ∷ (codes "a00276", a00276)
    ∷ (codes "a00279", a00279)
    ∷ (codes "a00282", a00282)
    ∷ (codes "a00285", a00285)
    ∷ (codes "a00288", a00288)
    ∷ (codes "a00291", a00291)
    ∷ []

unfoldable pub scripts_f : List (Str × List Node)
unfolding a00294 a00306 a00309 a00312 a00315 a00318 a00321 a00324 a00327 a00330 a00333
scripts_f =
    (codes "a00294", a00294)
    ∷ (codes "a00306", a00306)
    ∷ (codes "a00309", a00309)
    ∷ (codes "a00312", a00312)
    ∷ (codes "a00315", a00315)
    ∷ (codes "a00318", a00318)
    ∷ (codes "a00321", a00321)
    ∷ (codes "a00324", a00324)
    ∷ (codes "a00327", a00327)
    ∷ (codes "a00330", a00330)
    ∷ (codes "a00333", a00333)
    ∷ []

unfoldable pub scripts_g : List (Str × List Node)
unfolding annotated_dup dir_17edc2d27dad8bf4bcee8d792b0504f2 dir_766553b45c2595ee373ab9cd46c1b7b4
    dir_777eb751ba0556a74a781f1965b690d9 dir_d7a110bb8765aa85a3c6cafeaf54b8ea
    dir_f46799117fa6d4670f313b2ab4ad8389 dir_f9530a031e82794186de7c9c8fdc2b6f files_dup globals_dup
    globals_func
scripts_g =
    (codes "annotated_dup", annotated_dup)
    ∷ (codes "dir_17edc2d27dad8bf4bcee8d792b0504f2", dir_17edc2d27dad8bf4bcee8d792b0504f2)
    ∷ (codes "dir_766553b45c2595ee373ab9cd46c1b7b4", dir_766553b45c2595ee373ab9cd46c1b7b4)
    ∷ (codes "dir_777eb751ba0556a74a781f1965b690d9", dir_777eb751ba0556a74a781f1965b690d9)
    ∷ (codes "dir_d7a110bb8765aa85a3c6cafeaf54b8ea", dir_d7a110bb8765aa85a3c6cafeaf54b8ea)
    ∷ (codes "dir_f46799117fa6d4670f313b2ab4ad8389", dir_f46799117fa6d4670f313b2ab4ad8389)
    ∷ (codes "dir_f9530a031e82794186de7c9c8fdc2b6f", dir_f9530a031e82794186de7c9c8fdc2b6f)
    ∷ (codes "files_dup", files_dup)
    ∷ (codes "globals_dup", globals_dup)
    ∷ (codes "globals_func", globals_func)
    ∷ []

-- What the script of a name holds: getScript and getData of navtree.js on these pages.
unfoldable pub spec_load : Str → Option Nodes
unfolding find_script scripts_a scripts_b scripts_c scripts_d scripts_e scripts_f scripts_g
spec_load name = find_script name (
    scripts_g
    ++ (scripts_a ++ (scripts_b ++ (scripts_c ++ (scripts_d ++ (scripts_e ++ scripts_f))))))
