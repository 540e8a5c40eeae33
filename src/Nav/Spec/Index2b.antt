-- ===== src/Nav/Spec/Index2b.antt =====
-- The second part of NAVTREEINDEX2 of docs/ta-ref_spec_html/navtreeindex2.js.
use mathlib.Core.List.{[], ◌∷◌}
use ta_ref.Nav.Goto.{Table}
use ta_ref.Nav.Entry.{at}

unfoldable pub nav_tree_index2_b : Table
nav_tree_index2_b =
    at "a00333.html#a212e2f1c2162f8a24b156191be16b6cd" (1 ∷ 0 ∷ 0 ∷ 0 ∷ 3 ∷ 11 ∷ 33 ∷ [])
    ∷ at "a00333.html#a2bad5a18d0dcf3bbf70d0eb1b2797044" (1 ∷ 0 ∷ 0 ∷ 0 ∷ 3 ∷ 11 ∷ 30 ∷ [])
    ∷ at "a00333.html#a2c0991970c9075b6e6197c313a1203fc" (1 ∷ 0 ∷ 0 ∷ 0 ∷ 3 ∷ 11 ∷ 20 ∷ [])
    ∷ at "a00333.html#a2c249ce13d36626995f96880028b3d0a" (1 ∷ 0 ∷ 0 ∷ 0 ∷ 3 ∷ 11 ∷ 10 ∷ [])
    ∷ at "a00333.html#a34aa02fd74c9f366b87312cf708dc9e1" (1 ∷ 0 ∷ 0 ∷ 0 ∷ 3 ∷ 11 ∷ 16 ∷ [])
    ∷ at "a00333.html#a3b3255e97ad723d1af56cc336b9ba0ff" (1 ∷ 0 ∷ 0 ∷ 0 ∷ 3 ∷ 11 ∷ 21 ∷ [])
    ∷ at "a00333.html#a3d8b1bd3dd657ac7856e8aa67b170fee" (1 ∷ 0 ∷ 0 ∷ 0 ∷ 3 ∷ 11 ∷ 7 ∷ [])
    ∷ at "a00333.html#a3ee89701d5bf35415505f4412ed9d8df" (1 ∷ 0 ∷ 0 ∷ 0 ∷ 3 ∷ 11 ∷ 19 ∷ [])
    ∷ at "a00333.html#a4278b980717163a8ef983ce3fbf0b9db" (1 ∷ 0 ∷ 0 ∷ 0 ∷ 3 ∷ 11 ∷ 14 ∷ [])
    ∷ at "a00333.html#a4ac2d97fe74925064a50628a469403d3" (1 ∷ 0 ∷ 0 ∷ 0 ∷ 3 ∷ 11 ∷ 6 ∷ [])
    ∷ at "a00333.html#a4e289a20e315f0a470da3f149d33c7a5" (1 ∷ 0 ∷ 0 ∷ 0 ∷ 3 ∷ 11 ∷ 9 ∷ [])
    ∷ at "a00333.html#a4e4ed2c9a700bf9cfddabb05debd4790" (1 ∷ 0 ∷ 0 ∷ 0 ∷ 3 ∷ 11 ∷ 3 ∷ [])
    ∷ at "a00333.html#a5584c6d116b42ffdf2c2b7b72209cb25" (1 ∷ 0 ∷ 0 ∷ 0 ∷ 3 ∷ 11 ∷ 2 ∷ [])
    ∷ at "a00333.html#a61bd4f47896225e10fc347c3896c323f" (1 ∷ 0 ∷ 0 ∷ 0 ∷ 3 ∷ 11 ∷ 35 ∷ [])
    ∷ at "a00333.html#a67af87af758806836ba0a24934fc87b5" (1 ∷ 0 ∷ 0 ∷ 0 ∷ 3 ∷ 11 ∷ 29 ∷ [])
    ∷ at "a00333.html#a738a48de177a2e385f66995685334761" (1 ∷ 0 ∷ 0 ∷ 0 ∷ 3 ∷ 11 ∷ 11 ∷ [])
    ∷ at "a00333.html#a7ffc74d008f9e494649d270668555dd1" (1 ∷ 0 ∷ 0 ∷ 0 ∷ 3 ∷ 11 ∷ 8 ∷ [])
    ∷ at "a00333.html#ab7af60ce6079dfaea8e8589e47eeb8f0" (1 ∷ 0 ∷ 0 ∷ 0 ∷ 3 ∷ 11 ∷ 28 ∷ [])
    ∷ at "a00333.html#ac4a1ad6d5e0eae2f65ab59703847359a" (1 ∷ 0 ∷ 0 ∷ 0 ∷ 3 ∷ 11 ∷ 18 ∷ [])
    ∷ at "a00333.html#ac65831bb84fde6008edd159836e82eed" (1 ∷ 0 ∷ 0 ∷ 0 ∷ 3 ∷ 11 ∷ 15 ∷ [])
    ∷ at "a00333.html#ac6c26878acb903cb07de2b9552fec26b" (1 ∷ 0 ∷ 0 ∷ 0 ∷ 3 ∷ 11 ∷ 4 ∷ [])
    ∷ at "a00333.html#acd89d7f040822741e36375ba7bbb2d74" (1 ∷ 0 ∷ 0 ∷ 0 ∷ 3 ∷ 11 ∷ 22 ∷ [])
    ∷ at "a00333.html#acf2e41c6171fe92b66260c643098fae2" (1 ∷ 0 ∷ 0 ∷ 0 ∷ 3 ∷ 11 ∷ 24 ∷ [])
    ∷ at "a00333.html#ad7b04ce70e8c9e609f02c796be254062" (1 ∷ 0 ∷ 0 ∷ 0 ∷ 3 ∷ 11 ∷ 12 ∷ [])
    ∷ at "a00333.html#ad940608e967c675b53207179377308f5" (1 ∷ 0 ∷ 0 ∷ 0 ∷ 3 ∷ 11 ∷ 27 ∷ [])
    ∷ at "a00333.html#aef1143febac07b5961075f4d76b6cc75" (1 ∷ 0 ∷ 0 ∷ 0 ∷ 3 ∷ 11 ∷ 23 ∷ [])
    ∷ at "a00333.html#af27dcab85ade0935109c58206df1eab9" (1 ∷ 0 ∷ 0 ∷ 0 ∷ 3 ∷ 11 ∷ 32 ∷ [])
    ∷ at "a00333.html#af341191ed47c98ec35beaa7bb8db8e75" (1 ∷ 0 ∷ 0 ∷ 0 ∷ 3 ∷ 11 ∷ 17 ∷ [])
    ∷ at "a00333.html#af7aeb1c970d5c2bf5fada4eaca516a25" (1 ∷ 0 ∷ 0 ∷ 0 ∷ 3 ∷ 11 ∷ 13 ∷ [])
    ∷ at "annotated.html" (0 ∷ 0 ∷ [])
    ∷ at "classes.html" (0 ∷ 1 ∷ [])
    ∷ at "dir_17edc2d27dad8bf4bcee8d792b0504f2.html" (1 ∷ 0 ∷ 0 ∷ 0 ∷ 2 ∷ [])
    ∷ at "dir_766553b45c2595ee373ab9cd46c1b7b4.html" (1 ∷ 0 ∷ 0 ∷ 0 ∷ 3 ∷ [])
    ∷ at "dir_777eb751ba0556a74a781f1965b690d9.html" (1 ∷ 0 ∷ 0 ∷ 0 ∷ 0 ∷ [])
    ∷ at "dir_d7a110bb8765aa85a3c6cafeaf54b8ea.html" (1 ∷ 0 ∷ 0 ∷ 0 ∷ 1 ∷ [])
    ∷ at "dir_f46799117fa6d4670f313b2ab4ad8389.html" (1 ∷ 0 ∷ 0 ∷ 0 ∷ [])
    ∷ at "dir_f9530a031e82794186de7c9c8fdc2b6f.html" (1 ∷ 0 ∷ 0 ∷ [])
    ∷ at "files.html" (1 ∷ 0 ∷ [])
    ∷ at "functions.html" (0 ∷ 2 ∷ 0 ∷ [])
    ∷ at "functions_vars.html" (0 ∷ 2 ∷ 1 ∷ [])
    ∷ at "globals.html" (1 ∷ 1 ∷ 0 ∷ 0 ∷ [])
    ∷ at "globals.html" (1 ∷ 1 ∷ 0 ∷ [])
    ∷ at "globals_a.html" (1 ∷ 1 ∷ 0 ∷ 1 ∷ [])
    ∷ at "globals_c.html" (1 ∷ 1 ∷ 0 ∷ 2 ∷ [])
    ∷ at "globals_d.html" (1 ∷ 1 ∷ 0 ∷ 3 ∷ [])
    ∷ at "globals_defs.html" (1 ∷ 1 ∷ 6 ∷ [])
    ∷ at "globals_e.html" (1 ∷ 1 ∷ 0 ∷ 4 ∷ [])
    ∷ at "globals_enum.html" (1 ∷ 1 ∷ 4 ∷ [])
    ∷ at "globals_eval.html" (1 ∷ 1 ∷ 5 ∷ [])
    ∷ at "globals_f.html" (1 ∷ 1 ∷ 0 ∷ 5 ∷ [])
    ∷ at "globals_func.html" (1 ∷ 1 ∷ 1 ∷ 0 ∷ [])
    ∷ at "globals_func.html" (1 ∷ 1 ∷ 1 ∷ [])
    ∷ at "globals_func_c.html" (1 ∷ 1 ∷ 1 ∷ 1 ∷ [])
    ∷ at "globals_func_d.html" (1 ∷ 1 ∷ 1 ∷ 2 ∷ [])
    ∷ at "globals_func_e.html" (1 ∷ 1 ∷ 1 ∷ 3 ∷ [])
    ∷ at "globals_func_f.html" (1 ∷ 1 ∷ 1 ∷ 4 ∷ [])
    ∷ at "globals_func_g.html" (1 ∷ 1 ∷ 1 ∷ 5 ∷ [])
    ∷ at "globals_func_m.html" (1 ∷ 1 ∷ 1 ∷ 6 ∷ [])
    ∷ at "globals_func_o.html" (1 ∷ 1 ∷ 1 ∷ 7 ∷ [])
    ∷ at "globals_func_p.html" (1 ∷ 1 ∷ 1 ∷ 8 ∷ [])
    ∷ at "globals_func_s.html" (1 ∷ 1 ∷ 1 ∷ 9 ∷ [])
    ∷ at "globals_func_t.html" (1 ∷ 1 ∷ 1 ∷ 10 ∷ [])
    ∷ at "globals_func_v.html" (1 ∷ 1 ∷ 1 ∷ 11 ∷ [])
    ∷ at "globals_func_w.html" (1 ∷ 1 ∷ 1 ∷ 12 ∷ [])
    ∷ at "globals_g.html" (1 ∷ 1 ∷ 0 ∷ 6 ∷ [])
    ∷ at "globals_i.html" (1 ∷ 1 ∷ 0 ∷ 7 ∷ [])
    ∷ at "globals_m.html" (1 ∷ 1 ∷ 0 ∷ 8 ∷ [])
    ∷ at "globals_o.html" (1 ∷ 1 ∷ 0 ∷ 9 ∷ [])
    ∷ at "globals_p.html" (1 ∷ 1 ∷ 0 ∷ 10 ∷ [])
    ∷ at "globals_r.html" (1 ∷ 1 ∷ 0 ∷ 11 ∷ [])
    ∷ at "globals_s.html" (1 ∷ 1 ∷ 0 ∷ 12 ∷ [])
    ∷ at "globals_t.html" (1 ∷ 1 ∷ 0 ∷ 13 ∷ [])
    ∷ at "globals_type.html" (1 ∷ 1 ∷ 3 ∷ [])
    ∷ at "globals_v.html" (1 ∷ 1 ∷ 0 ∷ 14 ∷ [])
    ∷ at "globals_vars.html" (1 ∷ 1 ∷ 2 ∷ [])
    ∷ at "globals_w.html" (1 ∷ 1 ∷ 0 ∷ 15 ∷ [])
    ∷ at "index.html" []
    ∷ at "pages.html" []
    ∷ []
