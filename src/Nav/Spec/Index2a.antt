-- ===== src/Nav/Spec/Index2a.antt =====
-- The first part of NAVTREEINDEX2 of docs/ta-ref_spec_html/navtreeindex2.js.
use mathlib.Core.List.{[], ◌∷◌}
use ta_ref.Nav.Goto.{Table}
use ta_ref.Nav.Entry.{at}

unfoldable pub nav_tree_index2_a : Table
nav_tree_index2_a =
    at "a00294.html#a12e0a5703767c19b688f1056ce87518f" (1 ∷ 0 ∷ 0 ∷ 0 ∷ 3 ∷ 5 ∷ 3 ∷ [])
    ∷ at "a00294.html#a18b21d13c6e44a0c13509efed221f6ff" (1 ∷ 0 ∷ 0 ∷ 0 ∷ 3 ∷ 5 ∷ 5 ∷ [])
    ∷ at "a00294.html#a2b3c04c8aee4000b3fc582d3d6e73254" (1 ∷ 0 ∷ 0 ∷ 0 ∷ 3 ∷ 5 ∷ 16 ∷ [])
    ∷ at "a00294.html#a2ce6c25dca4d916c6b1ca40ae3a431e3" (1 ∷ 0 ∷ 0 ∷ 0 ∷ 3 ∷ 5 ∷ 12 ∷ [])
    ∷ at "a00294.html#a333824d79fa9e46b6969bfff7e3a1158" (1 ∷ 0 ∷ 0 ∷ 0 ∷ 3 ∷ 5 ∷ 7 ∷ [])
    ∷ at "a00294.html#a365ac1202478160e1ced5899f65b15c6" (1 ∷ 0 ∷ 0 ∷ 0 ∷ 3 ∷ 5 ∷ 4 ∷ [])
    ∷ at "a00294.html#a44d268544426ce78fedfe1f53d22b028" (1 ∷ 0 ∷ 0 ∷ 0 ∷ 3 ∷ 5 ∷ 1 ∷ [])
    ∷ at "a00294.html#a5a67752d33bbe35cd1442c3fffa4ea25" (1 ∷ 0 ∷ 0 ∷ 0 ∷ 3 ∷ 5 ∷ 15 ∷ [])
    ∷ at "a00294.html#a70d944aa12cea2bad255b9bdd30225eb" (1 ∷ 0 ∷ 0 ∷ 0 ∷ 3 ∷ 5 ∷ 14 ∷ [])
    ∷ at "a00294.html#a93b9cf91f7623d6d8b100a3693d6d5e4" (1 ∷ 0 ∷ 0 ∷ 0 ∷ 3 ∷ 5 ∷ 0 ∷ [])
    ∷ at "a00294.html#aa28943c832365ac4dc1185829a571beb" (1 ∷ 0 ∷ 0 ∷ 0 ∷ 3 ∷ 5 ∷ 2 ∷ [])
    ∷ at "a00294.html#aaa89fe8cb6b6e1e7bdfbafe0bd817094" (1 ∷ 0 ∷ 0 ∷ 0 ∷ 3 ∷ 5 ∷ 10 ∷ [])
    ∷ at "a00294.html#aae70ddc633ba20e9e523d23e69df69f0" (1 ∷ 0 ∷ 0 ∷ 0 ∷ 3 ∷ 5 ∷ 9 ∷ [])
    ∷ at "a00294.html#ac2cfc934106a5bc629f0b354b08a30f5" (1 ∷ 0 ∷ 0 ∷ 0 ∷ 3 ∷ 5 ∷ 11 ∷ [])
    ∷ at "a00294.html#acc67feac22b919c3b27c87fc5b66af78" (1 ∷ 0 ∷ 0 ∷ 0 ∷ 3 ∷ 5 ∷ 17 ∷ [])
    ∷ at "a00294.html#aee5c5b6cfe2cc9ee4a8f84f7d690ccbc" (1 ∷ 0 ∷ 0 ∷ 0 ∷ 3 ∷ 5 ∷ 13 ∷ [])
    ∷ at "a00294.html#af73ce780a255e5232dc7196acafebf11" (1 ∷ 0 ∷ 0 ∷ 0 ∷ 3 ∷ 5 ∷ 8 ∷ [])
    ∷ at "a00297.html" (1 ∷ 0 ∷ 0 ∷ 0 ∷ 1 ∷ 8 ∷ [])
    ∷ at "a00297_source.html" (1 ∷ 0 ∷ 0 ∷ 0 ∷ 1 ∷ 8 ∷ [])
    ∷ at "a00300.html" (1 ∷ 0 ∷ 0 ∷ 0 ∷ 2 ∷ 0 ∷ [])
    ∷ at "a00300_source.html" (1 ∷ 0 ∷ 0 ∷ 0 ∷ 2 ∷ 0 ∷ [])
    ∷ at "a00303.html" (1 ∷ 0 ∷ 0 ∷ 0 ∷ 3 ∷ 6 ∷ [])
    ∷ at "a00303_source.html" (1 ∷ 0 ∷ 0 ∷ 0 ∷ 3 ∷ 6 ∷ [])
    ∷ at "a00306.html" (1 ∷ 0 ∷ 0 ∷ 0 ∷ 1 ∷ 10 ∷ [])
    ∷ at "a00306.html#a55f3d956bb2ba20b5059e9e25484a47f" (1 ∷ 0 ∷ 0 ∷ 0 ∷ 1 ∷ 10 ∷ 1 ∷ [])
    ∷ at "a00306.html#a67af87af758806836ba0a24934fc87b5" (1 ∷ 0 ∷ 0 ∷ 0 ∷ 1 ∷ 10 ∷ 0 ∷ [])
    ∷ at "a00306.html#ad41876f99f190c7488e64ef39c50a23f" (1 ∷ 0 ∷ 0 ∷ 0 ∷ 1 ∷ 10 ∷ 3 ∷ [])
    ∷ at "a00306.html#af4de2514b7778805db3815e8dd6cf09a" (1 ∷ 0 ∷ 0 ∷ 0 ∷ 1 ∷ 10 ∷ 2 ∷ [])
    ∷ at "a00309.html" (1 ∷ 0 ∷ 0 ∷ 0 ∷ 3 ∷ 7 ∷ [])
    ∷ at "a00309.html#a55f3d956bb2ba20b5059e9e25484a47f" (1 ∷ 0 ∷ 0 ∷ 0 ∷ 3 ∷ 7 ∷ 1 ∷ [])
    ∷ at "a00309.html#a67af87af758806836ba0a24934fc87b5" (1 ∷ 0 ∷ 0 ∷ 0 ∷ 3 ∷ 7 ∷ 0 ∷ [])
    ∷ at "a00309.html#ad41876f99f190c7488e64ef39c50a23f" (1 ∷ 0 ∷ 0 ∷ 0 ∷ 3 ∷ 7 ∷ 3 ∷ [])
    ∷ at "a00309.html#af4de2514b7778805db3815e8dd6cf09a" (1 ∷ 0 ∷ 0 ∷ 0 ∷ 3 ∷ 7 ∷ 2 ∷ [])
    ∷ at "a00312.html" (1 ∷ 0 ∷ 0 ∷ 0 ∷ 1 ∷ 11 ∷ [])
    ∷ at "a00312.html#a55f3d956bb2ba20b5059e9e25484a47f" (1 ∷ 0 ∷ 0 ∷ 0 ∷ 1 ∷ 11 ∷ 0 ∷ [])
    ∷ at "a00312.html#ad41876f99f190c7488e64ef39c50a23f" (1 ∷ 0 ∷ 0 ∷ 0 ∷ 1 ∷ 11 ∷ 2 ∷ [])
    ∷ at "a00312.html#af4de2514b7778805db3815e8dd6cf09a" (1 ∷ 0 ∷ 0 ∷ 0 ∷ 1 ∷ 11 ∷ 1 ∷ [])
    ∷ at "a00312_source.html" (1 ∷ 0 ∷ 0 ∷ 0 ∷ 1 ∷ 11 ∷ [])
    ∷ at "a00315.html" (1 ∷ 0 ∷ 0 ∷ 0 ∷ 3 ∷ 8 ∷ [])
    ∷ at "a00315.html#a55f3d956bb2ba20b5059e9e25484a47f" (1 ∷ 0 ∷ 0 ∷ 0 ∷ 3 ∷ 8 ∷ 0 ∷ [])
    ∷ at "a00315.html#ad41876f99f190c7488e64ef39c50a23f" (1 ∷ 0 ∷ 0 ∷ 0 ∷ 3 ∷ 8 ∷ 2 ∷ [])
    ∷ at "a00315.html#af4de2514b7778805db3815e8dd6cf09a" (1 ∷ 0 ∷ 0 ∷ 0 ∷ 3 ∷ 8 ∷ 1 ∷ [])
    ∷ at "a00315_source.html" (1 ∷ 0 ∷ 0 ∷ 0 ∷ 3 ∷ 8 ∷ [])
    ∷ at "a00318.html" (1 ∷ 0 ∷ 0 ∷ 0 ∷ 1 ∷ 12 ∷ [])
    ∷ at "a00318.html#a7810930509846d7e6ceb76cd78907fec" (1 ∷ 0 ∷ 0 ∷ 0 ∷ 1 ∷ 12 ∷ 0 ∷ [])
    ∷ at "a00318.html#a7d792e1f5dbf87f5b0daea6eaafc370b" (1 ∷ 0 ∷ 0 ∷ 0 ∷ 1 ∷ 12 ∷ 1 ∷ [])
    ∷ at "a00321.html" (1 ∷ 0 ∷ 0 ∷ 0 ∷ 3 ∷ 9 ∷ [])
    ∷ at "a00321.html#a119db5620d3a2523cdb35399dd218dfc" (1 ∷ 0 ∷ 0 ∷ 0 ∷ 3 ∷ 9 ∷ 1 ∷ [])
    ∷ at "a00321.html#a67af87af758806836ba0a24934fc87b5" (1 ∷ 0 ∷ 0 ∷ 0 ∷ 3 ∷ 9 ∷ 0 ∷ [])
    ∷ at "a00324.html" (1 ∷ 0 ∷ 0 ∷ 0 ∷ 1 ∷ 13 ∷ [])
    ∷ at "a00324.html#a119db5620d3a2523cdb35399dd218dfc" (1 ∷ 0 ∷ 0 ∷ 0 ∷ 1 ∷ 13 ∷ 1 ∷ [])
    ∷ at "a00324.html#a67af87af758806836ba0a24934fc87b5" (1 ∷ 0 ∷ 0 ∷ 0 ∷ 1 ∷ 13 ∷ 0 ∷ [])
    ∷ at "a00327.html" (1 ∷ 0 ∷ 0 ∷ 0 ∷ 3 ∷ 10 ∷ [])
    ∷ at "a00327.html#a7810930509846d7e6ceb76cd78907fec" (1 ∷ 0 ∷ 0 ∷ 0 ∷ 3 ∷ 10 ∷ 0 ∷ [])
    ∷ at "a00327.html#a7d792e1f5dbf87f5b0daea6eaafc370b" (1 ∷ 0 ∷ 0 ∷ 0 ∷ 3 ∷ 10 ∷ 1 ∷ [])
    ∷ at "a00330.html" (1 ∷ 0 ∷ 0 ∷ 0 ∷ 1 ∷ 14 ∷ [])
    ∷ at "a00330.html#a06269ee8ee1275eb9063da1a6fb6ea0e" (1 ∷ 0 ∷ 0 ∷ 0 ∷ 1 ∷ 14 ∷ 7 ∷ [])
    ∷ at "a00330.html#a07bb8b97d4180b8f8b67de90890bafdf" (1 ∷ 0 ∷ 0 ∷ 0 ∷ 1 ∷ 14 ∷ 14 ∷ [])
    ∷ at "a00330.html#a0c705954c7582efdee9daa215694611a" (1 ∷ 0 ∷ 0 ∷ 0 ∷ 1 ∷ 14 ∷ 6 ∷ [])
    ∷ at "a00330.html#a16cdc6ff34afc2122ae164d4ee3a8c50" (1 ∷ 0 ∷ 0 ∷ 0 ∷ 1 ∷ 14 ∷ 12 ∷ [])
    ∷ at "a00330.html#a212e2f1c2162f8a24b156191be16b6cd" (1 ∷ 0 ∷ 0 ∷ 0 ∷ 1 ∷ 14 ∷ 13 ∷ [])
    ∷ at "a00330.html#a2bad5a18d0dcf3bbf70d0eb1b2797044" (1 ∷ 0 ∷ 0 ∷ 0 ∷ 1 ∷ 14 ∷ 11 ∷ [])
    ∷ at "a00330.html#a3b3255e97ad723d1af56cc336b9ba0ff" (1 ∷ 0 ∷ 0 ∷ 0 ∷ 1 ∷ 14 ∷ 3 ∷ [])
    ∷ at "a00330.html#a3ee89701d5bf35415505f4412ed9d8df" (1 ∷ 0 ∷ 0 ∷ 0 ∷ 1 ∷ 14 ∷ 2 ∷ [])
    ∷ at "a00330.html#a61bd4f47896225e10fc347c3896c323f" (1 ∷ 0 ∷ 0 ∷ 0 ∷ 1 ∷ 14 ∷ 15 ∷ [])
    ∷ at "a00330.html#a67af87af758806836ba0a24934fc87b5" (1 ∷ 0 ∷ 0 ∷ 0 ∷ 1 ∷ 14 ∷ 10 ∷ [])
    ∷ at "a00330.html#ab7af60ce6079dfaea8e8589e47eeb8f0" (1 ∷ 0 ∷ 0 ∷ 0 ∷ 1 ∷ 14 ∷ 9 ∷ [])
    ∷ at "a00330.html#ac4a1ad6d5e0eae2f65ab59703847359a" (1 ∷ 0 ∷ 0 ∷ 0 ∷ 1 ∷ 14 ∷ 1 ∷ [])
    ∷ at "a00330.html#acd89d7f040822741e36375ba7bbb2d74" (1 ∷ 0 ∷ 0 ∷ 0 ∷ 1 ∷ 14 ∷ 4 ∷ [])
    ∷ at "a00330.html#ad940608e967c675b53207179377308f5" (1 ∷ 0 ∷ 0 ∷ 0 ∷ 1 ∷ 14 ∷ 8 ∷ [])
    ∷ at "a00330.html#aef1143febac07b5961075f4d76b6cc75" (1 ∷ 0 ∷ 0 ∷ 0 ∷ 1 ∷ 14 ∷ 5 ∷ [])
    ∷ at "a00333.html" (1 ∷ 0 ∷ 0 ∷ 0 ∷ 3 ∷ 11 ∷ [])
    ∷ at "a00333.html#a06269ee8ee1275eb9063da1a6fb6ea0e" (1 ∷ 0 ∷ 0 ∷ 0 ∷ 3 ∷ 11 ∷ 26 ∷ [])
    ∷ at "a00333.html#a07bb8b97d4180b8f8b67de90890bafdf" (1 ∷ 0 ∷ 0 ∷ 0 ∷ 3 ∷ 11 ∷ 34 ∷ [])
    ∷ at "a00333.html#a0c705954c7582efdee9daa215694611a" (1 ∷ 0 ∷ 0 ∷ 0 ∷ 3 ∷ 11 ∷ 25 ∷ [])
    ∷ at "a00333.html#a15a50af941ea5ca0a9517faf2f90b524" (1 ∷ 0 ∷ 0 ∷ 0 ∷ 3 ∷ 11 ∷ 5 ∷ [])
    ∷ at "a00333.html#a16cdc6ff34afc2122ae164d4ee3a8c50" (1 ∷ 0 ∷ 0 ∷ 0 ∷ 3 ∷ 11 ∷ 31 ∷ [])
    ∷ at "a00333.html#a1aecd1c242901cf3c8844fd276c6047a" (1 ∷ 0 ∷ 0 ∷ 0 ∷ 3 ∷ 11 ∷ 1 ∷ [])
    ∷ []
