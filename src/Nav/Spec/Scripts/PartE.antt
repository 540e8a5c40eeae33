-- ===== src/Nav/Spec/Scripts/PartE.antt =====
-- The scripts a00244.js to a00291.js of docs/ta-ref_spec_html.
use mathlib.Core.List.{List, [], ◌∷◌}
use ta_ref.Nav.Tree.{Node}
use ta_ref.Nav.Entry.{leaf}

unfoldable pub a00244 : List Node
a00244 =
    leaf "params" "a00244.html#a93f9e0ac48cbc3f9147e68bef96763c6"
    ∷ leaf "paramTypes" "a00244.html#afd2f1c406a61de0f0595824295bcb050"
    ∷ leaf "session" "a00244.html#a0130fb0963c09a80ce48a909b385aba5"
    ∷ leaf "started" "a00244.html#a7eae7fcad883d4d78c9daef00fe08e6c"
    ∷ []

unfoldable pub a00248 : List Node
a00248 =
    leaf "err" "a00248.html#a35c50c64b71cf15cf96197ea8a28c3bd"
    ∷ leaf "msg" "a00248.html#ae718e729383388ca41bb7d69bf560669"
    ∷ leaf "sug" "a00248.html#a93545de6afcf5b4531df73696b3e96ce"
    ∷ []

unfoldable pub a00252 : List Node
a00252 =
    leaf "aectx" "a00252.html#a73b1d29239767dedf35599f4a525f5a0"
    ∷ leaf "aegcm_state" "a00252.html#a2b358563c6e3266e010a546c28272aa5"
    ∷ leaf "aegcmctx" "a00252.html#a088a6a47110be1eca4f95d265adcc02e"
    ∷ leaf "aeiv" "a00252.html#a120191be0e7e0d4e4519a1637a335fbe"
    ∷ leaf "aekey" "a00252.html#a94e3ab00a0698e2b96726d9d9047f8f1"
    ∷ leaf "alg" "a00252.html#ad4d817ab632c1a0476dbac5b15152a30"
    ∷ leaf "ctx" "a00252.html#aae0709321031fe9643187ff4e83e45be"
    ∷ leaf "flags" "a00252.html#a1186aa17d0f7fed7f6e70e9f2c3c75d8"
    ∷ leaf "mode" "a00252.html#ad7f5841dcfc17fef658ad5db15ea9b89"
    ∷ leaf "prikey" "a00252.html#a47d698601ceb067d2685808c71c400bd"
    ∷ leaf "pubkey" "a00252.html#a791a8c89cbaa2a356e5fba1bb55aa67e"
    ∷ []

unfoldable pub a00256 : List Node
a00256 =
    leaf "desc" "a00256.html#a332b861b97a0354bb79a90e4b94044fc"
    ∷ leaf "flags" "a00256.html#a9b13de9861e399b047369d9f87add9b9"
    ∷ leaf "persist_ctx" "a00256.html#aa63c199c890e5544362a74c0a1a54f18"
    ∷ leaf "persist_iv" "a00256.html#ac2eaf70b7b3cbecf1f6822d0abea10cf"
    ∷ leaf "private_key" "a00256.html#aed783a84af756c09298ba1c1db758d24"
    ∷ leaf "public_key" "a00256.html#afda394bd9ce7437f0d977849f174355e"
    ∷ leaf "type" "a00256.html#a8365fd20396e3067525bf1de1699ad1c"
    ∷ []

unfoldable pub a00260 : List Node
a00260 =
    leaf "arg" "a00260.html#abde90c830e321b8198f04ba69e07ab50"
    ∷ leaf "fct" "a00260.html#a199f2657cebba34be43baf497cc5f3f0"
    ∷ []

unfoldable pub a00261 : List Node
a00261 =
    leaf "crt_end" "a00261.html#a4e6fb3d8b1edcc908a4603d4aa7aef03"
    ∷ leaf "__init_array_start" "a00261.html#a59373f42ae455344fede3a006d239318"
    ∷ leaf "aligned" "a00261.html#a46fa2dbb047795a353ed2287f3b8eba8"
    ∷ leaf "fini_array" "a00261.html#af2fac2d3c8acad4009c7eabbbfd9908e"
    ∷ leaf "init_array" "a00261.html#ae9907f0900630263f50fd895ed8a5919"
    ∷ []

unfoldable pub a00264 : List Node
a00264 =
    leaf "crt_end" "a00264.html#a4e6fb3d8b1edcc908a4603d4aa7aef03"
    ∷ leaf "__init_array_start" "a00264.html#a59373f42ae455344fede3a006d239318"
    ∷ leaf "aligned" "a00264.html#a46fa2dbb047795a353ed2287f3b8eba8"
    ∷ leaf "fini_array" "a00264.html#af2fac2d3c8acad4009c7eabbbfd9908e"
    ∷ leaf "init_array" "a00264.html#ae9907f0900630263f50fd895ed8a5919"
    ∷ []

unfoldable pub a00267 : List Node
a00267 =
    leaf "crt_begin" "a00267.html#a2a2d1010d09d0f0280aa875f596e0741"
    ∷ leaf "crt_end" "a00267.html#a4e6fb3d8b1edcc908a4603d4aa7aef03"
    ∷ leaf "main" "a00267.html#a840291bc02cba5474a4cb46a9b9566fe"
    ∷ []

unfoldable pub a00270 : List Node
a00270 =
    leaf "crt_begin" "a00270.html#a2a2d1010d09d0f0280aa875f596e0741"
    ∷ leaf "crt_end" "a00270.html#a4e6fb3d8b1edcc908a4603d4aa7aef03"
    ∷ leaf "main" "a00270.html#a840291bc02cba5474a4cb46a9b9566fe"
    ∷ []

unfoldable pub a00273 : List Node
a00273 = leaf "ocall_print_string_wrapper" "a00273.html#a91eb2c1ee7fb81800ddd298ad93e4047" ∷ []

unfoldable pub a00276 : List Node
a00276 = leaf "ocall_print_string_wrapper" "a00276.html#a91eb2c1ee7fb81800ddd298ad93e4047" ∷ []

unfoldable pub a00279 : List Node
a00279 = leaf "ocall_print_string_wrapper" "a00279.html#a91eb2c1ee7fb81800ddd298ad93e4047" ∷ []

unfoldable pub a00282 : List Node
a00282 = leaf "ocall_print_string_wrapper" "a00282.html#a91eb2c1ee7fb81800ddd298ad93e4047" ∷ []

unfoldable pub a00285 : List Node
a00285 =
    leaf "eapp_entry" "a00285.html#a004a86ca4c8797352e0e0ae7f3eeb4f0"
    ∷ leaf "TA_InvokeCommandEntryPoint" "a00285.html#ac4a79cc8f6845c2de668bd5bd68fd553"
    ∷ []

unfoldable pub a00288 : List Node
a00288 = leaf "__attribute__" "a00288.html#af9aace1b44b73111e15aa39f06f43456" ∷ []

unfoldable pub a00291 : List Node
a00291 =
    leaf "flags2flags" "a00291.html#a44d268544426ce78fedfe1f53d22b028"
    ∷ leaf "get_wc_rng" "a00291.html#aba17145211fbee9e11cbbd79a8342566"
    ∷ leaf "GetRelTimeEnd" "a00291.html#a12e0a5703767c19b688f1056ce87518f"
    ∷ leaf "GetRelTimeStart" "a00291.html#a365ac1202478160e1ced5899f65b15c6"
    ∷ leaf "OpenPersistentObject" "a00291.html#a18b21d13c6e44a0c13509efed221f6ff"
    ∷ leaf "set_object_key" "a00291.html#a54b8a057aeabc35229a18d654ddd768d"
    ∷ leaf "TEE_CloseObject" "a00291.html#a333824d79fa9e46b6969bfff7e3a1158"
    ∷ leaf "TEE_CreatePersistentObject" "a00291.html#af73ce780a255e5232dc7196acafebf11"
    ∷ leaf "TEE_Free" "a00291.html#a0cd97604693fc9a12baddc0d7039abc9"
    ∷ leaf "TEE_GenerateRandom" "a00291.html#aae70ddc633ba20e9e523d23e69df69f0"
    ∷ leaf "TEE_GetObjectInfo1" "a00291.html#aaa89fe8cb6b6e1e7bdfbafe0bd817094"
    ∷ leaf "TEE_GetREETime" "a00291.html#ac2cfc934106a5bc629f0b354b08a30f5"
    ∷ leaf "TEE_GetSystemTime" "a00291.html#a2ce6c25dca4d916c6b1ca40ae3a431e3"
    ∷ leaf "TEE_Malloc" "a00291.html#a087393fc9dd24ac208f100c386dd02e0"
    ∷ leaf "TEE_OpenPersistentObject" "a00291.html#aee5c5b6cfe2cc9ee4a8f84f7d690ccbc"
    ∷ leaf "TEE_ReadObjectData" "a00291.html#a70d944aa12cea2bad255b9bdd30225eb"
    ∷ leaf "TEE_Realloc" "a00291.html#a93fbbf8c538edd677ff2e013e4b024c4"
    ∷ leaf "TEE_WriteObjectData" "a00291.html#a5a67752d33bbe35cd1442c3fffa4ea25"
    ∷ leaf "wc_ocall_genseed" "a00291.html#a50ee30b06c127961e73a9333fbf47172"
    ∷ leaf "rngstr" "a00291.html#a2b3c04c8aee4000b3fc582d3d6e73254"
    ∷ leaf "wc_rng_init" "a00291.html#acc67feac22b919c3b27c87fc5b66af78"
    ∷ []
