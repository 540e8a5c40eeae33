-- ===== src/Nav/Spec/Scripts/PartF.antt =====
-- The scripts a00294.js to a00333.js of docs/ta-ref_spec_html.
use mathlib.Core.List.{List, [], ◌∷◌}
use ta_ref.Nav.Tree.{Node}
use ta_ref.Nav.Entry.{leaf, scripted}

unfoldable pub a00294 : List Node
a00294 =
    leaf "__attribute__" "a00294.html#a93b9cf91f7623d6d8b100a3693d6d5e4"
    ∷ leaf "flags2flags" "a00294.html#a44d268544426ce78fedfe1f53d22b028"
    ∷ leaf "get_wc_rng" "a00294.html#aa28943c832365ac4dc1185829a571beb"
    ∷ leaf "GetRelTimeEnd" "a00294.html#a12e0a5703767c19b688f1056ce87518f"
    ∷ leaf "GetRelTimeStart" "a00294.html#a365ac1202478160e1ced5899f65b15c6"
    ∷ leaf "OpenPersistentObject" "a00294.html#a18b21d13c6e44a0c13509efed221f6ff"
    ∷ leaf "set_object_key" "a00294.html#a0137626183f8415fdd7a882877ebf3fb"
    ∷ leaf "TEE_CloseObject" "a00294.html#a333824d79fa9e46b6969bfff7e3a1158"
    ∷ leaf "TEE_CreatePersistentObject" "a00294.html#af73ce780a255e5232dc7196acafebf11"
    ∷ leaf "TEE_GenerateRandom" "a00294.html#aae70ddc633ba20e9e523d23e69df69f0"
    ∷ leaf "TEE_GetObjectInfo1" "a00294.html#aaa89fe8cb6b6e1e7bdfbafe0bd817094"
    ∷ leaf "TEE_GetREETime" "a00294.html#ac2cfc934106a5bc629f0b354b08a30f5"
    ∷ leaf "TEE_GetSystemTime" "a00294.html#a2ce6c25dca4d916c6b1ca40ae3a431e3"
    ∷ leaf "TEE_OpenPersistentObject" "a00294.html#aee5c5b6cfe2cc9ee4a8f84f7d690ccbc"
    ∷ leaf "TEE_ReadObjectData" "a00294.html#a70d944aa12cea2bad255b9bdd30225eb"
    ∷ leaf "TEE_WriteObjectData" "a00294.html#a5a67752d33bbe35cd1442c3fffa4ea25"
    ∷ leaf "rngstr" "a00294.html#a2b3c04c8aee4000b3fc582d3d6e73254"
    ∷ leaf "wc_rng_init" "a00294.html#acc67feac22b919c3b27c87fc5b66af78"
    ∷ []

unfoldable pub a00306 : List Node
a00306 =
    leaf "_strlen" "a00306.html#a67af87af758806836ba0a24934fc87b5"
    ∷ leaf "printf" "a00306.html#a55f3d956bb2ba20b5059e9e25484a47f"
    ∷ leaf "putchar" "a00306.html#af4de2514b7778805db3815e8dd6cf09a"
    ∷ leaf "puts" "a00306.html#ad41876f99f190c7488e64ef39c50a23f"
    ∷ []

unfoldable pub a00309 : List Node
a00309 =
    leaf "_strlen" "a00309.html#a67af87af758806836ba0a24934fc87b5"
    ∷ leaf "printf" "a00309.html#a55f3d956bb2ba20b5059e9e25484a47f"
    ∷ leaf "putchar" "a00309.html#af4de2514b7778805db3815e8dd6cf09a"
    ∷ leaf "puts" "a00309.html#ad41876f99f190c7488e64ef39c50a23f"
    ∷ []

unfoldable pub a00312 : List Node
a00312 =
    leaf "printf" "a00312.html#a55f3d956bb2ba20b5059e9e25484a47f"
    ∷ leaf "putchar" "a00312.html#af4de2514b7778805db3815e8dd6cf09a"
    ∷ leaf "puts" "a00312.html#ad41876f99f190c7488e64ef39c50a23f"
    ∷ []

unfoldable pub a00315 : List Node
a00315 =
    leaf "printf" "a00315.html#a55f3d956bb2ba20b5059e9e25484a47f"
    ∷ leaf "putchar" "a00315.html#af4de2514b7778805db3815e8dd6cf09a"
    ∷ leaf "puts" "a00315.html#ad41876f99f190c7488e64ef39c50a23f"
    ∷ []

unfoldable pub a00318 : List Node
a00318 =
    leaf "trace_printf" "a00318.html#a7810930509846d7e6ceb76cd78907fec"
    ∷ leaf "trace_vprintf" "a00318.html#a7d792e1f5dbf87f5b0daea6eaafc370b"
    ∷ []

unfoldable pub a00321 : List Node
a00321 =
    leaf "_strlen" "a00321.html#a67af87af758806836ba0a24934fc87b5"
    ∷ leaf "tee_printf" "a00321.html#a119db5620d3a2523cdb35399dd218dfc"
    ∷ []

unfoldable pub a00324 : List Node
a00324 =
    leaf "_strlen" "a00324.html#a67af87af758806836ba0a24934fc87b5"
    ∷ leaf "tee_printf" "a00324.html#a119db5620d3a2523cdb35399dd218dfc"
    ∷ []

unfoldable pub a00327 : List Node
a00327 =
    leaf "trace_printf" "a00327.html#a7810930509846d7e6ceb76cd78907fec"
    ∷ leaf "trace_vprintf" "a00327.html#a7d792e1f5dbf87f5b0daea6eaafc370b"
    ∷ []

unfoldable pub a00330 : List Node
a00330 =
    scripted "out_fct_wrap_type" "a00260.html" "a00260"
    ∷ leaf "out_fct_type" "a00330.html#ac4a1ad6d5e0eae2f65ab59703847359a"
    ∷ leaf "_atoi" "a00330.html#a3ee89701d5bf35415505f4412ed9d8df"
    ∷ leaf "_is_digit" "a00330.html#a3b3255e97ad723d1af56cc336b9ba0ff"
    ∷ leaf "_ntoa_format" "a00330.html#acd89d7f040822741e36375ba7bbb2d74"
    ∷ leaf "_ntoa_long" "a00330.html#aef1143febac07b5961075f4d76b6cc75"
    ∷ leaf "_out_buffer" "a00330.html#a0c705954c7582efdee9daa215694611a"
    ∷ leaf "_out_char" "a00330.html#a06269ee8ee1275eb9063da1a6fb6ea0e"
    ∷ leaf "_out_fct" "a00330.html#ad940608e967c675b53207179377308f5"
    ∷ leaf "_out_null" "a00330.html#ab7af60ce6079dfaea8e8589e47eeb8f0"
    ∷ leaf "_strlen" "a00330.html#a67af87af758806836ba0a24934fc87b5"
    ∷ leaf "_vsnprintf" "a00330.html#a2bad5a18d0dcf3bbf70d0eb1b2797044"
    ∷ leaf "fctprintf" "a00330.html#a16cdc6ff34afc2122ae164d4ee3a8c50"
    ∷ leaf "snprintf" "a00330.html#a212e2f1c2162f8a24b156191be16b6cd"
    ∷ leaf "sprintf" "a00330.html#a07bb8b97d4180b8f8b67de90890bafdf"
    ∷ leaf "vsnprintf" "a00330.html#a61bd4f47896225e10fc347c3896c323f"
    ∷ []

unfoldable pub a00333 : List Node
a00333 =
    scripted "out_fct_wrap_type" "a00260.html" "a00260"
    ∷ leaf "_putchar" "a00333.html#a1aecd1c242901cf3c8844fd276c6047a"
    ∷ leaf "FLAGS_CHAR" "a00333.html#a5584c6d116b42ffdf2c2b7b72209cb25"
    ∷ leaf "FLAGS_HASH" "a00333.html#a4e4ed2c9a700bf9cfddabb05debd4790"
    ∷ leaf "FLAGS_LEFT" "a00333.html#ac6c26878acb903cb07de2b9552fec26b"
    ∷ leaf "FLAGS_LONG" "a00333.html#a15a50af941ea5ca0a9517faf2f90b524"
    ∷ leaf "FLAGS_LONG_LONG" "a00333.html#a4ac2d97fe74925064a50628a469403d3"
    ∷ leaf "FLAGS_PLUS" "a00333.html#a3d8b1bd3dd657ac7856e8aa67b170fee"
    ∷ leaf "FLAGS_PRECISION" "a00333.html#a7ffc74d008f9e494649d270668555dd1"
    ∷ leaf "FLAGS_SHORT" "a00333.html#a4e289a20e315f0a470da3f149d33c7a5"
    ∷ leaf "FLAGS_SPACE" "a00333.html#a2c249ce13d36626995f96880028b3d0a"
    ∷ leaf "FLAGS_UPPERCASE" "a00333.html#a738a48de177a2e385f66995685334761"
    ∷ leaf "FLAGS_ZEROPAD" "a00333.html#ad7b04ce70e8c9e609f02c796be254062"
    ∷ leaf "PRINTF_FTOA_BUFFER_SIZE" "a00333.html#af7aeb1c970d5c2bf5fada4eaca516a25"
    ∷ leaf "PRINTF_NTOA_BUFFER_SIZE" "a00333.html#a4278b980717163a8ef983ce3fbf0b9db"
    ∷ leaf "PRINTF_SUPPORT_FLOAT" "a00333.html#ac65831bb84fde6008edd159836e82eed"
    ∷ leaf "PRINTF_SUPPORT_LONG_LONG" "a00333.html#a34aa02fd74c9f366b87312cf708dc9e1"
    ∷ leaf "PRINTF_SUPPORT_PTRDIFF_T" "a00333.html#af341191ed47c98ec35beaa7bb8db8e75"
    ∷ leaf "out_fct_type" "a00333.html#ac4a1ad6d5e0eae2f65ab59703847359a"
    ∷ leaf "_atoi" "a00333.html#a3ee89701d5bf35415505f4412ed9d8df"
    ∷ leaf "_ftoa" "a00333.html#a2c0991970c9075b6e6197c313a1203fc"
    ∷ leaf "_is_digit" "a00333.html#a3b3255e97ad723d1af56cc336b9ba0ff"
    ∷ leaf "_ntoa_format" "a00333.html#acd89d7f040822741e36375ba7bbb2d74"
    ∷ leaf "_ntoa_long" "a00333.html#aef1143febac07b5961075f4d76b6cc75"
    ∷ leaf "_ntoa_long_long" "a00333.html#acf2e41c6171fe92b66260c643098fae2"
    ∷ leaf "_out_buffer" "a00333.html#a0c705954c7582efdee9daa215694611a"
    ∷ leaf "_out_char" "a00333.html#a06269ee8ee1275eb9063da1a6fb6ea0e"
    ∷ leaf "_out_fct" "a00333.html#ad940608e967c675b53207179377308f5"
    ∷ leaf "_out_null" "a00333.html#ab7af60ce6079dfaea8e8589e47eeb8f0"
    ∷ leaf "_strlen" "a00333.html#a67af87af758806836ba0a24934fc87b5"
    ∷ leaf "_vsnprintf" "a00333.html#a2bad5a18d0dcf3bbf70d0eb1b2797044"
    ∷ leaf "fctprintf" "a00333.html#a16cdc6ff34afc2122ae164d4ee3a8c50"
    ∷ leaf "putchar" "a00333.html#af27dcab85ade0935109c58206df1eab9"
    ∷ leaf "snprintf" "a00333.html#a212e2f1c2162f8a24b156191be16b6cd"
    ∷ leaf "sprintf" "a00333.html#a07bb8b97d4180b8f8b67de90890bafdf"
    ∷ leaf "vsnprintf" "a00333.html#a61bd4f47896225e10fc347c3896c323f"
    ∷ []
