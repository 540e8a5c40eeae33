-- ===== src/Nav/Spec/Scripts/PartC.antt =====
-- The scripts a00086.js to a00144.js of docs/ta-ref_spec_html.
use mathlib.Core.List.{List, [], ◌∷◌}
use ta_ref.Nav.Tree.{Node}
use ta_ref.Nav.Entry.{leaf, scripted}

unfoldable pub a00086 : List Node
a00086 =
    leaf "__attribute__" "a00086.html#abe4e96ad3ef09baf69af6684ff52dce5"
    ∷ leaf "GetRelTimeEnd" "a00086.html#a12e0a5703767c19b688f1056ce87518f"
    ∷ leaf "GetRelTimeStart" "a00086.html#a365ac1202478160e1ced5899f65b15c6"
    ∷ leaf "TEE_AEDecryptFinal" "a00086.html#a3249061a4b04d968af1fe24ebdcafa94"
    ∷ leaf "TEE_AEEncryptFinal" "a00086.html#ae9b3bb3c35419a914b4c6bc5cda781ab"
    ∷ leaf "TEE_AEInit" "a00086.html#ad4c7d46eaa62f8f8d206a1c075c94882"
    ∷ leaf "TEE_AEUpdate" "a00086.html#afa7320f99bc9f7d2f9a0af79450e7a9b"
    ∷ leaf "TEE_AEUpdateAAD" "a00086.html#a7898745b154d57c77fbb3413eecabed3"
    ∷ leaf "TEE_AllocateOperation" "a00086.html#a92d483e9bef62ca0755c188f12d95746"
    ∷ leaf "TEE_AllocateTransientObject" "a00086.html#a87e501d7abee6d50b5c2c68fde57a1b2"
    ∷ leaf "TEE_AsymmetricSignDigest" "a00086.html#a5accdbcb639e2cd1a55f21fe5544a686"
    ∷ leaf "TEE_AsymmetricVerifyDigest" "a00086.html#aadd6434bca67535e4832209e5a449ffa"
    ∷ leaf "TEE_CipherInit" "a00086.html#a994af593ff8186af8b6c2ed8edd8c389"
    ∷ leaf "TEE_CipherUpdate" "a00086.html#a071525e4f644911d7d4468f7a8f193cd"
    ∷ leaf "TEE_CloseObject" "a00086.html#a333824d79fa9e46b6969bfff7e3a1158"
    ∷ leaf "TEE_CreatePersistentObject" "a00086.html#af73ce780a255e5232dc7196acafebf11"
    ∷ leaf "TEE_DigestDoFinal" "a00086.html#a843b65f4564569843860b4bce5a144b9"
    ∷ leaf "TEE_DigestUpdate" "a00086.html#a6e9ece9dbe0483464277902be82486ef"
    ∷ leaf "TEE_FreeOperation" "a00086.html#af5f3a12e4fbaa2ae82d4dadf122ad4cd"
    ∷ leaf "TEE_FreeTransientObject" "a00086.html#a825dca146722195fe490bd12bbe8a27f"
    ∷ leaf "TEE_GenerateKey" "a00086.html#ad2065447661a6ccaaba9957bf0c392b0"
    ∷ leaf "TEE_GenerateRandom" "a00086.html#aae70ddc633ba20e9e523d23e69df69f0"
    ∷ leaf "TEE_GetObjectInfo1" "a00086.html#aaa89fe8cb6b6e1e7bdfbafe0bd817094"
    ∷ leaf "TEE_GetREETime" "a00086.html#ac2cfc934106a5bc629f0b354b08a30f5"
    ∷ leaf "TEE_GetSystemTime" "a00086.html#a2ce6c25dca4d916c6b1ca40ae3a431e3"
    ∷ leaf "TEE_InitRefAttribute" "a00086.html#afe152a85c5f39fd64655526b174d579f"
    ∷ leaf "TEE_InitValueAttribute" "a00086.html#a18cecb2f284d0cf5e657a070137cd581"
    ∷ leaf "TEE_OpenPersistentObject" "a00086.html#aee5c5b6cfe2cc9ee4a8f84f7d690ccbc"
    ∷ leaf "TEE_ReadObjectData" "a00086.html#a70d944aa12cea2bad255b9bdd30225eb"
    ∷ leaf "TEE_SetOperationKey" "a00086.html#a24d0a83df10ad59bd3e4c98aa70c7a0a"
    ∷ leaf "TEE_WriteObjectData" "a00086.html#a5a67752d33bbe35cd1442c3fffa4ea25"
    ∷ []

unfoldable pub a00089 : List Node
a00089 =
    scripted "TEEC_Context" "a00212.html" "a00212"
    ∷ scripted "TEEC_UUID" "a00216.html" "a00216"
    ∷ scripted "TEEC_SharedMemory" "a00220.html" "a00220"
    ∷ scripted "TEEC_TempMemoryReference" "a00224.html" "a00224"
    ∷ scripted "TEEC_RegisteredMemoryReference" "a00228.html" "a00228"
    ∷ scripted "TEEC_Value" "a00232.html" "a00232"
    ∷ scripted "TEEC_Parameter" "a00236.html" "a00236"
    ∷ scripted "TEEC_Session" "a00240.html" "a00240"
    ∷ scripted "TEEC_Operation" "a00244.html" "a00244"
    ∷ leaf "TEEC_Result" "a00089.html#a95ece7e03b3154198e554f847b4b0211"
    ∷ leaf "TEEC_AllocateSharedMemory" "a00089.html#a8358037528cb0d29d57f1da4fdb12d23"
    ∷ leaf "TEEC_CloseSession" "a00089.html#abbd4e86c7d7a2830b66dd1c455e57708"
    ∷ leaf "TEEC_FinalizeContext" "a00089.html#a8ff39851efe335623922e6f800f3113b"
    ∷ leaf "TEEC_InitializeContext" "a00089.html#a3e9d47511b2b76ec947655708cca039f"
    ∷ leaf "TEEC_InvokeCommand" "a00089.html#a33d421ce57c64600db759fe55bd0541e"
    ∷ leaf "TEEC_OpenSession" "a00089.html#a2e057c67c5ec43b8052ad89809929e61"
    ∷ leaf "TEEC_RegisterSharedMemory" "a00089.html#ae95c1a0a68654f50a280d94581859d76"
    ∷ leaf "TEEC_ReleaseSharedMemory" "a00089.html#af2ef3c0fbde59e7249cf8eb43a36abce"
    ∷ leaf "TEEC_RequestCancellation" "a00089.html#ab0f689a7da4d607e46fe9f8d7dba277c"
    ∷ []

unfoldable pub a00092 : List Node
a00092 =
    leaf "dhex_dump" "a00092.html#a6ae309735ee1fed9decc4e537dcc240d"
    ∷ leaf "trace_ext_get_thread_id" "a00092.html#a8675158a59c5041a3bd82a3e916d8e17"
    ∷ leaf "trace_ext_puts" "a00092.html#aadb9bac764034588d3f2279f1453f8c0"
    ∷ leaf "trace_get_level" "a00092.html#a4fc6b18371df36a1ece74f1b0465a1ed"
    ∷ leaf "trace_printf" "a00092.html#a94cceab502088c7e86af3599dd7de87b"
    ∷ leaf "trace_set_level" "a00092.html#a35b9c5a80a47eb5089240614f75d35ca"
    ∷ leaf "trace_ext_prefix" "a00092.html#a5af2a639fea54768ed5428cb4f8bbb8c"
    ∷ leaf "trace_level" "a00092.html#a5a9bb49b93f61cb0227d351713cfe8ea"
    ∷ []

unfoldable pub a00101 : List Node
a00101 =
    leaf "TEE_CacheClean" "a00101.html#ad3d0c07600b6ef481bb33eb79a4303ff"
    ∷ leaf "TEE_CacheFlush" "a00101.html#a24ca7e88f5a30fec143f97a1327359ef"
    ∷ leaf "TEE_CacheInvalidate" "a00101.html#a90aa98d624809145c52042b6d74a70e6"
    ∷ leaf "tee_map_zi" "a00101.html#ac20b2f63bf136471c73bdf079a0b9d99"
    ∷ leaf "tee_unmap" "a00101.html#a47b84a3c3095eda1a3fddf9e7837bb20"
    ∷ leaf "tee_user_mem_check_heap" "a00101.html#a27d93f6be16b56ff551b713827fa631b"
    ∷ leaf "tee_user_mem_mark_heap" "a00101.html#afa03f3b310aa10326ee979379b6705c8"
    ∷ leaf "tee_uuid_from_str" "a00101.html#ac923f71f15df56d5828fd94055091c5b"
    ∷ []

unfoldable pub a00104 : List Node
a00104 =
    leaf "GP_ASSERT" "a00104.html#a9424e624a5e3583781568f5bb092d2fa"
    ∷ leaf "tee_printf" "a00104.html#a119db5620d3a2523cdb35399dd218dfc"
    ∷ []

unfoldable pub a00113 : List Node
a00113 =
    leaf "TA_CloseSessionEntryPoint" "a00113.html#a7e2a0d6b80182c6589b4a53f0530b549"
    ∷ leaf "TA_CreateEntryPoint" "a00113.html#a9489e4c117de7d55518be7f9983df478"
    ∷ leaf "TA_DestroyEntryPoint" "a00113.html#aa5862d7225f9472804aae4d55e87a6ab"
    ∷ leaf "TA_InvokeCommandEntryPoint" "a00113.html#acc562b6733782c0965a37f697ebb20fc"
    ∷ leaf "TA_OpenSessionEntryPoint" "a00113.html#a69014edd979110e3907a47bbf251489b"
    ∷ []

unfoldable pub a00116 : List Node
a00116 =
    scripted "_sgx_errlist_t" "a00248.html" "a00248"
    ∷ leaf "sgx_errlist_t" "a00116.html#a61e189da16d0f6e25a99b95578e47bd2"
    ∷ leaf "global_eid" "a00116.html#a834fd6ca9d6a5d58fb5d5651a17c7e24"
    ∷ leaf "sgx_errlist" "a00116.html#a0439b587ccbbf840ae554d112543c38b"
    ∷ []

unfoldable pub a00122 : List Node
a00122 =
    leaf "_sanctum_dev_public_key" "a00122.html#aac4c6e63829bd59132735f04822ab316"
    ∷ leaf "_sanctum_dev_public_key_len" "a00122.html#a1b5789e1ce77c1a87c7e76b7791b455f"
    ∷ leaf "_sanctum_dev_secret_key" "a00122.html#a414ca01e5a7ab1682647f105452f108d"
    ∷ leaf "_sanctum_dev_secret_key_len" "a00122.html#ad20f1506f9c3fb7261f560dcb9a9360f"
    ∷ []

unfoldable pub a00128 : List Node
a00128 =
    leaf "data" "a00128.html#a54ed2bc56245d4c8137ec0dc7fdde4b5"
    ∷ leaf "data_len" "a00128.html#a91bf1391adf1c705e9d1e6dbba195f32"
    ∷ leaf "hash" "a00128.html#a4c27dccaed93db331b221e2214259842"
    ∷ leaf "signature" "a00128.html#ab2cd270427e8e6d1bb2c290f1116ed0b"
    ∷ []

unfoldable pub a00132 : List Node
a00132 =
    leaf "hash" "a00132.html#a69ec422c9a6cc8b16e9c638e185051da"
    ∷ leaf "public_key" "a00132.html#a0a214b0c7dd1e4d5ce2e9526110c4fa3"
    ∷ leaf "signature" "a00132.html#a4f51fc6e09ab0c53a83123a4da56e959"
    ∷ []

unfoldable pub a00136 : List Node
a00136 =
    leaf "dev_public_key" "a00136.html#a3fb7a865631a190ad02f612fc25da4d8"
    ∷ leaf "enclave" "a00136.html#aa754d0cffa449e9618d0ae0554a186be"
    ∷ leaf "sm" "a00136.html#adc3027d84a05d24ff1753c0e9426e823"
    ∷ []

unfoldable pub a00140 : List Node
a00140 =
    leaf "clockSeqAndNode" "a00140.html#aa97da60dc4d26bde2c853b067cec3537"
    ∷ leaf "timeHiAndVersion" "a00140.html#afc9e9d0c299f7e81fbed34b2dc26633d"
    ∷ leaf "timeLow" "a00140.html#a4e18d5f060fc4b0858b401c5ba140439"
    ∷ leaf "timeMid" "a00140.html#a3f3bc50e0403f69548ec717086518c0c"
    ∷ []

unfoldable pub a00144 : List Node
a00144 =
    leaf "login" "a00144.html#a52584626d8e5a41c8fbd6fbbd9b85077"
    ∷ leaf "uuid" "a00144.html#a108f022f766173cff3f954cc6272e9b2"
    ∷ []
