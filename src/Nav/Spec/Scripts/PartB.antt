-- ===== src/Nav/Spec/Scripts/PartB.antt =====
-- The scripts a00083.js to a00083.js of docs/ta-ref_spec_html.
use mathlib.Core.List.{List, [], ◌∷◌}
use ta_ref.Nav.Tree.{Node}
use ta_ref.Nav.Entry.{leaf}

unfoldable pub a00083 : List Node
a00083 =
    leaf "TEE_AEDecryptFinal" "a00083.html#a3249061a4b04d968af1fe24ebdcafa94"
    ∷ leaf "TEE_AEEncryptFinal" "a00083.html#ae9b3bb3c35419a914b4c6bc5cda781ab"
    ∷ leaf "TEE_AEInit" "a00083.html#ad4c7d46eaa62f8f8d206a1c075c94882"
    ∷ leaf "TEE_AEUpdate" "a00083.html#afa7320f99bc9f7d2f9a0af79450e7a9b"
    ∷ leaf "TEE_AEUpdateAAD" "a00083.html#a7898745b154d57c77fbb3413eecabed3"
    ∷ leaf "TEE_AllocateOperation" "a00083.html#a92d483e9bef62ca0755c188f12d95746"
    ∷ leaf "TEE_AllocatePersistentObjectEnumerator" "a00083.html#ac2e60d4f84c265ab3c275b562a20c2dc"
    ∷ leaf "TEE_AllocatePropertyEnumerator" "a00083.html#ae3599ef72278f8e54e237bbb2f4d3c78"
    ∷ leaf "TEE_AllocateTransientObject" "a00083.html#a87e501d7abee6d50b5c2c68fde57a1b2"
    ∷ leaf "TEE_AsymmetricDecrypt" "a00083.html#ac1377b23820680cb9b5017a08ee72b80"
    ∷ leaf "TEE_AsymmetricEncrypt" "a00083.html#a5709bc399bf8daf153001544897469ce"
    ∷ leaf "TEE_AsymmetricSignDigest" "a00083.html#a5accdbcb639e2cd1a55f21fe5544a686"
    ∷ leaf "TEE_AsymmetricVerifyDigest" "a00083.html#aadd6434bca67535e4832209e5a449ffa"
    ∷ leaf "TEE_BigIntAdd" "a00083.html#aa982dd6c482aa1cdec532a13fe1ceda5"
    ∷ leaf "TEE_BigIntAddMod" "a00083.html#af972189100f5cdd3de5e0f0a419fca98"
    ∷ leaf "TEE_BigIntCmp" "a00083.html#a6b6b071e283439bea92d55b1d082ee70"
    ∷ leaf "TEE_BigIntCmpS32" "a00083.html#ab08e067dcd07c475a6f13110a5997503"
    ∷ leaf "TEE_BigIntComputeExtendedGcd" "a00083.html#a4b9cdec35240a19d6f784f0159cea109"
    ∷ leaf "TEE_BigIntComputeFMM" "a00083.html#ab2c8616f8e4a126ce8c91ae7c64b69a2"
    ∷ leaf "TEE_BigIntConvertFromFMM" "a00083.html#adf60218e9693cae6d3576c0f2f940473"
    ∷ leaf "TEE_BigIntConvertFromOctetString" "a00083.html#a6812750a279fe080b2b46f685156aabe"
    ∷ leaf "TEE_BigIntConvertFromS32" "a00083.html#a714fe46ada09b8de202ef8107de91f1c"
    ∷ leaf "TEE_BigIntConvertToFMM" "a00083.html#a758eb10a8544eafce2675416ead1d1ea"
    ∷ leaf "TEE_BigIntConvertToOctetString" "a00083.html#a3414eec972e33b501c9fbee1e976f78c"
    ∷ leaf "TEE_BigIntConvertToS32" "a00083.html#a21c7a5c802b4176599556bf502e80183"
    ∷ leaf "TEE_BigIntDiv" "a00083.html#adf77c5c0d620b8c8c5d29e5d5768ebd3"
    ∷ leaf "TEE_BigIntFMMContextSizeInU32" "a00083.html#a589e1930eccaae908db12412864fa728"
    ∷ leaf "TEE_BigIntFMMConvertToBigInt" "a00083.html#a5abc943bbe72008f816f7e78f3af9845"
    ∷ leaf "TEE_BigIntFMMSizeInU32" "a00083.html#ad299348685d99cb01cd82f87e788f71b"
    ∷ leaf "TEE_BigIntGetBit" "a00083.html#a9b1f756b684839a6f06126ea0872d35a"
    ∷ leaf "TEE_BigIntGetBitCount" "a00083.html#a1d4ba0211029b43fa330069cd9181e05"
    ∷ leaf "TEE_BigIntInit" "a00083.html#ac254872f1baa5d86f335da7c43dcbef0"
    ∷ leaf "TEE_BigIntInitFMM" "a00083.html#aefe870eef19172c6e25f3507c3a93875"
    ∷ leaf "TEE_BigIntInitFMMContext" "a00083.html#a181c0351e8794c86166e79e3a311da4a"
    ∷ leaf "TEE_BigIntInvMod" "a00083.html#a21e0fb1f73395811783259cea4924ac3"
    ∷ leaf "TEE_BigIntIsProbablePrime" "a00083.html#a434ef50d7567a0112dd0b5471fabc5d2"
    ∷ leaf "TEE_BigIntMod" "a00083.html#ad0eff5697536a558a84e732c59634597"
    ∷ leaf "TEE_BigIntMul" "a00083.html#a0bf013e7bf7332d8c48dda266323800e"
    ∷ leaf "TEE_BigIntMulMod" "a00083.html#a15e21ada58f629957e7d217a239db2c0"
    ∷ leaf "TEE_BigIntNeg" "a00083.html#a23ddd8d63265670f1d2d3308053cdfc1"
    ∷ leaf "TEE_BigIntRelativePrime" "a00083.html#a1c206c72da5222ee6453ab0d95f7dc19"
    ∷ leaf "TEE_BigIntShiftRight" "a00083.html#ae810ba39222d8913978ddd9c5939f8a9"
    ∷ leaf "TEE_BigIntSquare" "a00083.html#a8ee5d399881165b9fe31c3f5bb0c72a1"
    ∷ leaf "TEE_BigIntSquareMod" "a00083.html#a181b8f6aab855d7fc82c20bb88924ad2"
    ∷ leaf "TEE_BigIntSub" "a00083.html#a2a107b479fba64302465a1f67da531d0"
    ∷ leaf "TEE_BigIntSubMod" "a00083.html#a277768e26e3f63bc630af53d094dda24"
    ∷ leaf "TEE_CheckMemoryAccessRights" "a00083.html#af7ada151b876daff93593868bc57eab9"
    ∷ leaf "TEE_CipherDoFinal" "a00083.html#ae03ad904c4536ad2d194eb54a092e384"
    ∷ leaf "TEE_CipherInit" "a00083.html#a974908e3a136d6da3891367a0863fcbb"
    ∷ leaf "TEE_CipherUpdate" "a00083.html#a071525e4f644911d7d4468f7a8f193cd"
    ∷ leaf "TEE_CloseAndDeletePersistentObject" "a00083.html#a8257d78b7bec1c90e9bd42b1a2857aa9"
    ∷ leaf "TEE_CloseAndDeletePersistentObject1" "a00083.html#a67a4c65ab5e520ac34dec75a30b6b05f"
    ∷ leaf "TEE_CloseObject" "a00083.html#a333824d79fa9e46b6969bfff7e3a1158"
    ∷ leaf "TEE_CloseTASession" "a00083.html#af9d51bf94690a65f43005937ed65635b"
    ∷ leaf "TEE_CopyObjectAttributes" "a00083.html#a55e5a34db840cfdf1f8f01b1f55451c8"
    ∷ leaf "TEE_CopyObjectAttributes1" "a00083.html#ac1c7c9380a331e2a4bf3c69d5eb539ff"
    ∷ leaf "TEE_CopyOperation" "a00083.html#a4eca2209820659cc95756fc85e1a4837"
    ∷ leaf "TEE_CreatePersistentObject" "a00083.html#af73ce780a255e5232dc7196acafebf11"
    ∷ leaf "TEE_DeriveKey" "a00083.html#a349e457b1b5e9de722d43af1bae18c5f"
    ∷ leaf "TEE_DigestDoFinal" "a00083.html#a843b65f4564569843860b4bce5a144b9"
    ∷ leaf "TEE_DigestUpdate" "a00083.html#a6e9ece9dbe0483464277902be82486ef"
    ∷ leaf "TEE_Free" "a00083.html#a0cd97604693fc9a12baddc0d7039abc9"
    ∷ leaf "TEE_FreeOperation" "a00083.html#af5f3a12e4fbaa2ae82d4dadf122ad4cd"
    ∷ leaf "TEE_FreePersistentObjectEnumerator" "a00083.html#aa30d1ee97956d8eab8be1b905620604e"
    ∷ leaf "TEE_FreePropertyEnumerator" "a00083.html#a74dfba6b2a11201f47ce7ca8915ee96a"
    ∷ leaf "TEE_FreeTransientObject" "a00083.html#a825dca146722195fe490bd12bbe8a27f"
    ∷ leaf "TEE_GenerateKey" "a00083.html#ad2065447661a6ccaaba9957bf0c392b0"
    ∷ leaf "TEE_GenerateRandom" "a00083.html#aae70ddc633ba20e9e523d23e69df69f0"
    ∷ leaf "TEE_GetCancellationFlag" "a00083.html#a77190cd7b1199a6d9a7b3399e52a2608"
    ∷ leaf "TEE_GetInstanceData" "a00083.html#aaa50b70b6eff2f1539a1e1b45b01daf6"
    ∷ leaf "TEE_GetNextPersistentObject" "a00083.html#adc0dc44aea3ce4994446bc107a54c0a4"
    ∷ leaf "TEE_GetNextProperty" "a00083.html#a44ce7881aa25b6d28bac1f8ecaf65793"
    ∷ leaf "TEE_GetObjectBufferAttribute" "a00083.html#a23d701214a4c53bc0963622b2909724e"
    ∷ leaf "TEE_GetObjectInfo" "a00083.html#abe433c1557e4290ea7b7b4ee623321c0"
    ∷ leaf "TEE_GetObjectInfo1" "a00083.html#aaa89fe8cb6b6e1e7bdfbafe0bd817094"
    ∷ leaf "TEE_GetObjectValueAttribute" "a00083.html#aed82ff6f713f23948020900109aad5f6"
    ∷ leaf "TEE_GetOperationInfo" "a00083.html#ab0c4a76983dc97122bf9c540458225d0"
    ∷ leaf "TEE_GetOperationInfoMultiple" "a00083.html#a2fc70a7f4072b8fe6abd77721c5ccc1f"
    ∷ leaf "TEE_GetPropertyAsBinaryBlock" "a00083.html#ac42274885ae227734bf66eafe866a4a0"
    ∷ leaf "TEE_GetPropertyAsBool" "a00083.html#abd5c626b74396a70475b42b74ce0271c"
    ∷ leaf "TEE_GetPropertyAsIdentity" "a00083.html#ad38d03ed88e3b4cde1d1e54d9bbfd1fd"
    ∷ leaf "TEE_GetPropertyAsString" "a00083.html#a5e2f9729390de1c4143489e4e92cf80c"
    ∷ leaf "TEE_GetPropertyAsU32" "a00083.html#aa926e6fc7ebdd6eeccdcf689b77ad236"
    ∷ leaf "TEE_GetPropertyAsUUID" "a00083.html#a57fcb978078e1f9cd86cb49dc93f0643"
    ∷ leaf "TEE_GetPropertyName" "a00083.html#a9ba4528c754b003d1d5091e8fc6c2812"
    ∷ leaf "TEE_GetREETime" "a00083.html#ac2cfc934106a5bc629f0b354b08a30f5"
    ∷ leaf "TEE_GetSystemTime" "a00083.html#a2ce6c25dca4d916c6b1ca40ae3a431e3"
    ∷ leaf "TEE_GetTAPersistentTime" "a00083.html#a7dd6370f087bf7051f15931dbf0fa25a"
    ∷ leaf "TEE_InitRefAttribute" "a00083.html#afe152a85c5f39fd64655526b174d579f"
    ∷ leaf "TEE_InitValueAttribute" "a00083.html#a18cecb2f284d0cf5e657a070137cd581"
    ∷ leaf "TEE_InvokeTACommand" "a00083.html#a5c4679789d99b8be60d3bb8996c91119"
    ∷ leaf "TEE_IsAlgorithmSupported" "a00083.html#aea24dd104bb245719ec09f6df2acaf75"
    ∷ leaf "TEE_MACCompareFinal" "a00083.html#abb64d1041b0f996d909f10c1fafd0ccd"
    ∷ leaf "TEE_MACComputeFinal" "a00083.html#a001308a1a5198c1f3d6bbd3f43c68a1e"
    ∷ leaf "TEE_MACInit" "a00083.html#aaca2790ab1df187f3535a55db1336c8f"
    ∷ leaf "TEE_MACUpdate" "a00083.html#abcc46184566df4b45b4a167fe54e5de3"
    ∷ leaf "TEE_Malloc" "a00083.html#a087393fc9dd24ac208f100c386dd02e0"
    ∷ leaf "TEE_MaskCancellation" "a00083.html#a4c1bbb858954ee8e4fc595c478bcc4ac"
    ∷ leaf "TEE_MemCompare" "a00083.html#af8e1c1fb75f05ddd9b94b82e47e663b7"
    ∷ leaf "TEE_MemFill" "a00083.html#a5e2e29c99dee20bf7728b583a49bea0c"
    ∷ leaf "TEE_MemMove" "a00083.html#a6713318482a440babef0b480bd4dc5c6"
    ∷ leaf "TEE_OpenPersistentObject" "a00083.html#aee5c5b6cfe2cc9ee4a8f84f7d690ccbc"
    ∷ leaf "TEE_OpenTASession" "a00083.html#ae08bd2a664e700fa3c5db0d172e38a1b"
    ∷ leaf "TEE_Panic" "a00083.html#a25a6ed042b2e933aeae3c26727987811"
    ∷ leaf "TEE_PopulateTransientObject" "a00083.html#ac0465fb736d92a3fde3a04ea1529d1cc"
    ∷ leaf "TEE_ReadObjectData" "a00083.html#a70d944aa12cea2bad255b9bdd30225eb"
    ∷ leaf "TEE_Realloc" "a00083.html#a93fbbf8c538edd677ff2e013e4b024c4"
    ∷ leaf "TEE_RenamePersistentObject" "a00083.html#a8d40b18030f274b984eb05424128418b"
    ∷ leaf "TEE_ResetOperation" "a00083.html#a2d36adb59a76af1f73090475e98aa4c9"
    ∷ leaf "TEE_ResetPersistentObjectEnumerator" "a00083.html#a201b782eb0b7af3e5d67538672be1431"
    ∷ leaf "TEE_ResetPropertyEnumerator" "a00083.html#a7f362a278388b46830511af110ec4517"
    ∷ leaf "TEE_ResetTransientObject" "a00083.html#ab974376ca95bb0c3e316ad789f33b3c6"
    ∷ leaf "TEE_RestrictObjectUsage" "a00083.html#a2238f36691bb906b642a6ded67af28f4"
    ∷ leaf "TEE_RestrictObjectUsage1" "a00083.html#a6cca6b984c36ed19ce54ff133f99f7f1"
    ∷ leaf "TEE_SeekObjectData" "a00083.html#a84ed96bd63ffbf14179212410b15eab3"
    ∷ leaf "TEE_SetInstanceData" "a00083.html#aeb3c350f87318ea07d282af02767ef23"
    ∷ leaf "TEE_SetOperationKey" "a00083.html#a24d0a83df10ad59bd3e4c98aa70c7a0a"
    ∷ leaf "TEE_SetOperationKey2" "a00083.html#ac7e864db33a3f54b0889b99917cbc794"
    ∷ leaf "TEE_SetTAPersistentTime" "a00083.html#a66d8c7796cd56616e089a248ffce283f"
    ∷ leaf "TEE_StartPersistentObjectEnumerator" "a00083.html#adb6e7616c695e420616c44c76e2ba118"
    ∷ leaf "TEE_StartPropertyEnumerator" "a00083.html#a32323472448048b47c17d7aa0c644361"
    ∷ leaf "TEE_TruncateObjectData" "a00083.html#a0770243df596f28bbffdbe2a09dc1223"
    ∷ leaf "TEE_UnmaskCancellation" "a00083.html#a2f8d4f043c7930b75deb1499270a813f"
    ∷ leaf "TEE_Wait" "a00083.html#a39565a83c197a918d214798a4b5e551a"
    ∷ leaf "TEE_WriteObjectData" "a00083.html#a5a67752d33bbe35cd1442c3fffa4ea25"
    ∷ []
