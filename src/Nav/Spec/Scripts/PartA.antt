-- ===== src/Nav/Spec/Scripts/PartA.antt =====
-- The scripts a00050.js to a00080.js of docs/ta-ref_spec_html.
use mathlib.Core.List.{List, [], ◌∷◌}
use ta_ref.Nav.Tree.{Node}
use ta_ref.Nav.Entry.{branch, leaf, scripted}

unfoldable pub a00050 : List Node
a00050 =
    leaf "TEEC_AllocateSharedMemory" "a00050.html#a8358037528cb0d29d57f1da4fdb12d23"
    ∷ leaf "TEEC_CloseSession" "a00050.html#abbd4e86c7d7a2830b66dd1c455e57708"
    ∷ leaf "TEEC_FinalizeContext" "a00050.html#a8ff39851efe335623922e6f800f3113b"
    ∷ leaf "TEEC_InitializeContext" "a00050.html#a3e9d47511b2b76ec947655708cca039f"
    ∷ leaf "TEEC_OpenSession" "a00050.html#a2e057c67c5ec43b8052ad89809929e61"
    ∷ leaf "TEEC_RegisterSharedMemory" "a00050.html#ae95c1a0a68654f50a280d94581859d76"
    ∷ leaf "TEEC_ReleaseSharedMemory" "a00050.html#af2ef3c0fbde59e7249cf8eb43a36abce"
    ∷ leaf "TEEC_RequestCancellation" "a00050.html#ab0f689a7da4d607e46fe9f8d7dba277c"
    ∷ []

unfoldable pub a00056 : List Node
a00056 = leaf "__attribute__" "a00056.html#a93b9cf91f7623d6d8b100a3693d6d5e4" ∷ []

unfoldable pub a00071 : List Node
a00071 =
    leaf "TEE_AEDecryptFinal" "a00071.html#a3249061a4b04d968af1fe24ebdcafa94"
    ∷ leaf "TEE_AEEncryptFinal" "a00071.html#ae9b3bb3c35419a914b4c6bc5cda781ab"
    ∷ leaf "TEE_AEInit" "a00071.html#ad4c7d46eaa62f8f8d206a1c075c94882"
    ∷ leaf "TEE_AEUpdate" "a00071.html#afa7320f99bc9f7d2f9a0af79450e7a9b"
    ∷ leaf "TEE_AEUpdateAAD" "a00071.html#a7898745b154d57c77fbb3413eecabed3"
    ∷ leaf "TEE_AllocateOperation" "a00071.html#a92d483e9bef62ca0755c188f12d95746"
    ∷ leaf "TEE_AllocateTransientObject" "a00071.html#a87e501d7abee6d50b5c2c68fde57a1b2"
    ∷ leaf "TEE_AsymmetricSignDigest" "a00071.html#a5accdbcb639e2cd1a55f21fe5544a686"
    ∷ leaf "TEE_AsymmetricVerifyDigest" "a00071.html#aadd6434bca67535e4832209e5a449ffa"
    ∷ leaf "TEE_CipherDoFinal" "a00071.html#ae03ad904c4536ad2d194eb54a092e384"
    ∷ leaf "TEE_CipherInit" "a00071.html#a994af593ff8186af8b6c2ed8edd8c389"
    ∷ leaf "TEE_CipherUpdate" "a00071.html#a071525e4f644911d7d4468f7a8f193cd"
    ∷ leaf "TEE_DigestDoFinal" "a00071.html#a843b65f4564569843860b4bce5a144b9"
    ∷ leaf "TEE_DigestUpdate" "a00071.html#a6e9ece9dbe0483464277902be82486ef"
    ∷ leaf "TEE_FreeOperation" "a00071.html#af5f3a12e4fbaa2ae82d4dadf122ad4cd"
    ∷ leaf "TEE_FreeTransientObject" "a00071.html#a825dca146722195fe490bd12bbe8a27f"
    ∷ leaf "TEE_GenerateKey" "a00071.html#ad2065447661a6ccaaba9957bf0c392b0"
    ∷ leaf "TEE_InitRefAttribute" "a00071.html#afe152a85c5f39fd64655526b174d579f"
    ∷ leaf "TEE_InitValueAttribute" "a00071.html#a18cecb2f284d0cf5e657a070137cd581"
    ∷ leaf "TEE_SetOperationKey" "a00071.html#a24d0a83df10ad59bd3e4c98aa70c7a0a"
    ∷ leaf "wolfSSL_Free" "a00071.html#ae89193ba8d16c41b615dda216f13384c"
    ∷ leaf "wolfSSL_Malloc" "a00071.html#a28a4fd049acb6bf502be5a6195baf86f"
    ∷ []

unfoldable pub a00080 : List Node
a00080 =
    scripted "TEE_UUID" "a00140.html" "a00140"
    ∷ scripted "TEE_Identity" "a00144.html" "a00144"
    ∷ scripted "TEE_Param" "a00148.html" "a00148"
    ∷ scripted "TEE_ObjectInfo" "a00160.html" "a00160"
    ∷ scripted "TEE_Attribute" "a00172.html" "a00172"
    ∷ scripted "TEE_OperationInfo" "a00188.html" "a00188"
    ∷ scripted "TEE_OperationInfoKey" "a00192.html" "a00192"
    ∷ scripted "TEE_OperationInfoMultiple" "a00196.html" "a00196"
    ∷ scripted "TEE_Time" "a00200.html" "a00200"
    ∷ scripted "TEE_SEReaderProperties" "a00204.html" "a00204"
    ∷ scripted "TEE_SEAID" "a00208.html" "a00208"
    ∷ leaf "__aligned" "a00080.html#a062d270abecd4e983bf02ed30febb4f0"
    ∷ leaf "TEE_BigInt" "a00080.html#a310c41a3ea70bacf3fc0fb67ca94405e"
    ∷ leaf "TEE_BigIntFMM" "a00080.html#a40cf2de4383adf822f198c07ab8d5f3a"
    ∷ leaf "TEE_ErrorOrigin" "a00080.html#af1b39f1a856c03c4f17a5d77ff7a1f0f"
    ∷ leaf "TEE_ObjectEnumHandle" "a00080.html#a93a3db41b30eea0eefe104eea3e81c4d"
    ∷ leaf "TEE_ObjectHandle" "a00080.html#a9f9bb8e582acc2c79335158932f0b954"
    ∷ leaf "TEE_ObjectType" "a00080.html#a0f5a82f41c1aeb996d5d0b3169047f06"
    ∷ leaf "TEE_OperationHandle" "a00080.html#a003ccda0ce6a2d7889b2933a201e2bd1"
    ∷ leaf "TEE_PropSetHandle" "a00080.html#a773a0ae16cd350bb65e0acd3c2e6a4d6"
    ∷ leaf "TEE_Result" "a00080.html#aa1b64b7b46cd8040d03cb32c6504796a"
    ∷ leaf "TEE_SEChannelHandle" "a00080.html#a48342fd010d3c8ad882d5dfd05cecffa"
    ∷ leaf "TEE_SEReaderHandle" "a00080.html#a34e9460c6f4baa569ee42e9ff18179ee"
    ∷ leaf "TEE_SEServiceHandle" "a00080.html#a1a5d27fdaf557d27b33bbe38aa5129fd"
    ∷ leaf "TEE_SESessionHandle" "a00080.html#a04635613d9083443cbbbc5877eb72741"
    ∷ leaf "TEE_Session" "a00080.html#a1e12baaa5300148f63b001b1fd4f50dd"
    ∷ leaf "TEE_TASessionHandle" "a00080.html#a0b888a3053880d3fb5c9ba7fdffcd68e"
    ∷ branch "TEE_OperationMode" "a00080.html#a6b7a829a612f7bfb5714a6a550bac592" (
        leaf "TEE_MODE_ENCRYPT"
          "a00080.html#a6b7a829a612f7bfb5714a6a550bac592ae986e0ac521db4f424b1c1fae66778c9"
        ∷ leaf "TEE_MODE_DECRYPT"
            "a00080.html#a6b7a829a612f7bfb5714a6a550bac592aa20104f46a28d0fe8596fec000b93fb0"
        ∷ leaf "TEE_MODE_SIGN"
            "a00080.html#a6b7a829a612f7bfb5714a6a550bac592a96f810c660ff068a087065c6769c0655"
        ∷ leaf "TEE_MODE_VERIFY"
            "a00080.html#a6b7a829a612f7bfb5714a6a550bac592af254d3515d5c4075989a785a568612e3"
        ∷ leaf "TEE_MODE_MAC"
            "a00080.html#a6b7a829a612f7bfb5714a6a550bac592a2f3dbf0c7c0373015cf75946564c26f4"
        ∷ leaf "TEE_MODE_DIGEST"
            "a00080.html#a6b7a829a612f7bfb5714a6a550bac592a14fd1dd01b612be722995b8753a9ced3"
        ∷ leaf "TEE_MODE_DERIVE"
            "a00080.html#a6b7a829a612f7bfb5714a6a550bac592a7f379c000fe1ffe48160acae8cdab73a"
        ∷ [])
    ∷ branch "TEE_Whence" "a00080.html#a1c088b4398b0d8b6df9c871deaa81ab8" (
        leaf "TEE_DATA_SEEK_SET"
          "a00080.html#a1c088b4398b0d8b6df9c871deaa81ab8a283bec96896cd01f08089e9217ab0071"
        ∷ leaf "TEE_DATA_SEEK_CUR"
            "a00080.html#a1c088b4398b0d8b6df9c871deaa81ab8a58d66a0d10ad95ec3b1e2bd8ec76c71c"
        ∷ leaf "TEE_DATA_SEEK_END"
            "a00080.html#a1c088b4398b0d8b6df9c871deaa81ab8a3a546e4bb166976552cf4173a9780fe7"
        ∷ [])
    ∷ []
