-- ===== src/Nav/Spec/Scripts/PartG.antt =====
-- The scripts annotated_dup.js to globals_func.js of docs/ta-ref_spec_html.
use mathlib.Core.List.{List, [], ◌∷◌}
use ta_ref.Nav.Tree.{Node}
use ta_ref.Nav.Entry.{branch, leaf, scripted}

unfoldable pub annotated_dup : List Node
annotated_dup =
    scripted "__TEE_ObjectHandle" "a00256.html" "a00256"
    ∷ scripted "__TEE_OperationHandle" "a00252.html" "a00252"
    ∷ scripted "_sgx_errlist_t" "a00248.html" "a00248"
    ∷ scripted "enclave_report" "a00128.html" "a00128"
    ∷ scripted "out_fct_wrap_type" "a00260.html" "a00260"
    ∷ scripted "report" "a00136.html" "a00136"
    ∷ scripted "sm_report" "a00132.html" "a00132"
    ∷ scripted "TEE_Attribute" "a00172.html" "a00172"
    ∷ scripted "TEE_Identity" "a00144.html" "a00144"
    ∷ scripted "TEE_ObjectInfo" "a00160.html" "a00160"
    ∷ scripted "TEE_OperationInfo" "a00188.html" "a00188"
    ∷ scripted "TEE_OperationInfoKey" "a00192.html" "a00192"
    ∷ scripted "TEE_OperationInfoMultiple" "a00196.html" "a00196"
    ∷ scripted "TEE_Param" "a00148.html" "a00148"
    ∷ scripted "TEE_SEAID" "a00208.html" "a00208"
    ∷ scripted "TEE_SEReaderProperties" "a00204.html" "a00204"
    ∷ scripted "TEE_Time" "a00200.html" "a00200"
    ∷ scripted "TEE_UUID" "a00140.html" "a00140"
    ∷ scripted "TEEC_Context" "a00212.html" "a00212"
    ∷ scripted "TEEC_Operation" "a00244.html" "a00244"
    ∷ scripted "TEEC_Parameter" "a00236.html" "a00236"
    ∷ scripted "TEEC_RegisteredMemoryReference" "a00228.html" "a00228"
    ∷ scripted "TEEC_Session" "a00240.html" "a00240"
    ∷ scripted "TEEC_SharedMemory" "a00220.html" "a00220"
    ∷ scripted "TEEC_TempMemoryReference" "a00224.html" "a00224"
    ∷ scripted "TEEC_UUID" "a00216.html" "a00216"
    ∷ scripted "TEEC_Value" "a00232.html" "a00232"
    ∷ []

unfoldable pub dir_17edc2d27dad8bf4bcee8d792b0504f2 : List Node
dir_17edc2d27dad8bf4bcee8d792b0504f2 = leaf "tee_api_tee_types.h" "a00300.html" ∷ []

unfoldable pub dir_766553b45c2595ee373ab9cd46c1b7b4 : List Node
dir_766553b45c2595ee373ab9cd46c1b7b4 =
    scripted "crt.c" "a00264.html" "a00264"
    ∷ scripted "crt.h" "a00270.html" "a00270"
    ∷ scripted "ocall_wrapper.c" "a00276.html" "a00276"
    ∷ scripted "ocall_wrapper.h" "a00282.html" "a00282"
    ∷ scripted "startup.c" "a00288.html" "a00288"
    ∷ scripted "tee-internal-api.c" "a00294.html" "a00294"
    ∷ branch "tee_api_tee_types.h" "a00303.html" (
        scripted "__TEE_OperationHandle" "a00252.html" "a00252"
        ∷ scripted "__TEE_ObjectHandle" "a00256.html" "a00256"
        ∷ [])
    ∷ scripted "tools.c" "a00309.html" "a00309"
    ∷ scripted "tools.h" "a00315.html" "a00315"
    ∷ scripted "trace.c" "a00321.html" "a00321"
    ∷ scripted "trace2.c" "a00327.html" "a00327"
    ∷ scripted "vsnprintf.c" "a00333.html" "a00333"
    ∷ []

unfoldable pub dir_777eb751ba0556a74a781f1965b690d9 : List Node
dir_777eb751ba0556a74a781f1965b690d9 =
    leaf "compiler.h" "a00077.html"
    ∷ scripted "config_ref_ta.h" "a00104.html" "a00104"
    ∷ branch "report.h" "a00074.html" (
        scripted "enclave_report" "a00128.html" "a00128"
        ∷ scripted "sm_report" "a00132.html" "a00132"
        ∷ scripted "report" "a00136.html" "a00136"
        ∷ [])
    ∷ leaf "tee-common.h" "a00095.html"
    ∷ scripted "tee-ta-internal.h" "a00086.html" "a00086"
    ∷ scripted "tee_api.h" "a00083.html" "a00083"
    ∷ leaf "tee_api_defines.h" "a00098.html"
    ∷ leaf "tee_api_defines_extensions.h" "a00119.html"
    ∷ scripted "tee_api_types.h" "a00080.html" "a00080"
    ∷ scripted "tee_client_api.h" "a00089.html" "a00089"
    ∷ leaf "tee_internal_api.h" "a00110.html"
    ∷ scripted "tee_internal_api_extensions.h" "a00101.html" "a00101"
    ∷ scripted "tee_ta_api.h" "a00113.html" "a00113"
    ∷ scripted "test_dev_key.h" "a00122.html" "a00122"
    ∷ scripted "trace.h" "a00092.html" "a00092"
    ∷ leaf "trace_levels.h" "a00107.html"
    ∷ scripted "types.h" "a00116.html" "a00116"
    ∷ []

unfoldable pub dir_d7a110bb8765aa85a3c6cafeaf54b8ea : List Node
dir_d7a110bb8765aa85a3c6cafeaf54b8ea =
    scripted "crt.c" "a00261.html" "a00261"
    ∷ scripted "crt.h" "a00267.html" "a00267"
    ∷ scripted "ocall_wrapper.c" "a00273.html" "a00273"
    ∷ scripted "ocall_wrapper.h" "a00279.html" "a00279"
    ∷ leaf "random.h" "a00029.html"
    ∷ scripted "startup.c" "a00285.html" "a00285"
    ∷ scripted "tee-internal-api-machine.c" "a00056.html" "a00056"
    ∷ scripted "tee-internal-api.c" "a00291.html" "a00291"
    ∷ branch "tee_api_tee_types.h" "a00297.html" (
        scripted "__TEE_OperationHandle" "a00252.html" "a00252"
        ∷ scripted "__TEE_ObjectHandle" "a00256.html" "a00256"
        ∷ [])
    ∷ scripted "teec_stub.c" "a00050.html" "a00050"
    ∷ scripted "tools.c" "a00306.html" "a00306"
    ∷ scripted "tools.h" "a00312.html" "a00312"
    ∷ scripted "trace.c" "a00318.html" "a00318"
    ∷ scripted "trace2.c" "a00324.html" "a00324"
    ∷ scripted "vsnprintf.c" "a00330.html" "a00330"
    ∷ []

unfoldable pub dir_f46799117fa6d4670f313b2ab4ad8389 : List Node
dir_f46799117fa6d4670f313b2ab4ad8389 =
    scripted "include" "dir_777eb751ba0556a74a781f1965b690d9.html"
      "dir_777eb751ba0556a74a781f1965b690d9"
    ∷ scripted "keystone" "dir_d7a110bb8765aa85a3c6cafeaf54b8ea.html"
        "dir_d7a110bb8765aa85a3c6cafeaf54b8ea"
    ∷ scripted "optee" "dir_17edc2d27dad8bf4bcee8d792b0504f2.html"
        "dir_17edc2d27dad8bf4bcee8d792b0504f2"
    ∷ scripted "sgx" "dir_766553b45c2595ee373ab9cd46c1b7b4.html"
        "dir_766553b45c2595ee373ab9cd46c1b7b4"
    ∷ scripted "tee-internal-api-cryptlib.c" "a00071.html" "a00071"
    ∷ []

unfoldable pub dir_f9530a031e82794186de7c9c8fdc2b6f : List Node
dir_f9530a031e82794186de7c9c8fdc2b6f =
    scripted "api" "dir_f46799117fa6d4670f313b2ab4ad8389.html"
      "dir_f46799117fa6d4670f313b2ab4ad8389"
    ∷ []

unfoldable pub files_dup : List Node
files_dup =
    scripted "ta-ref" "dir_f9530a031e82794186de7c9c8fdc2b6f.html"
      "dir_f9530a031e82794186de7c9c8fdc2b6f"
    ∷ []

unfoldable pub globals_dup : List Node
globals_dup =
    leaf "_" "globals.html"
    ∷ leaf "a" "globals_a.html"
    ∷ leaf "c" "globals_c.html"
    ∷ leaf "d" "globals_d.html"
    ∷ leaf "e" "globals_e.html"
    ∷ leaf "f" "globals_f.html"
    ∷ leaf "g" "globals_g.html"
    ∷ leaf "i" "globals_i.html"
    ∷ leaf "m" "globals_m.html"
    ∷ leaf "o" "globals_o.html"
    ∷ leaf "p" "globals_p.html"
    ∷ leaf "r" "globals_r.html"
    ∷ leaf "s" "globals_s.html"
    ∷ leaf "t" "globals_t.html"
    ∷ leaf "v" "globals_v.html"
    ∷ leaf "w" "globals_w.html"
    ∷ []

unfoldable pub globals_func : List Node
globals_func =
    leaf "_" "globals_func.html"
    ∷ leaf "c" "globals_func_c.html"
    ∷ leaf "d" "globals_func_d.html"
    ∷ leaf "e" "globals_func_e.html"
    ∷ leaf "f" "globals_func_f.html"
    ∷ leaf "g" "globals_func_g.html"
    ∷ leaf "m" "globals_func_m.html"
    ∷ leaf "o" "globals_func_o.html"
    ∷ leaf "p" "globals_func_p.html"
    ∷ leaf "s" "globals_func_s.html"
    ∷ leaf "t" "globals_func_t.html"
    ∷ leaf "v" "globals_func_v.html"
    ∷ leaf "w" "globals_func_w.html"
    ∷ []
