-- ===== src/Nav/Spec/Scripts/PartD.antt =====
-- The scripts a00148.js to a00240.js of docs/ta-ref_spec_html.
use mathlib.Core.List.{List, [], ◌∷◌}
use ta_ref.Nav.Tree.{Node}
use ta_ref.Nav.Entry.{leaf}

unfoldable pub a00148 : List Node
a00148 =
    leaf "a" "a00148.html#aeada71a90d1d2809b722d61a5c3565d1"
    ∷ leaf "b" "a00148.html#ac8b2130649fda1c9b6da2250d8ee53bd"
    ∷ leaf "buffer" "a00148.html#ad4f3026630fff95706057a133acf25cb"
    ∷ leaf "memref" "a00148.html#a94753452c474e869d03a6f6b25ffaccf"
    ∷ leaf "size" "a00148.html#a94151deeec4d910ac70b95c875e82b65"
    ∷ leaf "value" "a00148.html#a4ba9b3f1c014273ec00e5cd0afcb2d9d"
    ∷ []

unfoldable pub a00160 : List Node
a00160 =
    leaf "dataPosition" "a00160.html#afaa0ef417c1fdca9f1a80f96621a20ac"
    ∷ leaf "dataSize" "a00160.html#a62e86918ecc3604c78c19ec4b82db942"
    ∷ leaf "handleFlags" "a00160.html#a383259be1f2372c70d06179e323b56a9"
    ∷ leaf "keySize" "a00160.html#a5582e0846c28f661adfb13fce9341d7f"
    ∷ leaf "maxKeySize" "a00160.html#a76d31d60fd6c6ace1c83128d7c8e1978"
    ∷ leaf "maxObjectSize" "a00160.html#ac5691332392887315a0463512a5a37eb"
    ∷ leaf "objectSize" "a00160.html#ae1030668d95126537c787c6041116141"
    ∷ leaf "objectType" "a00160.html#abdc9a52757555fcde7fd65d0a666dd86"
    ∷ leaf "objectUsage" "a00160.html#acf38e3c3b3b94d174b5cc4bcc4c05e73"
    ∷ []

unfoldable pub a00172 : List Node
a00172 =
    leaf "a" "a00172.html#ad9856740dc29f94abf5b33df1936cbc3"
    ∷ leaf "attributeID" "a00172.html#a4a6cd490e3ac839612e6d7915230e83c"
    ∷ leaf "b" "a00172.html#a2f836429d3010c82bd3c5721c3f8b7e7"
    ∷ leaf "buffer" "a00172.html#aa7f07d775839d40c7c9aab574d2ba6ee"
    ∷ leaf "content" "a00172.html#a256bd9dd9b7da0532c196fbd7a669319"
    ∷ leaf "length" "a00172.html#adec3127e2ba82d0d5029f04cef7fdf8d"
    ∷ leaf "ref" "a00172.html#aabd8bec634dd8a59a75446b51ac08d5c"
    ∷ leaf "value" "a00172.html#a09884c9e507fcea246221c936d1f31e8"
    ∷ []

unfoldable pub a00188 : List Node
a00188 =
    leaf "algorithm" "a00188.html#a4748020a3c4e9f29b16ba543d882738c"
    ∷ leaf "digestLength" "a00188.html#a20b452df1cc34aaa0d5d000165bf5c79"
    ∷ leaf "handleState" "a00188.html#a1031dc53718a12ff9a3324b8f38a0990"
    ∷ leaf "keySize" "a00188.html#a54a7fa7e098818aedf1c20bc275a27ab"
    ∷ leaf "maxKeySize" "a00188.html#a3aab7d72383ddb7a2dfc8caa5da993cb"
    ∷ leaf "mode" "a00188.html#a0128fb74c66b52875b6a5c30a0fd0060"
    ∷ leaf "operationClass" "a00188.html#a08a70cd70b8b188a7bf8e2830eab337d"
    ∷ leaf "requiredKeyUsage" "a00188.html#a17a8ad6cb73ff8499e12a87e1eb93f0b"
    ∷ []

unfoldable pub a00192 : List Node
a00192 =
    leaf "keySize" "a00192.html#a5e07b0861e6d7eb3bf0f500ab9f475a3"
    ∷ leaf "requiredKeyUsage" "a00192.html#aa4b1b8382412db08f57e3438c711996f"
    ∷ []

unfoldable pub a00196 : List Node
a00196 =
    leaf "algorithm" "a00196.html#a5d26142b2e77c31f629933f44e597a23"
    ∷ leaf "digestLength" "a00196.html#a4848f2823b0daedcb3c18872bfd43ac8"
    ∷ leaf "handleState" "a00196.html#a8e4d089d5754b8e1c5e5b9a3bb5892c6"
    ∷ leaf "keyInformation" "a00196.html#ab28fa037b1b13cc686857712051828f4"
    ∷ leaf "maxKeySize" "a00196.html#a7f735dc1b77788365738af8545165950"
    ∷ leaf "mode" "a00196.html#a044bf13008704b31b78e40e8702449aa"
    ∷ leaf "numberOfKeys" "a00196.html#a9553d75bc6c65637e177252705509fa4"
    ∷ leaf "operationClass" "a00196.html#ab8ac51e5bec956b245793718e960e56d"
    ∷ leaf "operationState" "a00196.html#ab01c9bff21c6a0be3a0534391f49e95d"
    ∷ []

unfoldable pub a00200 : List Node
a00200 =
    leaf "millis" "a00200.html#afc349d218aa40ab1f9dedc3cc57e6c69"
    ∷ leaf "seconds" "a00200.html#a39483b274f96430336fec8ff492bf194"
    ∷ []

unfoldable pub a00204 : List Node
a00204 =
    leaf "selectResponseEnable" "a00204.html#a0e1336135b6afb1094afe02e2189f84f"
    ∷ leaf "sePresent" "a00204.html#af59dfdfc357eca2c9923765225c9bb29"
    ∷ leaf "teeOnly" "a00204.html#a4034ed6b80c1ca8e844889f957ae14a9"
    ∷ []

unfoldable pub a00208 : List Node
a00208 =
    leaf "buffer" "a00208.html#a8e012daefc967e51527f65356c7328c0"
    ∷ leaf "bufferLen" "a00208.html#a5251ab3f916984effbfe7686b26224be"
    ∷ []

unfoldable pub a00212 : List Node
a00212 =
    leaf "fd" "a00212.html#a820f288b2e1d68de48d3fbf8964aa6a7"
    ∷ leaf "reg_mem" "a00212.html#af6f29b1bab1ae17c00e8a0cd458390ab"
    ∷ []

unfoldable pub a00216 : List Node
a00216 =
    leaf "clockSeqAndNode" "a00216.html#af815f6d95298fe866aecb3f46029f72e"
    ∷ leaf "timeHiAndVersion" "a00216.html#a01c5625e34a36789266075dca8f35419"
    ∷ leaf "timeLow" "a00216.html#a3061340e1db616d20bfbc299a6baf221"
    ∷ leaf "timeMid" "a00216.html#a006ff61341e697d883a3e7c250e675f3"
    ∷ []

unfoldable pub a00220 : List Node
a00220 =
    leaf "alloced_size" "a00220.html#ae26c11738472ff9c03fa0ac5c00289c9"
    ∷ leaf "buffer" "a00220.html#a7ced755c88a53bfadc0354fe1e33e0f9"
    ∷ leaf "buffer_allocated" "a00220.html#a3ba07a082c8191db60410f1178a4ba2a"
    ∷ leaf "flags" "a00220.html#a952af666858535b863b162a8b9e53e0c"
    ∷ leaf "id" "a00220.html#af88e103c5cc9efdd328226163a9101c7"
    ∷ leaf "registered_fd" "a00220.html#a1ce57af1619f1ab9e9aa0cdc448f89f3"
    ∷ leaf "shadow_buffer" "a00220.html#ab0ad90885135c692b3162cbf6f223cd0"
    ∷ leaf "size" "a00220.html#ade465778b424b13ee99e044c2a221af8"
    ∷ []

unfoldable pub a00224 : List Node
a00224 =
    leaf "buffer" "a00224.html#a814ab10dfaa7eca1fe81f572342ae325"
    ∷ leaf "size" "a00224.html#ae6076f1360d7b8bbdf79e7b22f45fc29"
    ∷ []

unfoldable pub a00228 : List Node
a00228 =
    leaf "offset" "a00228.html#a8951871c92918826408dfedc4156ee20"
    ∷ leaf "parent" "a00228.html#a5246c33b96861a607d173c5b9a6cf5f8"
    ∷ leaf "size" "a00228.html#a2d86e5093bb7930fcc70730ad73ab103"
    ∷ []

unfoldable pub a00232 : List Node
a00232 =
    leaf "a" "a00232.html#a9092e5e087843ebfc5d7cfa40f04a1c2"
    ∷ leaf "b" "a00232.html#ad6cef620e07a83dabbc6220020ee47b5"
    ∷ []

unfoldable pub a00236 : List Node
a00236 =
    leaf "memref" "a00236.html#a341d29a495da6914bb99b0af853c4fd1"
    ∷ leaf "tmpref" "a00236.html#abb1df8a9d3c54299a3de780e49f2fe92"
    ∷ leaf "value" "a00236.html#a819a08a56fe8d2cbbeb4a4409d60c975"
    ∷ []

unfoldable pub a00240 : List Node
a00240 =
    leaf "ctx" "a00240.html#a2c0952177d9da1b0018e289505b94a34"
    ∷ leaf "session_id" "a00240.html#aa77da4c2abd0430f203daadd1ff7dee8"
    ∷ []
