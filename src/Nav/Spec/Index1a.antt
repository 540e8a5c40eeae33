-- ===== src/Nav/Spec/Index1a.antt =====
-- The first part of NAVTREEINDEX1 of docs/ta-ref_spec_html/navtreeindex1.js.
use mathlib.Core.List.{[], ◌∷◌}
use ta_ref.Nav.Goto.{Table}
use ta_ref.Nav.Entry.{at}

unfoldable pub nav_tree_index1_a : Table
nav_tree_index1_a =
    at "a00092.html#aadb9bac764034588d3f2279f1453f8c0" (1 ∷ 0 ∷ 0 ∷ 0 ∷ 0 ∷ 14 ∷ 2 ∷ [])
    ∷ at "a00092_source.html" (1 ∷ 0 ∷ 0 ∷ 0 ∷ 0 ∷ 14 ∷ [])
    ∷ at "a00095.html" (1 ∷ 0 ∷ 0 ∷ 0 ∷ 0 ∷ 3 ∷ [])
    ∷ at "a00095_source.html" (1 ∷ 0 ∷ 0 ∷ 0 ∷ 0 ∷ 3 ∷ [])
    ∷ at "a00098.html" (1 ∷ 0 ∷ 0 ∷ 0 ∷ 0 ∷ 6 ∷ [])
    ∷ at "a00098_source.html" (1 ∷ 0 ∷ 0 ∷ 0 ∷ 0 ∷ 6 ∷ [])
    ∷ at "a00101.html" (1 ∷ 0 ∷ 0 ∷ 0 ∷ 0 ∷ 11 ∷ [])
    ∷ at "a00101.html#a24ca7e88f5a30fec143f97a1327359ef" (1 ∷ 0 ∷ 0 ∷ 0 ∷ 0 ∷ 11 ∷ 1 ∷ [])
    ∷ at "a00101.html#a27d93f6be16b56ff551b713827fa631b" (1 ∷ 0 ∷ 0 ∷ 0 ∷ 0 ∷ 11 ∷ 5 ∷ [])
    ∷ at "a00101.html#a47b84a3c3095eda1a3fddf9e7837bb20" (1 ∷ 0 ∷ 0 ∷ 0 ∷ 0 ∷ 11 ∷ 4 ∷ [])
    ∷ at "a00101.html#a90aa98d624809145c52042b6d74a70e6" (1 ∷ 0 ∷ 0 ∷ 0 ∷ 0 ∷ 11 ∷ 2 ∷ [])
    ∷ at "a00101.html#ac20b2f63bf136471c73bdf079a0b9d99" (1 ∷ 0 ∷ 0 ∷ 0 ∷ 0 ∷ 11 ∷ 3 ∷ [])
    ∷ at "a00101.html#ac923f71f15df56d5828fd94055091c5b" (1 ∷ 0 ∷ 0 ∷ 0 ∷ 0 ∷ 11 ∷ 7 ∷ [])
    ∷ at "a00101.html#ad3d0c07600b6ef481bb33eb79a4303ff" (1 ∷ 0 ∷ 0 ∷ 0 ∷ 0 ∷ 11 ∷ 0 ∷ [])
    ∷ at "a00101.html#afa03f3b310aa10326ee979379b6705c8" (1 ∷ 0 ∷ 0 ∷ 0 ∷ 0 ∷ 11 ∷ 6 ∷ [])
    ∷ at "a00101_source.html" (1 ∷ 0 ∷ 0 ∷ 0 ∷ 0 ∷ 11 ∷ [])
    ∷ at "a00104.html" (1 ∷ 0 ∷ 0 ∷ 0 ∷ 0 ∷ 1 ∷ [])
    ∷ at "a00104.html#a119db5620d3a2523cdb35399dd218dfc" (1 ∷ 0 ∷ 0 ∷ 0 ∷ 0 ∷ 1 ∷ 1 ∷ [])
    ∷ at "a00104.html#a9424e624a5e3583781568f5bb092d2fa" (1 ∷ 0 ∷ 0 ∷ 0 ∷ 0 ∷ 1 ∷ 0 ∷ [])
    ∷ at "a00104_source.html" (1 ∷ 0 ∷ 0 ∷ 0 ∷ 0 ∷ 1 ∷ [])
    ∷ at "a00107.html" (1 ∷ 0 ∷ 0 ∷ 0 ∷ 0 ∷ 15 ∷ [])
    ∷ at "a00107_source.html" (1 ∷ 0 ∷ 0 ∷ 0 ∷ 0 ∷ 15 ∷ [])
    ∷ at "a00110.html" (1 ∷ 0 ∷ 0 ∷ 0 ∷ 0 ∷ 10 ∷ [])
    ∷ at "a00110_source.html" (1 ∷ 0 ∷ 0 ∷ 0 ∷ 0 ∷ 10 ∷ [])
    ∷ at "a00113.html" (1 ∷ 0 ∷ 0 ∷ 0 ∷ 0 ∷ 12 ∷ [])
    ∷ at "a00113.html#a69014edd979110e3907a47bbf251489b" (1 ∷ 0 ∷ 0 ∷ 0 ∷ 0 ∷ 12 ∷ 4 ∷ [])
    ∷ at "a00113.html#a7e2a0d6b80182c6589b4a53f0530b549" (1 ∷ 0 ∷ 0 ∷ 0 ∷ 0 ∷ 12 ∷ 0 ∷ [])
    ∷ at "a00113.html#a9489e4c117de7d55518be7f9983df478" (1 ∷ 0 ∷ 0 ∷ 0 ∷ 0 ∷ 12 ∷ 1 ∷ [])
    ∷ at "a00113.html#aa5862d7225f9472804aae4d55e87a6ab" (1 ∷ 0 ∷ 0 ∷ 0 ∷ 0 ∷ 12 ∷ 2 ∷ [])
    ∷ at "a00113.html#acc562b6733782c0965a37f697ebb20fc" (1 ∷ 0 ∷ 0 ∷ 0 ∷ 0 ∷ 12 ∷ 3 ∷ [])
    ∷ at "a00113_source.html" (1 ∷ 0 ∷ 0 ∷ 0 ∷ 0 ∷ 12 ∷ [])
    ∷ at "a00116.html" (1 ∷ 0 ∷ 0 ∷ 0 ∷ 0 ∷ 16 ∷ [])
    ∷ at "a00116.html#a0439b587ccbbf840ae554d112543c38b" (1 ∷ 0 ∷ 0 ∷ 0 ∷ 0 ∷ 16 ∷ 3 ∷ [])
    ∷ at "a00116.html#a61e189da16d0f6e25a99b95578e47bd2" (1 ∷ 0 ∷ 0 ∷ 0 ∷ 0 ∷ 16 ∷ 1 ∷ [])
    ∷ at "a00116.html#a834fd6ca9d6a5d58fb5d5651a17c7e24" (1 ∷ 0 ∷ 0 ∷ 0 ∷ 0 ∷ 16 ∷ 2 ∷ [])
    ∷ at "a00116_source.html" (1 ∷ 0 ∷ 0 ∷ 0 ∷ 0 ∷ 16 ∷ [])
    ∷ at "a00119.html" (1 ∷ 0 ∷ 0 ∷ 0 ∷ 0 ∷ 7 ∷ [])
    ∷ at "a00119_source.html" (1 ∷ 0 ∷ 0 ∷ 0 ∷ 0 ∷ 7 ∷ [])
    ∷ at "a00122.html" (1 ∷ 0 ∷ 0 ∷ 0 ∷ 0 ∷ 13 ∷ [])
    ∷ at "a00122.html#a1b5789e1ce77c1a87c7e76b7791b455f" (1 ∷ 0 ∷ 0 ∷ 0 ∷ 0 ∷ 13 ∷ 1 ∷ [])
    ∷ at "a00122.html#a414ca01e5a7ab1682647f105452f108d" (1 ∷ 0 ∷ 0 ∷ 0 ∷ 0 ∷ 13 ∷ 2 ∷ [])
    ∷ at "a00122.html#aac4c6e63829bd59132735f04822ab316" (1 ∷ 0 ∷ 0 ∷ 0 ∷ 0 ∷ 13 ∷ 0 ∷ [])
    ∷ at "a00122.html#ad20f1506f9c3fb7261f560dcb9a9360f" (1 ∷ 0 ∷ 0 ∷ 0 ∷ 0 ∷ 13 ∷ 3 ∷ [])
    ∷ at "a00122_source.html" (1 ∷ 0 ∷ 0 ∷ 0 ∷ 0 ∷ 13 ∷ [])
    ∷ at "a00128.html" (0 ∷ 0 ∷ 3 ∷ [])
    ∷ at "a00128.html#a4c27dccaed93db331b221e2214259842" (0 ∷ 0 ∷ 3 ∷ 2 ∷ [])
    ∷ at "a00128.html#a54ed2bc56245d4c8137ec0dc7fdde4b5" (0 ∷ 0 ∷ 3 ∷ 0 ∷ [])
    ∷ at "a00128.html#a91bf1391adf1c705e9d1e6dbba195f32" (0 ∷ 0 ∷ 3 ∷ 1 ∷ [])
    ∷ at "a00128.html#ab2cd270427e8e6d1bb2c290f1116ed0b" (0 ∷ 0 ∷ 3 ∷ 3 ∷ [])
    ∷ at "a00132.html" (0 ∷ 0 ∷ 6 ∷ [])
    ∷ at "a00132.html#a0a214b0c7dd1e4d5ce2e9526110c4fa3" (0 ∷ 0 ∷ 6 ∷ 1 ∷ [])
    ∷ at "a00132.html#a4f51fc6e09ab0c53a83123a4da56e959" (0 ∷ 0 ∷ 6 ∷ 2 ∷ [])
    ∷ at "a00132.html#a69ec422c9a6cc8b16e9c638e185051da" (0 ∷ 0 ∷ 6 ∷ 0 ∷ [])
    ∷ at "a00136.html" (0 ∷ 0 ∷ 5 ∷ [])
    ∷ at "a00136.html#a3fb7a865631a190ad02f612fc25da4d8" (0 ∷ 0 ∷ 5 ∷ 0 ∷ [])
    ∷ at "a00136.html#aa754d0cffa449e9618d0ae0554a186be" (0 ∷ 0 ∷ 5 ∷ 1 ∷ [])
    ∷ at "a00136.html#adc3027d84a05d24ff1753c0e9426e823" (0 ∷ 0 ∷ 5 ∷ 2 ∷ [])
    ∷ at "a00140.html" (0 ∷ 0 ∷ 17 ∷ [])
    ∷ at "a00140.html#a3f3bc50e0403f69548ec717086518c0c" (0 ∷ 0 ∷ 17 ∷ 3 ∷ [])
    ∷ at "a00140.html#a4e18d5f060fc4b0858b401c5ba140439" (0 ∷ 0 ∷ 17 ∷ 2 ∷ [])
    ∷ at "a00140.html#aa97da60dc4d26bde2c853b067cec3537" (0 ∷ 0 ∷ 17 ∷ 0 ∷ [])
    ∷ at "a00140.html#afc9e9d0c299f7e81fbed34b2dc26633d" (0 ∷ 0 ∷ 17 ∷ 1 ∷ [])
    ∷ at "a00144.html" (0 ∷ 0 ∷ 8 ∷ [])
    ∷ at "a00144.html#a108f022f766173cff3f954cc6272e9b2" (0 ∷ 0 ∷ 8 ∷ 1 ∷ [])
    ∷ at "a00144.html#a52584626d8e5a41c8fbd6fbbd9b85077" (0 ∷ 0 ∷ 8 ∷ 0 ∷ [])
    ∷ at "a00148.html" (0 ∷ 0 ∷ 13 ∷ [])
    ∷ at "a00148.html#a4ba9b3f1c014273ec00e5cd0afcb2d9d" (0 ∷ 0 ∷ 13 ∷ 5 ∷ [])
    ∷ at "a00148.html#a94151deeec4d910ac70b95c875e82b65" (0 ∷ 0 ∷ 13 ∷ 4 ∷ [])
    ∷ at "a00148.html#a94753452c474e869d03a6f6b25ffaccf" (0 ∷ 0 ∷ 13 ∷ 3 ∷ [])
    ∷ at "a00148.html#ac8b2130649fda1c9b6da2250d8ee53bd" (0 ∷ 0 ∷ 13 ∷ 1 ∷ [])
    ∷ at "a00148.html#ad4f3026630fff95706057a133acf25cb" (0 ∷ 0 ∷ 13 ∷ 2 ∷ [])
    ∷ at "a00148.html#aeada71a90d1d2809b722d61a5c3565d1" (0 ∷ 0 ∷ 13 ∷ 0 ∷ [])
    ∷ at "a00160.html" (0 ∷ 0 ∷ 9 ∷ [])
    ∷ at "a00160.html#a383259be1f2372c70d06179e323b56a9" (0 ∷ 0 ∷ 9 ∷ 2 ∷ [])
    ∷ at "a00160.html#a5582e0846c28f661adfb13fce9341d7f" (0 ∷ 0 ∷ 9 ∷ 3 ∷ [])
    ∷ at "a00160.html#a62e86918ecc3604c78c19ec4b82db942" (0 ∷ 0 ∷ 9 ∷ 1 ∷ [])
    ∷ at "a00160.html#a76d31d60fd6c6ace1c83128d7c8e1978" (0 ∷ 0 ∷ 9 ∷ 4 ∷ [])
    ∷ at "a00160.html#abdc9a52757555fcde7fd65d0a666dd86" (0 ∷ 0 ∷ 9 ∷ 7 ∷ [])
    ∷ at "a00160.html#ac5691332392887315a0463512a5a37eb" (0 ∷ 0 ∷ 9 ∷ 5 ∷ [])
    ∷ at "a00160.html#acf38e3c3b3b94d174b5cc4bcc4c05e73" (0 ∷ 0 ∷ 9 ∷ 8 ∷ [])
    ∷ at "a00160.html#ae1030668d95126537c787c6041116141" (0 ∷ 0 ∷ 9 ∷ 6 ∷ [])
    ∷ at "a00160.html#afaa0ef417c1fdca9f1a80f96621a20ac" (0 ∷ 0 ∷ 9 ∷ 0 ∷ [])
    ∷ at "a00172.html" (0 ∷ 0 ∷ 7 ∷ [])
    ∷ at "a00172.html#a09884c9e507fcea246221c936d1f31e8" (0 ∷ 0 ∷ 7 ∷ 7 ∷ [])
    ∷ at "a00172.html#a256bd9dd9b7da0532c196fbd7a669319" (0 ∷ 0 ∷ 7 ∷ 4 ∷ [])
    ∷ at "a00172.html#a2f836429d3010c82bd3c5721c3f8b7e7" (0 ∷ 0 ∷ 7 ∷ 2 ∷ [])
    ∷ at "a00172.html#a4a6cd490e3ac839612e6d7915230e83c" (0 ∷ 0 ∷ 7 ∷ 1 ∷ [])
    ∷ at "a00172.html#aa7f07d775839d40c7c9aab574d2ba6ee" (0 ∷ 0 ∷ 7 ∷ 3 ∷ [])
    ∷ at "a00172.html#aabd8bec634dd8a59a75446b51ac08d5c" (0 ∷ 0 ∷ 7 ∷ 6 ∷ [])
    ∷ at "a00172.html#ad9856740dc29f94abf5b33df1936cbc3" (0 ∷ 0 ∷ 7 ∷ 0 ∷ [])
    ∷ at "a00172.html#adec3127e2ba82d0d5029f04cef7fdf8d" (0 ∷ 0 ∷ 7 ∷ 5 ∷ [])
    ∷ at "a00188.html" (0 ∷ 0 ∷ 10 ∷ [])
    ∷ at "a00188.html#a0128fb74c66b52875b6a5c30a0fd0060" (0 ∷ 0 ∷ 10 ∷ 5 ∷ [])
    ∷ at "a00188.html#a08a70cd70b8b188a7bf8e2830eab337d" (0 ∷ 0 ∷ 10 ∷ 6 ∷ [])
    ∷ at "a00188.html#a1031dc53718a12ff9a3324b8f38a0990" (0 ∷ 0 ∷ 10 ∷ 2 ∷ [])
    ∷ at "a00188.html#a17a8ad6cb73ff8499e12a87e1eb93f0b" (0 ∷ 0 ∷ 10 ∷ 7 ∷ [])
    ∷ at "a00188.html#a20b452df1cc34aaa0d5d000165bf5c79" (0 ∷ 0 ∷ 10 ∷ 1 ∷ [])
    ∷ at "a00188.html#a3aab7d72383ddb7a2dfc8caa5da993cb" (0 ∷ 0 ∷ 10 ∷ 4 ∷ [])
    ∷ at "a00188.html#a4748020a3c4e9f29b16ba543d882738c" (0 ∷ 0 ∷ 10 ∷ 0 ∷ [])
    ∷ at "a00188.html#a54a7fa7e098818aedf1c20bc275a27ab" (0 ∷ 0 ∷ 10 ∷ 3 ∷ [])
    ∷ at "a00192.html" (0 ∷ 0 ∷ 11 ∷ [])
    ∷ at "a00192.html#a5e07b0861e6d7eb3bf0f500ab9f475a3" (0 ∷ 0 ∷ 11 ∷ 0 ∷ [])
    ∷ at "a00192.html#aa4b1b8382412db08f57e3438c711996f" (0 ∷ 0 ∷ 11 ∷ 1 ∷ [])
    ∷ at "a00196.html" (0 ∷ 0 ∷ 12 ∷ [])
    ∷ at "a00196.html#a044bf13008704b31b78e40e8702449aa" (0 ∷ 0 ∷ 12 ∷ 5 ∷ [])
    ∷ at "a00196.html#a4848f2823b0daedcb3c18872bfd43ac8" (0 ∷ 0 ∷ 12 ∷ 1 ∷ [])
    ∷ at "a00196.html#a5d26142b2e77c31f629933f44e597a23" (0 ∷ 0 ∷ 12 ∷ 0 ∷ [])
    ∷ at "a00196.html#a7f735dc1b77788365738af8545165950" (0 ∷ 0 ∷ 12 ∷ 4 ∷ [])
    ∷ at "a00196.html#a8e4d089d5754b8e1c5e5b9a3bb5892c6" (0 ∷ 0 ∷ 12 ∷ 2 ∷ [])
    ∷ at "a00196.html#a9553d75bc6c65637e177252705509fa4" (0 ∷ 0 ∷ 12 ∷ 6 ∷ [])
    ∷ at "a00196.html#ab01c9bff21c6a0be3a0534391f49e95d" (0 ∷ 0 ∷ 12 ∷ 8 ∷ [])
    ∷ at "a00196.html#ab28fa037b1b13cc686857712051828f4" (0 ∷ 0 ∷ 12 ∷ 3 ∷ [])
    ∷ at "a00196.html#ab8ac51e5bec956b245793718e960e56d" (0 ∷ 0 ∷ 12 ∷ 7 ∷ [])
    ∷ at "a00200.html" (0 ∷ 0 ∷ 16 ∷ [])
    ∷ at "a00200.html#a39483b274f96430336fec8ff492bf194" (0 ∷ 0 ∷ 16 ∷ 1 ∷ [])
    ∷ at "a00200.html#afc349d218aa40ab1f9dedc3cc57e6c69" (0 ∷ 0 ∷ 16 ∷ 0 ∷ [])
    ∷ at "a00204.html" (0 ∷ 0 ∷ 15 ∷ [])
    ∷ at "a00204.html#a0e1336135b6afb1094afe02e2189f84f" (0 ∷ 0 ∷ 15 ∷ 0 ∷ [])
    ∷ at "a00204.html#a4034ed6b80c1ca8e844889f957ae14a9" (0 ∷ 0 ∷ 15 ∷ 2 ∷ [])
    ∷ at "a00204.html#af59dfdfc357eca2c9923765225c9bb29" (0 ∷ 0 ∷ 15 ∷ 1 ∷ [])
    ∷ at "a00208.html" (0 ∷ 0 ∷ 14 ∷ [])
    ∷ at "a00208.html#a5251ab3f916984effbfe7686b26224be" (0 ∷ 0 ∷ 14 ∷ 1 ∷ [])
    ∷ at "a00208.html#a8e012daefc967e51527f65356c7328c0" (0 ∷ 0 ∷ 14 ∷ 0 ∷ [])
    ∷ at "a00212.html" (0 ∷ 0 ∷ 18 ∷ [])
    ∷ at "a00212.html#a820f288b2e1d68de48d3fbf8964aa6a7" (0 ∷ 0 ∷ 18 ∷ 0 ∷ [])
    ∷ []
