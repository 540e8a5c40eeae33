-- ===== src/Nav/Spec/Index0a.antt =====
-- The first part of NAVTREEINDEX0 of docs/ta-ref_spec_html/navtreeindex0.js.
use mathlib.Core.List.{[], ◌∷◌}
use ta_ref.Nav.Goto.{Table}
use ta_ref.Nav.Entry.{at}

unfoldable pub nav_tree_index0_a : Table
nav_tree_index0_a =
    at "a00029.html" (1 ∷ 0 ∷ 0 ∷ 0 ∷ 1 ∷ 4 ∷ [])
    ∷ at "a00029_source.html" (1 ∷ 0 ∷ 0 ∷ 0 ∷ 1 ∷ 4 ∷ [])
    ∷ at "a00050.html" (1 ∷ 0 ∷ 0 ∷ 0 ∷ 1 ∷ 9 ∷ [])
    ∷ at "a00050.html#a2e057c67c5ec43b8052ad89809929e61" (1 ∷ 0 ∷ 0 ∷ 0 ∷ 1 ∷ 9 ∷ 4 ∷ [])
    ∷ at "a00050.html#a3e9d47511b2b76ec947655708cca039f" (1 ∷ 0 ∷ 0 ∷ 0 ∷ 1 ∷ 9 ∷ 3 ∷ [])
    ∷ at "a00050.html#a8358037528cb0d29d57f1da4fdb12d23" (1 ∷ 0 ∷ 0 ∷ 0 ∷ 1 ∷ 9 ∷ 0 ∷ [])
    ∷ at "a00050.html#a8ff39851efe335623922e6f800f3113b" (1 ∷ 0 ∷ 0 ∷ 0 ∷ 1 ∷ 9 ∷ 2 ∷ [])
    ∷ at "a00050.html#ab0f689a7da4d607e46fe9f8d7dba277c" (1 ∷ 0 ∷ 0 ∷ 0 ∷ 1 ∷ 9 ∷ 7 ∷ [])
    ∷ at "a00050.html#abbd4e86c7d7a2830b66dd1c455e57708" (1 ∷ 0 ∷ 0 ∷ 0 ∷ 1 ∷ 9 ∷ 1 ∷ [])
    ∷ at "a00050.html#ae95c1a0a68654f50a280d94581859d76" (1 ∷ 0 ∷ 0 ∷ 0 ∷ 1 ∷ 9 ∷ 5 ∷ [])
    ∷ at "a00050.html#af2ef3c0fbde59e7249cf8eb43a36abce" (1 ∷ 0 ∷ 0 ∷ 0 ∷ 1 ∷ 9 ∷ 6 ∷ [])
    ∷ at "a00056.html" (1 ∷ 0 ∷ 0 ∷ 0 ∷ 1 ∷ 6 ∷ [])
    ∷ at "a00056.html#a93b9cf91f7623d6d8b100a3693d6d5e4" (1 ∷ 0 ∷ 0 ∷ 0 ∷ 1 ∷ 6 ∷ 0 ∷ [])
    ∷ at "a00071.html" (1 ∷ 0 ∷ 0 ∷ 0 ∷ 4 ∷ [])
    ∷ at "a00071.html#a071525e4f644911d7d4468f7a8f193cd" (1 ∷ 0 ∷ 0 ∷ 0 ∷ 4 ∷ 11 ∷ [])
    ∷ at "a00071.html#a18cecb2f284d0cf5e657a070137cd581" (1 ∷ 0 ∷ 0 ∷ 0 ∷ 4 ∷ 18 ∷ [])
    ∷ at "a00071.html#a24d0a83df10ad59bd3e4c98aa70c7a0a" (1 ∷ 0 ∷ 0 ∷ 0 ∷ 4 ∷ 19 ∷ [])
    ∷ at "a00071.html#a28a4fd049acb6bf502be5a6195baf86f" (1 ∷ 0 ∷ 0 ∷ 0 ∷ 4 ∷ 21 ∷ [])
    ∷ at "a00071.html#a3249061a4b04d968af1fe24ebdcafa94" (1 ∷ 0 ∷ 0 ∷ 0 ∷ 4 ∷ 0 ∷ [])
    ∷ at "a00071.html#a5accdbcb639e2cd1a55f21fe5544a686" (1 ∷ 0 ∷ 0 ∷ 0 ∷ 4 ∷ 7 ∷ [])
    ∷ at "a00071.html#a6e9ece9dbe0483464277902be82486ef" (1 ∷ 0 ∷ 0 ∷ 0 ∷ 4 ∷ 13 ∷ [])
    ∷ at "a00071.html#a7898745b154d57c77fbb3413eecabed3" (1 ∷ 0 ∷ 0 ∷ 0 ∷ 4 ∷ 4 ∷ [])
    ∷ at "a00071.html#a825dca146722195fe490bd12bbe8a27f" (1 ∷ 0 ∷ 0 ∷ 0 ∷ 4 ∷ 15 ∷ [])
    ∷ at "a00071.html#a843b65f4564569843860b4bce5a144b9" (1 ∷ 0 ∷ 0 ∷ 0 ∷ 4 ∷ 12 ∷ [])
    ∷ at "a00071.html#a87e501d7abee6d50b5c2c68fde57a1b2" (1 ∷ 0 ∷ 0 ∷ 0 ∷ 4 ∷ 6 ∷ [])
    ∷ at "a00071.html#a92d483e9bef62ca0755c188f12d95746" (1 ∷ 0 ∷ 0 ∷ 0 ∷ 4 ∷ 5 ∷ [])
    ∷ at "a00071.html#a994af593ff8186af8b6c2ed8edd8c389" (1 ∷ 0 ∷ 0 ∷ 0 ∷ 4 ∷ 10 ∷ [])
    ∷ at "a00071.html#aadd6434bca67535e4832209e5a449ffa" (1 ∷ 0 ∷ 0 ∷ 0 ∷ 4 ∷ 8 ∷ [])
    ∷ at "a00071.html#ad2065447661a6ccaaba9957bf0c392b0" (1 ∷ 0 ∷ 0 ∷ 0 ∷ 4 ∷ 16 ∷ [])
    ∷ at "a00071.html#ad4c7d46eaa62f8f8d206a1c075c94882" (1 ∷ 0 ∷ 0 ∷ 0 ∷ 4 ∷ 2 ∷ [])
    ∷ at "a00071.html#ae03ad904c4536ad2d194eb54a092e384" (1 ∷ 0 ∷ 0 ∷ 0 ∷ 4 ∷ 9 ∷ [])
    ∷ at "a00071.html#ae89193ba8d16c41b615dda216f13384c" (1 ∷ 0 ∷ 0 ∷ 0 ∷ 4 ∷ 20 ∷ [])
    ∷ at "a00071.html#ae9b3bb3c35419a914b4c6bc5cda781ab" (1 ∷ 0 ∷ 0 ∷ 0 ∷ 4 ∷ 1 ∷ [])
    ∷ at "a00071.html#af5f3a12e4fbaa2ae82d4dadf122ad4cd" (1 ∷ 0 ∷ 0 ∷ 0 ∷ 4 ∷ 14 ∷ [])
    ∷ at "a00071.html#afa7320f99bc9f7d2f9a0af79450e7a9b" (1 ∷ 0 ∷ 0 ∷ 0 ∷ 4 ∷ 3 ∷ [])
    ∷ at "a00071.html#afe152a85c5f39fd64655526b174d579f" (1 ∷ 0 ∷ 0 ∷ 0 ∷ 4 ∷ 17 ∷ [])
    ∷ at "a00074.html" (1 ∷ 0 ∷ 0 ∷ 0 ∷ 0 ∷ 2 ∷ [])
    ∷ at "a00074_source.html" (1 ∷ 0 ∷ 0 ∷ 0 ∷ 0 ∷ 2 ∷ [])
    ∷ at "a00077.html" (1 ∷ 0 ∷ 0 ∷ 0 ∷ 0 ∷ 0 ∷ [])
    ∷ at "a00077_source.html" (1 ∷ 0 ∷ 0 ∷ 0 ∷ 0 ∷ 0 ∷ [])
    ∷ at "a00080.html" (1 ∷ 0 ∷ 0 ∷ 0 ∷ 0 ∷ 8 ∷ [])
    ∷ at "a00080.html#a003ccda0ce6a2d7889b2933a201e2bd1" (1 ∷ 0 ∷ 0 ∷ 0 ∷ 0 ∷ 8 ∷ 18 ∷ [])
    ∷ at "a00080.html#a04635613d9083443cbbbc5877eb72741" (1 ∷ 0 ∷ 0 ∷ 0 ∷ 0 ∷ 8 ∷ 24 ∷ [])
    ∷ at "a00080.html#a062d270abecd4e983bf02ed30febb4f0" (1 ∷ 0 ∷ 0 ∷ 0 ∷ 0 ∷ 8 ∷ 11 ∷ [])
    ∷ at "a00080.html#a0b888a3053880d3fb5c9ba7fdffcd68e" (1 ∷ 0 ∷ 0 ∷ 0 ∷ 0 ∷ 8 ∷ 26 ∷ [])
    ∷ at "a00080.html#a0f5a82f41c1aeb996d5d0b3169047f06" (1 ∷ 0 ∷ 0 ∷ 0 ∷ 0 ∷ 8 ∷ 17 ∷ [])
    ∷ at "a00080.html#a1a5d27fdaf557d27b33bbe38aa5129fd" (1 ∷ 0 ∷ 0 ∷ 0 ∷ 0 ∷ 8 ∷ 23 ∷ [])
    ∷ at "a00080.html#a1c088b4398b0d8b6df9c871deaa81ab8" (1 ∷ 0 ∷ 0 ∷ 0 ∷ 0 ∷ 8 ∷ 28 ∷ [])
    ∷ at "a00080.html#a1c088b4398b0d8b6df9c871deaa81ab8a283bec96896cd01f08089e9217ab0071"
        (1 ∷ 0 ∷ 0 ∷ 0 ∷ 0 ∷ 8 ∷ 28 ∷ 0 ∷ [])
    ∷ at "a00080.html#a1c088b4398b0d8b6df9c871deaa81ab8a3a546e4bb166976552cf4173a9780fe7"
        (1 ∷ 0 ∷ 0 ∷ 0 ∷ 0 ∷ 8 ∷ 28 ∷ 2 ∷ [])
    ∷ at "a00080.html#a1c088b4398b0d8b6df9c871deaa81ab8a58d66a0d10ad95ec3b1e2bd8ec76c71c"
        (1 ∷ 0 ∷ 0 ∷ 0 ∷ 0 ∷ 8 ∷ 28 ∷ 1 ∷ [])
    ∷ at "a00080.html#a1e12baaa5300148f63b001b1fd4f50dd" (1 ∷ 0 ∷ 0 ∷ 0 ∷ 0 ∷ 8 ∷ 25 ∷ [])
    ∷ at "a00080.html#a310c41a3ea70bacf3fc0fb67ca94405e" (1 ∷ 0 ∷ 0 ∷ 0 ∷ 0 ∷ 8 ∷ 12 ∷ [])
    ∷ at "a00080.html#a34e9460c6f4baa569ee42e9ff18179ee" (1 ∷ 0 ∷ 0 ∷ 0 ∷ 0 ∷ 8 ∷ 22 ∷ [])
    ∷ at "a00080.html#a40cf2de4383adf822f198c07ab8d5f3a" (1 ∷ 0 ∷ 0 ∷ 0 ∷ 0 ∷ 8 ∷ 13 ∷ [])
    ∷ at "a00080.html#a48342fd010d3c8ad882d5dfd05cecffa" (1 ∷ 0 ∷ 0 ∷ 0 ∷ 0 ∷ 8 ∷ 21 ∷ [])
    ∷ at "a00080.html#a6b7a829a612f7bfb5714a6a550bac592" (1 ∷ 0 ∷ 0 ∷ 0 ∷ 0 ∷ 8 ∷ 27 ∷ [])
    ∷ at "a00080.html#a6b7a829a612f7bfb5714a6a550bac592a14fd1dd01b612be722995b8753a9ced3"
        (1 ∷ 0 ∷ 0 ∷ 0 ∷ 0 ∷ 8 ∷ 27 ∷ 5 ∷ [])
    ∷ at "a00080.html#a6b7a829a612f7bfb5714a6a550bac592a2f3dbf0c7c0373015cf75946564c26f4"
        (1 ∷ 0 ∷ 0 ∷ 0 ∷ 0 ∷ 8 ∷ 27 ∷ 4 ∷ [])
    ∷ at "a00080.html#a6b7a829a612f7bfb5714a6a550bac592a7f379c000fe1ffe48160acae8cdab73a"
        (1 ∷ 0 ∷ 0 ∷ 0 ∷ 0 ∷ 8 ∷ 27 ∷ 6 ∷ [])
    ∷ at "a00080.html#a6b7a829a612f7bfb5714a6a550bac592a96f810c660ff068a087065c6769c0655"
        (1 ∷ 0 ∷ 0 ∷ 0 ∷ 0 ∷ 8 ∷ 27 ∷ 2 ∷ [])
    ∷ at "a00080.html#a6b7a829a612f7bfb5714a6a550bac592aa20104f46a28d0fe8596fec000b93fb0"
        (1 ∷ 0 ∷ 0 ∷ 0 ∷ 0 ∷ 8 ∷ 27 ∷ 1 ∷ [])
    ∷ at "a00080.html#a6b7a829a612f7bfb5714a6a550bac592ae986e0ac521db4f424b1c1fae66778c9"
        (1 ∷ 0 ∷ 0 ∷ 0 ∷ 0 ∷ 8 ∷ 27 ∷ 0 ∷ [])
    ∷ at "a00080.html#a6b7a829a612f7bfb5714a6a550bac592af254d3515d5c4075989a785a568612e3"
        (1 ∷ 0 ∷ 0 ∷ 0 ∷ 0 ∷ 8 ∷ 27 ∷ 3 ∷ [])
    ∷ at "a00080.html#a773a0ae16cd350bb65e0acd3c2e6a4d6" (1 ∷ 0 ∷ 0 ∷ 0 ∷ 0 ∷ 8 ∷ 19 ∷ [])
    ∷ at "a00080.html#a93a3db41b30eea0eefe104eea3e81c4d" (1 ∷ 0 ∷ 0 ∷ 0 ∷ 0 ∷ 8 ∷ 15 ∷ [])
    ∷ at "a00080.html#a9f9bb8e582acc2c79335158932f0b954" (1 ∷ 0 ∷ 0 ∷ 0 ∷ 0 ∷ 8 ∷ 16 ∷ [])
    ∷ at "a00080.html#aa1b64b7b46cd8040d03cb32c6504796a" (1 ∷ 0 ∷ 0 ∷ 0 ∷ 0 ∷ 8 ∷ 20 ∷ [])
    ∷ at "a00080.html#af1b39f1a856c03c4f17a5d77ff7a1f0f" (1 ∷ 0 ∷ 0 ∷ 0 ∷ 0 ∷ 8 ∷ 14 ∷ [])
    ∷ at "a00080_source.html" (1 ∷ 0 ∷ 0 ∷ 0 ∷ 0 ∷ 8 ∷ [])
    ∷ at "a00083.html" (1 ∷ 0 ∷ 0 ∷ 0 ∷ 0 ∷ 5 ∷ [])
    ∷ at "a00083.html#a001308a1a5198c1f3d6bbd3f43c68a1e" (1 ∷ 0 ∷ 0 ∷ 0 ∷ 0 ∷ 5 ∷ 93 ∷ [])
    ∷ at "a00083.html#a071525e4f644911d7d4468f7a8f193cd" (1 ∷ 0 ∷ 0 ∷ 0 ∷ 0 ∷ 5 ∷ 49 ∷ [])
    ∷ at "a00083.html#a0770243df596f28bbffdbe2a09dc1223" (1 ∷ 0 ∷ 0 ∷ 0 ∷ 0 ∷ 5 ∷ 121 ∷ [])
    ∷ at "a00083.html#a087393fc9dd24ac208f100c386dd02e0" (1 ∷ 0 ∷ 0 ∷ 0 ∷ 0 ∷ 5 ∷ 96 ∷ [])
    ∷ at "a00083.html#a0bf013e7bf7332d8c48dda266323800e" (1 ∷ 0 ∷ 0 ∷ 0 ∷ 0 ∷ 5 ∷ 37 ∷ [])
    ∷ at "a00083.html#a0cd97604693fc9a12baddc0d7039abc9" (1 ∷ 0 ∷ 0 ∷ 0 ∷ 0 ∷ 5 ∷ 61 ∷ [])
    ∷ at "a00083.html#a15e21ada58f629957e7d217a239db2c0" (1 ∷ 0 ∷ 0 ∷ 0 ∷ 0 ∷ 5 ∷ 38 ∷ [])
    ∷ at "a00083.html#a181b8f6aab855d7fc82c20bb88924ad2" (1 ∷ 0 ∷ 0 ∷ 0 ∷ 0 ∷ 5 ∷ 43 ∷ [])
    ∷ at "a00083.html#a181c0351e8794c86166e79e3a311da4a" (1 ∷ 0 ∷ 0 ∷ 0 ∷ 0 ∷ 5 ∷ 33 ∷ [])
    ∷ at "a00083.html#a18cecb2f284d0cf5e657a070137cd581" (1 ∷ 0 ∷ 0 ∷ 0 ∷ 0 ∷ 5 ∷ 89 ∷ [])
    ∷ at "a00083.html#a1c206c72da5222ee6453ab0d95f7dc19" (1 ∷ 0 ∷ 0 ∷ 0 ∷ 0 ∷ 5 ∷ 40 ∷ [])
    ∷ at "a00083.html#a1d4ba0211029b43fa330069cd9181e05" (1 ∷ 0 ∷ 0 ∷ 0 ∷ 0 ∷ 5 ∷ 30 ∷ [])
    ∷ at "a00083.html#a201b782eb0b7af3e5d67538672be1431" (1 ∷ 0 ∷ 0 ∷ 0 ∷ 0 ∷ 5 ∷ 109 ∷ [])
    ∷ at "a00083.html#a21c7a5c802b4176599556bf502e80183" (1 ∷ 0 ∷ 0 ∷ 0 ∷ 0 ∷ 5 ∷ 24 ∷ [])
    ∷ at "a00083.html#a21e0fb1f73395811783259cea4924ac3" (1 ∷ 0 ∷ 0 ∷ 0 ∷ 0 ∷ 5 ∷ 34 ∷ [])
    ∷ at "a00083.html#a2238f36691bb906b642a6ded67af28f4" (1 ∷ 0 ∷ 0 ∷ 0 ∷ 0 ∷ 5 ∷ 112 ∷ [])
    ∷ at "a00083.html#a23d701214a4c53bc0963622b2909724e" (1 ∷ 0 ∷ 0 ∷ 0 ∷ 0 ∷ 5 ∷ 72 ∷ [])
    ∷ at "a00083.html#a23ddd8d63265670f1d2d3308053cdfc1" (1 ∷ 0 ∷ 0 ∷ 0 ∷ 0 ∷ 5 ∷ 39 ∷ [])
    ∷ at "a00083.html#a24d0a83df10ad59bd3e4c98aa70c7a0a" (1 ∷ 0 ∷ 0 ∷ 0 ∷ 0 ∷ 5 ∷ 116 ∷ [])
    ∷ at "a00083.html#a25a6ed042b2e933aeae3c26727987811" (1 ∷ 0 ∷ 0 ∷ 0 ∷ 0 ∷ 5 ∷ 103 ∷ [])
    ∷ at "a00083.html#a277768e26e3f63bc630af53d094dda24" (1 ∷ 0 ∷ 0 ∷ 0 ∷ 0 ∷ 5 ∷ 45 ∷ [])
    ∷ at "a00083.html#a2a107b479fba64302465a1f67da531d0" (1 ∷ 0 ∷ 0 ∷ 0 ∷ 0 ∷ 5 ∷ 44 ∷ [])
    ∷ at "a00083.html#a2ce6c25dca4d916c6b1ca40ae3a431e3" (1 ∷ 0 ∷ 0 ∷ 0 ∷ 0 ∷ 5 ∷ 86 ∷ [])
    ∷ at "a00083.html#a2d36adb59a76af1f73090475e98aa4c9" (1 ∷ 0 ∷ 0 ∷ 0 ∷ 0 ∷ 5 ∷ 108 ∷ [])
    ∷ at "a00083.html#a2f8d4f043c7930b75deb1499270a813f" (1 ∷ 0 ∷ 0 ∷ 0 ∷ 0 ∷ 5 ∷ 122 ∷ [])
    ∷ at "a00083.html#a2fc70a7f4072b8fe6abd77721c5ccc1f" (1 ∷ 0 ∷ 0 ∷ 0 ∷ 0 ∷ 5 ∷ 77 ∷ [])
    ∷ at "a00083.html#a32323472448048b47c17d7aa0c644361" (1 ∷ 0 ∷ 0 ∷ 0 ∷ 0 ∷ 5 ∷ 120 ∷ [])
    ∷ at "a00083.html#a3249061a4b04d968af1fe24ebdcafa94" (1 ∷ 0 ∷ 0 ∷ 0 ∷ 0 ∷ 5 ∷ 0 ∷ [])
    ∷ at "a00083.html#a333824d79fa9e46b6969bfff7e3a1158" (1 ∷ 0 ∷ 0 ∷ 0 ∷ 0 ∷ 5 ∷ 52 ∷ [])
    ∷ at "a00083.html#a3414eec972e33b501c9fbee1e976f78c" (1 ∷ 0 ∷ 0 ∷ 0 ∷ 0 ∷ 5 ∷ 23 ∷ [])
    ∷ at "a00083.html#a349e457b1b5e9de722d43af1bae18c5f" (1 ∷ 0 ∷ 0 ∷ 0 ∷ 0 ∷ 5 ∷ 58 ∷ [])
    ∷ at "a00083.html#a39565a83c197a918d214798a4b5e551a" (1 ∷ 0 ∷ 0 ∷ 0 ∷ 0 ∷ 5 ∷ 123 ∷ [])
    ∷ at "a00083.html#a434ef50d7567a0112dd0b5471fabc5d2" (1 ∷ 0 ∷ 0 ∷ 0 ∷ 0 ∷ 5 ∷ 35 ∷ [])
    ∷ at "a00083.html#a44ce7881aa25b6d28bac1f8ecaf65793" (1 ∷ 0 ∷ 0 ∷ 0 ∷ 0 ∷ 5 ∷ 71 ∷ [])
    ∷ at "a00083.html#a4b9cdec35240a19d6f784f0159cea109" (1 ∷ 0 ∷ 0 ∷ 0 ∷ 0 ∷ 5 ∷ 17 ∷ [])
    ∷ at "a00083.html#a4c1bbb858954ee8e4fc595c478bcc4ac" (1 ∷ 0 ∷ 0 ∷ 0 ∷ 0 ∷ 5 ∷ 97 ∷ [])
    ∷ at "a00083.html#a4eca2209820659cc95756fc85e1a4837" (1 ∷ 0 ∷ 0 ∷ 0 ∷ 0 ∷ 5 ∷ 56 ∷ [])
    ∷ at "a00083.html#a55e5a34db840cfdf1f8f01b1f55451c8" (1 ∷ 0 ∷ 0 ∷ 0 ∷ 0 ∷ 5 ∷ 54 ∷ [])
    ∷ at "a00083.html#a5709bc399bf8daf153001544897469ce" (1 ∷ 0 ∷ 0 ∷ 0 ∷ 0 ∷ 5 ∷ 10 ∷ [])
    ∷ at "a00083.html#a57fcb978078e1f9cd86cb49dc93f0643" (1 ∷ 0 ∷ 0 ∷ 0 ∷ 0 ∷ 5 ∷ 83 ∷ [])
    ∷ at "a00083.html#a589e1930eccaae908db12412864fa728" (1 ∷ 0 ∷ 0 ∷ 0 ∷ 0 ∷ 5 ∷ 26 ∷ [])
    ∷ at "a00083.html#a5a67752d33bbe35cd1442c3fffa4ea25" (1 ∷ 0 ∷ 0 ∷ 0 ∷ 0 ∷ 5 ∷ 124 ∷ [])
    ∷ at "a00083.html#a5abc943bbe72008f816f7e78f3af9845" (1 ∷ 0 ∷ 0 ∷ 0 ∷ 0 ∷ 5 ∷ 27 ∷ [])
    ∷ at "a00083.html#a5accdbcb639e2cd1a55f21fe5544a686" (1 ∷ 0 ∷ 0 ∷ 0 ∷ 0 ∷ 5 ∷ 11 ∷ [])
    ∷ at "a00083.html#a5c4679789d99b8be60d3bb8996c91119" (1 ∷ 0 ∷ 0 ∷ 0 ∷ 0 ∷ 5 ∷ 90 ∷ [])
    ∷ at "a00083.html#a5e2e29c99dee20bf7728b583a49bea0c" (1 ∷ 0 ∷ 0 ∷ 0 ∷ 0 ∷ 5 ∷ 99 ∷ [])
    ∷ at "a00083.html#a5e2f9729390de1c4143489e4e92cf80c" (1 ∷ 0 ∷ 0 ∷ 0 ∷ 0 ∷ 5 ∷ 81 ∷ [])
    ∷ at "a00083.html#a66d8c7796cd56616e089a248ffce283f" (1 ∷ 0 ∷ 0 ∷ 0 ∷ 0 ∷ 5 ∷ 118 ∷ [])
    ∷ at "a00083.html#a6713318482a440babef0b480bd4dc5c6" (1 ∷ 0 ∷ 0 ∷ 0 ∷ 0 ∷ 5 ∷ 100 ∷ [])
    ∷ at "a00083.html#a67a4c65ab5e520ac34dec75a30b6b05f" (1 ∷ 0 ∷ 0 ∷ 0 ∷ 0 ∷ 5 ∷ 51 ∷ [])
    ∷ at "a00083.html#a6812750a279fe080b2b46f685156aabe" (1 ∷ 0 ∷ 0 ∷ 0 ∷ 0 ∷ 5 ∷ 20 ∷ [])
    ∷ at "a00083.html#a6b6b071e283439bea92d55b1d082ee70" (1 ∷ 0 ∷ 0 ∷ 0 ∷ 0 ∷ 5 ∷ 15 ∷ [])
    ∷ at "a00083.html#a6cca6b984c36ed19ce54ff133f99f7f1" (1 ∷ 0 ∷ 0 ∷ 0 ∷ 0 ∷ 5 ∷ 113 ∷ [])
    ∷ at "a00083.html#a6e9ece9dbe0483464277902be82486ef" (1 ∷ 0 ∷ 0 ∷ 0 ∷ 0 ∷ 5 ∷ 60 ∷ [])
    ∷ []
