-- ===== src/Nav/Spec/Index0b.antt =====
-- The second part of NAVTREEINDEX0 of docs/ta-ref_spec_html/navtreeindex0.js.
use mathlib.Core.List.{[], ◌∷◌}
use ta_ref.Nav.Goto.{Table}
use ta_ref.Nav.Entry.{at}

unfoldable pub nav_tree_index0_b : Table
nav_tree_index0_b =
    at "a00083.html#a70d944aa12cea2bad255b9bdd30225eb" (1 ∷ 0 ∷ 0 ∷ 0 ∷ 0 ∷ 5 ∷ 105 ∷ [])
    ∷ at "a00083.html#a714fe46ada09b8de202ef8107de91f1c" (1 ∷ 0 ∷ 0 ∷ 0 ∷ 0 ∷ 5 ∷ 21 ∷ [])
    ∷ at "a00083.html#a74dfba6b2a11201f47ce7ca8915ee96a" (1 ∷ 0 ∷ 0 ∷ 0 ∷ 0 ∷ 5 ∷ 64 ∷ [])
    ∷ at "a00083.html#a758eb10a8544eafce2675416ead1d1ea" (1 ∷ 0 ∷ 0 ∷ 0 ∷ 0 ∷ 5 ∷ 22 ∷ [])
    ∷ at "a00083.html#a77190cd7b1199a6d9a7b3399e52a2608" (1 ∷ 0 ∷ 0 ∷ 0 ∷ 0 ∷ 5 ∷ 68 ∷ [])
    ∷ at "a00083.html#a7898745b154d57c77fbb3413eecabed3" (1 ∷ 0 ∷ 0 ∷ 0 ∷ 0 ∷ 5 ∷ 4 ∷ [])
    ∷ at "a00083.html#a7dd6370f087bf7051f15931dbf0fa25a" (1 ∷ 0 ∷ 0 ∷ 0 ∷ 0 ∷ 5 ∷ 87 ∷ [])
    ∷ at "a00083.html#a7f362a278388b46830511af110ec4517" (1 ∷ 0 ∷ 0 ∷ 0 ∷ 0 ∷ 5 ∷ 110 ∷ [])
    ∷ at "a00083.html#a8257d78b7bec1c90e9bd42b1a2857aa9" (1 ∷ 0 ∷ 0 ∷ 0 ∷ 0 ∷ 5 ∷ 50 ∷ [])
    ∷ at "a00083.html#a825dca146722195fe490bd12bbe8a27f" (1 ∷ 0 ∷ 0 ∷ 0 ∷ 0 ∷ 5 ∷ 65 ∷ [])
    ∷ at "a00083.html#a843b65f4564569843860b4bce5a144b9" (1 ∷ 0 ∷ 0 ∷ 0 ∷ 0 ∷ 5 ∷ 59 ∷ [])
    ∷ at "a00083.html#a84ed96bd63ffbf14179212410b15eab3" (1 ∷ 0 ∷ 0 ∷ 0 ∷ 0 ∷ 5 ∷ 114 ∷ [])
    ∷ at "a00083.html#a87e501d7abee6d50b5c2c68fde57a1b2" (1 ∷ 0 ∷ 0 ∷ 0 ∷ 0 ∷ 5 ∷ 8 ∷ [])
    ∷ at "a00083.html#a8d40b18030f274b984eb05424128418b" (1 ∷ 0 ∷ 0 ∷ 0 ∷ 0 ∷ 5 ∷ 107 ∷ [])
    ∷ at "a00083.html#a8ee5d399881165b9fe31c3f5bb0c72a1" (1 ∷ 0 ∷ 0 ∷ 0 ∷ 0 ∷ 5 ∷ 42 ∷ [])
    ∷ at "a00083.html#a92d483e9bef62ca0755c188f12d95746" (1 ∷ 0 ∷ 0 ∷ 0 ∷ 0 ∷ 5 ∷ 5 ∷ [])
    ∷ at "a00083.html#a93fbbf8c538edd677ff2e013e4b024c4" (1 ∷ 0 ∷ 0 ∷ 0 ∷ 0 ∷ 5 ∷ 106 ∷ [])
    ∷ at "a00083.html#a974908e3a136d6da3891367a0863fcbb" (1 ∷ 0 ∷ 0 ∷ 0 ∷ 0 ∷ 5 ∷ 48 ∷ [])
    ∷ at "a00083.html#a9b1f756b684839a6f06126ea0872d35a" (1 ∷ 0 ∷ 0 ∷ 0 ∷ 0 ∷ 5 ∷ 29 ∷ [])
    ∷ at "a00083.html#a9ba4528c754b003d1d5091e8fc6c2812" (1 ∷ 0 ∷ 0 ∷ 0 ∷ 0 ∷ 5 ∷ 84 ∷ [])
    ∷ at "a00083.html#aa30d1ee97956d8eab8be1b905620604e" (1 ∷ 0 ∷ 0 ∷ 0 ∷ 0 ∷ 5 ∷ 63 ∷ [])
    ∷ at "a00083.html#aa926e6fc7ebdd6eeccdcf689b77ad236" (1 ∷ 0 ∷ 0 ∷ 0 ∷ 0 ∷ 5 ∷ 82 ∷ [])
    ∷ at "a00083.html#aa982dd6c482aa1cdec532a13fe1ceda5" (1 ∷ 0 ∷ 0 ∷ 0 ∷ 0 ∷ 5 ∷ 13 ∷ [])
    ∷ at "a00083.html#aaa50b70b6eff2f1539a1e1b45b01daf6" (1 ∷ 0 ∷ 0 ∷ 0 ∷ 0 ∷ 5 ∷ 69 ∷ [])
    ∷ at "a00083.html#aaa89fe8cb6b6e1e7bdfbafe0bd817094" (1 ∷ 0 ∷ 0 ∷ 0 ∷ 0 ∷ 5 ∷ 74 ∷ [])
    ∷ at "a00083.html#aaca2790ab1df187f3535a55db1336c8f" (1 ∷ 0 ∷ 0 ∷ 0 ∷ 0 ∷ 5 ∷ 94 ∷ [])
    ∷ at "a00083.html#aadd6434bca67535e4832209e5a449ffa" (1 ∷ 0 ∷ 0 ∷ 0 ∷ 0 ∷ 5 ∷ 12 ∷ [])
    ∷ at "a00083.html#aae70ddc633ba20e9e523d23e69df69f0" (1 ∷ 0 ∷ 0 ∷ 0 ∷ 0 ∷ 5 ∷ 67 ∷ [])
    ∷ at "a00083.html#ab08e067dcd07c475a6f13110a5997503" (1 ∷ 0 ∷ 0 ∷ 0 ∷ 0 ∷ 5 ∷ 16 ∷ [])
    ∷ at "a00083.html#ab0c4a76983dc97122bf9c540458225d0" (1 ∷ 0 ∷ 0 ∷ 0 ∷ 0 ∷ 5 ∷ 76 ∷ [])
    ∷ at "a00083.html#ab2c8616f8e4a126ce8c91ae7c64b69a2" (1 ∷ 0 ∷ 0 ∷ 0 ∷ 0 ∷ 5 ∷ 18 ∷ [])
    ∷ at "a00083.html#ab974376ca95bb0c3e316ad789f33b3c6" (1 ∷ 0 ∷ 0 ∷ 0 ∷ 0 ∷ 5 ∷ 111 ∷ [])
    ∷ at "a00083.html#abb64d1041b0f996d909f10c1fafd0ccd" (1 ∷ 0 ∷ 0 ∷ 0 ∷ 0 ∷ 5 ∷ 92 ∷ [])
    ∷ at "a00083.html#abcc46184566df4b45b4a167fe54e5de3" (1 ∷ 0 ∷ 0 ∷ 0 ∷ 0 ∷ 5 ∷ 95 ∷ [])
    ∷ at "a00083.html#abd5c626b74396a70475b42b74ce0271c" (1 ∷ 0 ∷ 0 ∷ 0 ∷ 0 ∷ 5 ∷ 79 ∷ [])
    ∷ at "a00083.html#abe433c1557e4290ea7b7b4ee623321c0" (1 ∷ 0 ∷ 0 ∷ 0 ∷ 0 ∷ 5 ∷ 73 ∷ [])
    ∷ at "a00083.html#ac0465fb736d92a3fde3a04ea1529d1cc" (1 ∷ 0 ∷ 0 ∷ 0 ∷ 0 ∷ 5 ∷ 104 ∷ [])
    ∷ at "a00083.html#ac1377b23820680cb9b5017a08ee72b80" (1 ∷ 0 ∷ 0 ∷ 0 ∷ 0 ∷ 5 ∷ 9 ∷ [])
    ∷ at "a00083.html#ac1c7c9380a331e2a4bf3c69d5eb539ff" (1 ∷ 0 ∷ 0 ∷ 0 ∷ 0 ∷ 5 ∷ 55 ∷ [])
    ∷ at "a00083.html#ac254872f1baa5d86f335da7c43dcbef0" (1 ∷ 0 ∷ 0 ∷ 0 ∷ 0 ∷ 5 ∷ 31 ∷ [])
    ∷ at "a00083.html#ac2cfc934106a5bc629f0b354b08a30f5" (1 ∷ 0 ∷ 0 ∷ 0 ∷ 0 ∷ 5 ∷ 85 ∷ [])
    ∷ at "a00083.html#ac2e60d4f84c265ab3c275b562a20c2dc" (1 ∷ 0 ∷ 0 ∷ 0 ∷ 0 ∷ 5 ∷ 6 ∷ [])
    ∷ at "a00083.html#ac42274885ae227734bf66eafe866a4a0" (1 ∷ 0 ∷ 0 ∷ 0 ∷ 0 ∷ 5 ∷ 78 ∷ [])
    ∷ at "a00083.html#ac7e864db33a3f54b0889b99917cbc794" (1 ∷ 0 ∷ 0 ∷ 0 ∷ 0 ∷ 5 ∷ 117 ∷ [])
    ∷ at "a00083.html#ad0eff5697536a558a84e732c59634597" (1 ∷ 0 ∷ 0 ∷ 0 ∷ 0 ∷ 5 ∷ 36 ∷ [])
    ∷ at "a00083.html#ad2065447661a6ccaaba9957bf0c392b0" (1 ∷ 0 ∷ 0 ∷ 0 ∷ 0 ∷ 5 ∷ 66 ∷ [])
    ∷ at "a00083.html#ad299348685d99cb01cd82f87e788f71b" (1 ∷ 0 ∷ 0 ∷ 0 ∷ 0 ∷ 5 ∷ 28 ∷ [])
    ∷ at "a00083.html#ad38d03ed88e3b4cde1d1e54d9bbfd1fd" (1 ∷ 0 ∷ 0 ∷ 0 ∷ 0 ∷ 5 ∷ 80 ∷ [])
    ∷ at "a00083.html#ad4c7d46eaa62f8f8d206a1c075c94882" (1 ∷ 0 ∷ 0 ∷ 0 ∷ 0 ∷ 5 ∷ 2 ∷ [])
    ∷ at "a00083.html#adb6e7616c695e420616c44c76e2ba118" (1 ∷ 0 ∷ 0 ∷ 0 ∷ 0 ∷ 5 ∷ 119 ∷ [])
    ∷ at "a00083.html#adc0dc44aea3ce4994446bc107a54c0a4" (1 ∷ 0 ∷ 0 ∷ 0 ∷ 0 ∷ 5 ∷ 70 ∷ [])
    ∷ at "a00083.html#adf60218e9693cae6d3576c0f2f940473" (1 ∷ 0 ∷ 0 ∷ 0 ∷ 0 ∷ 5 ∷ 19 ∷ [])
    ∷ at "a00083.html#adf77c5c0d620b8c8c5d29e5d5768ebd3" (1 ∷ 0 ∷ 0 ∷ 0 ∷ 0 ∷ 5 ∷ 25 ∷ [])
    ∷ at "a00083.html#ae03ad904c4536ad2d194eb54a092e384" (1 ∷ 0 ∷ 0 ∷ 0 ∷ 0 ∷ 5 ∷ 47 ∷ [])
    ∷ at "a00083.html#ae08bd2a664e700fa3c5db0d172e38a1b" (1 ∷ 0 ∷ 0 ∷ 0 ∷ 0 ∷ 5 ∷ 102 ∷ [])
    ∷ at "a00083.html#ae3599ef72278f8e54e237bbb2f4d3c78" (1 ∷ 0 ∷ 0 ∷ 0 ∷ 0 ∷ 5 ∷ 7 ∷ [])
    ∷ at "a00083.html#ae810ba39222d8913978ddd9c5939f8a9" (1 ∷ 0 ∷ 0 ∷ 0 ∷ 0 ∷ 5 ∷ 41 ∷ [])
    ∷ at "a00083.html#ae9b3bb3c35419a914b4c6bc5cda781ab" (1 ∷ 0 ∷ 0 ∷ 0 ∷ 0 ∷ 5 ∷ 1 ∷ [])
    ∷ at "a00083.html#aea24dd104bb245719ec09f6df2acaf75" (1 ∷ 0 ∷ 0 ∷ 0 ∷ 0 ∷ 5 ∷ 91 ∷ [])
    ∷ at "a00083.html#aeb3c350f87318ea07d282af02767ef23" (1 ∷ 0 ∷ 0 ∷ 0 ∷ 0 ∷ 5 ∷ 115 ∷ [])
    ∷ at "a00083.html#aed82ff6f713f23948020900109aad5f6" (1 ∷ 0 ∷ 0 ∷ 0 ∷ 0 ∷ 5 ∷ 75 ∷ [])
    ∷ at "a00083.html#aee5c5b6cfe2cc9ee4a8f84f7d690ccbc" (1 ∷ 0 ∷ 0 ∷ 0 ∷ 0 ∷ 5 ∷ 101 ∷ [])
    ∷ at "a00083.html#aefe870eef19172c6e25f3507c3a93875" (1 ∷ 0 ∷ 0 ∷ 0 ∷ 0 ∷ 5 ∷ 32 ∷ [])
    ∷ at "a00083.html#af5f3a12e4fbaa2ae82d4dadf122ad4cd" (1 ∷ 0 ∷ 0 ∷ 0 ∷ 0 ∷ 5 ∷ 62 ∷ [])
    ∷ at "a00083.html#af73ce780a255e5232dc7196acafebf11" (1 ∷ 0 ∷ 0 ∷ 0 ∷ 0 ∷ 5 ∷ 57 ∷ [])
    ∷ at "a00083.html#af7ada151b876daff93593868bc57eab9" (1 ∷ 0 ∷ 0 ∷ 0 ∷ 0 ∷ 5 ∷ 46 ∷ [])
    ∷ at "a00083.html#af8e1c1fb75f05ddd9b94b82e47e663b7" (1 ∷ 0 ∷ 0 ∷ 0 ∷ 0 ∷ 5 ∷ 98 ∷ [])
    ∷ at "a00083.html#af972189100f5cdd3de5e0f0a419fca98" (1 ∷ 0 ∷ 0 ∷ 0 ∷ 0 ∷ 5 ∷ 14 ∷ [])
    ∷ at "a00083.html#af9d51bf94690a65f43005937ed65635b" (1 ∷ 0 ∷ 0 ∷ 0 ∷ 0 ∷ 5 ∷ 53 ∷ [])
    ∷ at "a00083.html#afa7320f99bc9f7d2f9a0af79450e7a9b" (1 ∷ 0 ∷ 0 ∷ 0 ∷ 0 ∷ 5 ∷ 3 ∷ [])
    ∷ at "a00083.html#afe152a85c5f39fd64655526b174d579f" (1 ∷ 0 ∷ 0 ∷ 0 ∷ 0 ∷ 5 ∷ 88 ∷ [])
    ∷ at "a00083_source.html" (1 ∷ 0 ∷ 0 ∷ 0 ∷ 0 ∷ 5 ∷ [])
    ∷ at "a00086.html" (1 ∷ 0 ∷ 0 ∷ 0 ∷ 0 ∷ 4 ∷ [])
    ∷ at "a00086.html#a071525e4f644911d7d4468f7a8f193cd" (1 ∷ 0 ∷ 0 ∷ 0 ∷ 0 ∷ 4 ∷ 13 ∷ [])
    ∷ at "a00086.html#a12e0a5703767c19b688f1056ce87518f" (1 ∷ 0 ∷ 0 ∷ 0 ∷ 0 ∷ 4 ∷ 1 ∷ [])
    ∷ at "a00086.html#a18cecb2f284d0cf5e657a070137cd581" (1 ∷ 0 ∷ 0 ∷ 0 ∷ 0 ∷ 4 ∷ 26 ∷ [])
    ∷ at "a00086.html#a24d0a83df10ad59bd3e4c98aa70c7a0a" (1 ∷ 0 ∷ 0 ∷ 0 ∷ 0 ∷ 4 ∷ 29 ∷ [])
    ∷ at "a00086.html#a2ce6c25dca4d916c6b1ca40ae3a431e3" (1 ∷ 0 ∷ 0 ∷ 0 ∷ 0 ∷ 4 ∷ 24 ∷ [])
    ∷ at "a00086.html#a3249061a4b04d968af1fe24ebdcafa94" (1 ∷ 0 ∷ 0 ∷ 0 ∷ 0 ∷ 4 ∷ 3 ∷ [])
    ∷ at "a00086.html#a333824d79fa9e46b6969bfff7e3a1158" (1 ∷ 0 ∷ 0 ∷ 0 ∷ 0 ∷ 4 ∷ 14 ∷ [])
    ∷ at "a00086.html#a365ac1202478160e1ced5899f65b15c6" (1 ∷ 0 ∷ 0 ∷ 0 ∷ 0 ∷ 4 ∷ 2 ∷ [])
    ∷ at "a00086.html#a5a67752d33bbe35cd1442c3fffa4ea25" (1 ∷ 0 ∷ 0 ∷ 0 ∷ 0 ∷ 4 ∷ 30 ∷ [])
    ∷ at "a00086.html#a5accdbcb639e2cd1a55f21fe5544a686" (1 ∷ 0 ∷ 0 ∷ 0 ∷ 0 ∷ 4 ∷ 10 ∷ [])
    ∷ at "a00086.html#a6e9ece9dbe0483464277902be82486ef" (1 ∷ 0 ∷ 0 ∷ 0 ∷ 0 ∷ 4 ∷ 17 ∷ [])
    ∷ at "a00086.html#a70d944aa12cea2bad255b9bdd30225eb" (1 ∷ 0 ∷ 0 ∷ 0 ∷ 0 ∷ 4 ∷ 28 ∷ [])
    ∷ at "a00086.html#a7898745b154d57c77fbb3413eecabed3" (1 ∷ 0 ∷ 0 ∷ 0 ∷ 0 ∷ 4 ∷ 7 ∷ [])
    ∷ at "a00086.html#a825dca146722195fe490bd12bbe8a27f" (1 ∷ 0 ∷ 0 ∷ 0 ∷ 0 ∷ 4 ∷ 19 ∷ [])
    ∷ at "a00086.html#a843b65f4564569843860b4bce5a144b9" (1 ∷ 0 ∷ 0 ∷ 0 ∷ 0 ∷ 4 ∷ 16 ∷ [])
    ∷ at "a00086.html#a87e501d7abee6d50b5c2c68fde57a1b2" (1 ∷ 0 ∷ 0 ∷ 0 ∷ 0 ∷ 4 ∷ 9 ∷ [])
    ∷ at "a00086.html#a92d483e9bef62ca0755c188f12d95746" (1 ∷ 0 ∷ 0 ∷ 0 ∷ 0 ∷ 4 ∷ 8 ∷ [])
    ∷ at "a00086.html#a994af593ff8186af8b6c2ed8edd8c389" (1 ∷ 0 ∷ 0 ∷ 0 ∷ 0 ∷ 4 ∷ 12 ∷ [])
    ∷ at "a00086.html#aaa89fe8cb6b6e1e7bdfbafe0bd817094" (1 ∷ 0 ∷ 0 ∷ 0 ∷ 0 ∷ 4 ∷ 22 ∷ [])
    ∷ at "a00086.html#aadd6434bca67535e4832209e5a449ffa" (1 ∷ 0 ∷ 0 ∷ 0 ∷ 0 ∷ 4 ∷ 11 ∷ [])
    ∷ at "a00086.html#aae70ddc633ba20e9e523d23e69df69f0" (1 ∷ 0 ∷ 0 ∷ 0 ∷ 0 ∷ 4 ∷ 21 ∷ [])
    ∷ at "a00086.html#abe4e96ad3ef09baf69af6684ff52dce5" (1 ∷ 0 ∷ 0 ∷ 0 ∷ 0 ∷ 4 ∷ 0 ∷ [])
    ∷ at "a00086.html#ac2cfc934106a5bc629f0b354b08a30f5" (1 ∷ 0 ∷ 0 ∷ 0 ∷ 0 ∷ 4 ∷ 23 ∷ [])
    ∷ at "a00086.html#ad2065447661a6ccaaba9957bf0c392b0" (1 ∷ 0 ∷ 0 ∷ 0 ∷ 0 ∷ 4 ∷ 20 ∷ [])
    ∷ at "a00086.html#ad4c7d46eaa62f8f8d206a1c075c94882" (1 ∷ 0 ∷ 0 ∷ 0 ∷ 0 ∷ 4 ∷ 5 ∷ [])
    ∷ at "a00086.html#ae9b3bb3c35419a914b4c6bc5cda781ab" (1 ∷ 0 ∷ 0 ∷ 0 ∷ 0 ∷ 4 ∷ 4 ∷ [])
    ∷ at "a00086.html#aee5c5b6cfe2cc9ee4a8f84f7d690ccbc" (1 ∷ 0 ∷ 0 ∷ 0 ∷ 0 ∷ 4 ∷ 27 ∷ [])
    ∷ at "a00086.html#af5f3a12e4fbaa2ae82d4dadf122ad4cd" (1 ∷ 0 ∷ 0 ∷ 0 ∷ 0 ∷ 4 ∷ 18 ∷ [])
    ∷ at "a00086.html#af73ce780a255e5232dc7196acafebf11" (1 ∷ 0 ∷ 0 ∷ 0 ∷ 0 ∷ 4 ∷ 15 ∷ [])
    ∷ at "a00086.html#afa7320f99bc9f7d2f9a0af79450e7a9b" (1 ∷ 0 ∷ 0 ∷ 0 ∷ 0 ∷ 4 ∷ 6 ∷ [])
    ∷ at "a00086.html#afe152a85c5f39fd64655526b174d579f" (1 ∷ 0 ∷ 0 ∷ 0 ∷ 0 ∷ 4 ∷ 25 ∷ [])
    ∷ at "a00086_source.html" (1 ∷ 0 ∷ 0 ∷ 0 ∷ 0 ∷ 4 ∷ [])
    ∷ at "a00089.html" (1 ∷ 0 ∷ 0 ∷ 0 ∷ 0 ∷ 9 ∷ [])
    ∷ at "a00089.html#a2e057c67c5ec43b8052ad89809929e61" (1 ∷ 0 ∷ 0 ∷ 0 ∷ 0 ∷ 9 ∷ 15 ∷ [])
    ∷ at "a00089.html#a33d421ce57c64600db759fe55bd0541e" (1 ∷ 0 ∷ 0 ∷ 0 ∷ 0 ∷ 9 ∷ 14 ∷ [])
    ∷ at "a00089.html#a3e9d47511b2b76ec947655708cca039f" (1 ∷ 0 ∷ 0 ∷ 0 ∷ 0 ∷ 9 ∷ 13 ∷ [])
    ∷ at "a00089.html#a8358037528cb0d29d57f1da4fdb12d23" (1 ∷ 0 ∷ 0 ∷ 0 ∷ 0 ∷ 9 ∷ 10 ∷ [])
    ∷ at "a00089.html#a8ff39851efe335623922e6f800f3113b" (1 ∷ 0 ∷ 0 ∷ 0 ∷ 0 ∷ 9 ∷ 12 ∷ [])
    ∷ at "a00089.html#a95ece7e03b3154198e554f847b4b0211" (1 ∷ 0 ∷ 0 ∷ 0 ∷ 0 ∷ 9 ∷ 9 ∷ [])
    ∷ at "a00089.html#ab0f689a7da4d607e46fe9f8d7dba277c" (1 ∷ 0 ∷ 0 ∷ 0 ∷ 0 ∷ 9 ∷ 18 ∷ [])
    ∷ at "a00089.html#abbd4e86c7d7a2830b66dd1c455e57708" (1 ∷ 0 ∷ 0 ∷ 0 ∷ 0 ∷ 9 ∷ 11 ∷ [])
    ∷ at "a00089.html#ae95c1a0a68654f50a280d94581859d76" (1 ∷ 0 ∷ 0 ∷ 0 ∷ 0 ∷ 9 ∷ 16 ∷ [])
    ∷ at "a00089.html#af2ef3c0fbde59e7249cf8eb43a36abce" (1 ∷ 0 ∷ 0 ∷ 0 ∷ 0 ∷ 9 ∷ 17 ∷ [])
    ∷ at "a00089_source.html" (1 ∷ 0 ∷ 0 ∷ 0 ∷ 0 ∷ 9 ∷ [])
    ∷ at "a00092.html" (1 ∷ 0 ∷ 0 ∷ 0 ∷ 0 ∷ 14 ∷ [])
    ∷ at "a00092.html#a35b9c5a80a47eb5089240614f75d35ca" (1 ∷ 0 ∷ 0 ∷ 0 ∷ 0 ∷ 14 ∷ 5 ∷ [])
    ∷ at "a00092.html#a4fc6b18371df36a1ece74f1b0465a1ed" (1 ∷ 0 ∷ 0 ∷ 0 ∷ 0 ∷ 14 ∷ 3 ∷ [])
    ∷ at "a00092.html#a5a9bb49b93f61cb0227d351713cfe8ea" (1 ∷ 0 ∷ 0 ∷ 0 ∷ 0 ∷ 14 ∷ 7 ∷ [])
    ∷ at "a00092.html#a5af2a639fea54768ed5428cb4f8bbb8c" (1 ∷ 0 ∷ 0 ∷ 0 ∷ 0 ∷ 14 ∷ 6 ∷ [])
    ∷ at "a00092.html#a6ae309735ee1fed9decc4e537dcc240d" (1 ∷ 0 ∷ 0 ∷ 0 ∷ 0 ∷ 14 ∷ 0 ∷ [])
    ∷ at "a00092.html#a8675158a59c5041a3bd82a3e916d8e17" (1 ∷ 0 ∷ 0 ∷ 0 ∷ 0 ∷ 14 ∷ 1 ∷ [])
    ∷ at "a00092.html#a94cceab502088c7e86af3599dd7de87b" (1 ∷ 0 ∷ 0 ∷ 0 ∷ 0 ∷ 14 ∷ 4 ∷ [])
    ∷ []
