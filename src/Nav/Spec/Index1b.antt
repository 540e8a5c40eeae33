-- ===== src/Nav/Spec/Index1b.antt =====
-- The second part of NAVTREEINDEX1 of docs/ta-ref_spec_html/navtreeindex1.js.
use mathlib.Core.List.{[], ◌∷◌}
use ta_ref.Nav.Goto.{Table}
use ta_ref.Nav.Entry.{at}

unfoldable pub nav_tree_index1_b : Table
nav_tree_index1_b =
    at "a00212.html#af6f29b1bab1ae17c00e8a0cd458390ab" (0 ∷ 0 ∷ 18 ∷ 1 ∷ [])
    ∷ at "a00216.html" (0 ∷ 0 ∷ 25 ∷ [])
    ∷ at "a00216.html#a006ff61341e697d883a3e7c250e675f3" (0 ∷ 0 ∷ 25 ∷ 3 ∷ [])
    ∷ at "a00216.html#a01c5625e34a36789266075dca8f35419" (0 ∷ 0 ∷ 25 ∷ 1 ∷ [])
    ∷ at "a00216.html#a3061340e1db616d20bfbc299a6baf221" (0 ∷ 0 ∷ 25 ∷ 2 ∷ [])
    ∷ at "a00216.html#af815f6d95298fe866aecb3f46029f72e" (0 ∷ 0 ∷ 25 ∷ 0 ∷ [])
    ∷ at "a00220.html" (0 ∷ 0 ∷ 23 ∷ [])
    ∷ at "a00220.html#a1ce57af1619f1ab9e9aa0cdc448f89f3" (0 ∷ 0 ∷ 23 ∷ 5 ∷ [])
    ∷ at "a00220.html#a3ba07a082c8191db60410f1178a4ba2a" (0 ∷ 0 ∷ 23 ∷ 2 ∷ [])
    ∷ at "a00220.html#a7ced755c88a53bfadc0354fe1e33e0f9" (0 ∷ 0 ∷ 23 ∷ 1 ∷ [])
    ∷ at "a00220.html#a952af666858535b863b162a8b9e53e0c" (0 ∷ 0 ∷ 23 ∷ 3 ∷ [])
    ∷ at "a00220.html#ab0ad90885135c692b3162cbf6f223cd0" (0 ∷ 0 ∷ 23 ∷ 6 ∷ [])
    ∷ at "a00220.html#ade465778b424b13ee99e044c2a221af8" (0 ∷ 0 ∷ 23 ∷ 7 ∷ [])
    ∷ at "a00220.html#ae26c11738472ff9c03fa0ac5c00289c9" (0 ∷ 0 ∷ 23 ∷ 0 ∷ [])
    ∷ at "a00220.html#af88e103c5cc9efdd328226163a9101c7" (0 ∷ 0 ∷ 23 ∷ 4 ∷ [])
    ∷ at "a00224.html" (0 ∷ 0 ∷ 24 ∷ [])
    ∷ at "a00224.html#a814ab10dfaa7eca1fe81f572342ae325" (0 ∷ 0 ∷ 24 ∷ 0 ∷ [])
    ∷ at "a00224.html#ae6076f1360d7b8bbdf79e7b22f45fc29" (0 ∷ 0 ∷ 24 ∷ 1 ∷ [])
    ∷ at "a00228.html" (0 ∷ 0 ∷ 21 ∷ [])
    ∷ at "a00228.html#a2d86e5093bb7930fcc70730ad73ab103" (0 ∷ 0 ∷ 21 ∷ 2 ∷ [])
    ∷ at "a00228.html#a5246c33b96861a607d173c5b9a6cf5f8" (0 ∷ 0 ∷ 21 ∷ 1 ∷ [])
    ∷ at "a00228.html#a8951871c92918826408dfedc4156ee20" (0 ∷ 0 ∷ 21 ∷ 0 ∷ [])
    ∷ at "a00232.html" (0 ∷ 0 ∷ 26 ∷ [])
    ∷ at "a00232.html#a9092e5e087843ebfc5d7cfa40f04a1c2" (0 ∷ 0 ∷ 26 ∷ 0 ∷ [])
    ∷ at "a00232.html#ad6cef620e07a83dabbc6220020ee47b5" (0 ∷ 0 ∷ 26 ∷ 1 ∷ [])
    ∷ at "a00236.html" (0 ∷ 0 ∷ 20 ∷ [])
    ∷ at "a00236.html#a341d29a495da6914bb99b0af853c4fd1" (0 ∷ 0 ∷ 20 ∷ 0 ∷ [])
    ∷ at "a00236.html#a819a08a56fe8d2cbbeb4a4409d60c975" (0 ∷ 0 ∷ 20 ∷ 2 ∷ [])
    ∷ at "a00236.html#abb1df8a9d3c54299a3de780e49f2fe92" (0 ∷ 0 ∷ 20 ∷ 1 ∷ [])
    ∷ at "a00240.html" (0 ∷ 0 ∷ 22 ∷ [])
    ∷ at "a00240.html#a2c0952177d9da1b0018e289505b94a34" (0 ∷ 0 ∷ 22 ∷ 0 ∷ [])
    ∷ at "a00240.html#aa77da4c2abd0430f203daadd1ff7dee8" (0 ∷ 0 ∷ 22 ∷ 1 ∷ [])
    ∷ at "a00244.html" (0 ∷ 0 ∷ 19 ∷ [])
    ∷ at "a00244.html#a0130fb0963c09a80ce48a909b385aba5" (0 ∷ 0 ∷ 19 ∷ 2 ∷ [])
    ∷ at "a00244.html#a7eae7fcad883d4d78c9daef00fe08e6c" (0 ∷ 0 ∷ 19 ∷ 3 ∷ [])
    ∷ at "a00244.html#a93f9e0ac48cbc3f9147e68bef96763c6" (0 ∷ 0 ∷ 19 ∷ 0 ∷ [])
    ∷ at "a00244.html#afd2f1c406a61de0f0595824295bcb050" (0 ∷ 0 ∷ 19 ∷ 1 ∷ [])
    ∷ at "a00248.html" (0 ∷ 0 ∷ 2 ∷ [])
    ∷ at "a00248.html#a35c50c64b71cf15cf96197ea8a28c3bd" (0 ∷ 0 ∷ 2 ∷ 0 ∷ [])
    ∷ at "a00248.html#a93545de6afcf5b4531df73696b3e96ce" (0 ∷ 0 ∷ 2 ∷ 2 ∷ [])
    ∷ at "a00248.html#ae718e729383388ca41bb7d69bf560669" (0 ∷ 0 ∷ 2 ∷ 1 ∷ [])
    ∷ at "a00252.html" (0 ∷ 0 ∷ 1 ∷ [])
    ∷ at "a00252.html#a088a6a47110be1eca4f95d265adcc02e" (0 ∷ 0 ∷ 1 ∷ 2 ∷ [])
    ∷ at "a00252.html#a1186aa17d0f7fed7f6e70e9f2c3c75d8" (0 ∷ 0 ∷ 1 ∷ 7 ∷ [])
    ∷ at "a00252.html#a120191be0e7e0d4e4519a1637a335fbe" (0 ∷ 0 ∷ 1 ∷ 3 ∷ [])
    ∷ at "a00252.html#a2b358563c6e3266e010a546c28272aa5" (0 ∷ 0 ∷ 1 ∷ 1 ∷ [])
    ∷ at "a00252.html#a47d698601ceb067d2685808c71c400bd" (0 ∷ 0 ∷ 1 ∷ 9 ∷ [])
    ∷ at "a00252.html#a73b1d29239767dedf35599f4a525f5a0" (0 ∷ 0 ∷ 1 ∷ 0 ∷ [])
    ∷ at "a00252.html#a791a8c89cbaa2a356e5fba1bb55aa67e" (0 ∷ 0 ∷ 1 ∷ 10 ∷ [])
    ∷ at "a00252.html#a94e3ab00a0698e2b96726d9d9047f8f1" (0 ∷ 0 ∷ 1 ∷ 4 ∷ [])
    ∷ at "a00252.html#aae0709321031fe9643187ff4e83e45be" (0 ∷ 0 ∷ 1 ∷ 6 ∷ [])
    ∷ at "a00252.html#ad4d817ab632c1a0476dbac5b15152a30" (0 ∷ 0 ∷ 1 ∷ 5 ∷ [])
    ∷ at "a00252.html#ad7f5841dcfc17fef658ad5db15ea9b89" (0 ∷ 0 ∷ 1 ∷ 8 ∷ [])
    ∷ at "a00256.html" (0 ∷ 0 ∷ 0 ∷ [])
    ∷ at "a00256.html#a332b861b97a0354bb79a90e4b94044fc" (0 ∷ 0 ∷ 0 ∷ 0 ∷ [])
    ∷ at "a00256.html#a8365fd20396e3067525bf1de1699ad1c" (0 ∷ 0 ∷ 0 ∷ 6 ∷ [])
    ∷ at "a00256.html#a9b13de9861e399b047369d9f87add9b9" (0 ∷ 0 ∷ 0 ∷ 1 ∷ [])
    ∷ at "a00256.html#aa63c199c890e5544362a74c0a1a54f18" (0 ∷ 0 ∷ 0 ∷ 2 ∷ [])
    ∷ at "a00256.html#ac2eaf70b7b3cbecf1f6822d0abea10cf" (0 ∷ 0 ∷ 0 ∷ 3 ∷ [])
    ∷ at "a00256.html#aed783a84af756c09298ba1c1db758d24" (0 ∷ 0 ∷ 0 ∷ 4 ∷ [])
    ∷ at "a00256.html#afda394bd9ce7437f0d977849f174355e" (0 ∷ 0 ∷ 0 ∷ 5 ∷ [])
    ∷ at "a00260.html" (0 ∷ 0 ∷ 4 ∷ [])
    ∷ at "a00260.html#a199f2657cebba34be43baf497cc5f3f0" (0 ∷ 0 ∷ 4 ∷ 1 ∷ [])
    ∷ at "a00260.html#abde90c830e321b8198f04ba69e07ab50" (0 ∷ 0 ∷ 4 ∷ 0 ∷ [])
    ∷ at "a00261.html" (1 ∷ 0 ∷ 0 ∷ 0 ∷ 1 ∷ 0 ∷ [])
    ∷ at "a00261.html#a46fa2dbb047795a353ed2287f3b8eba8" (1 ∷ 0 ∷ 0 ∷ 0 ∷ 1 ∷ 0 ∷ 2 ∷ [])
    ∷ at "a00261.html#a4e6fb3d8b1edcc908a4603d4aa7aef03" (1 ∷ 0 ∷ 0 ∷ 0 ∷ 1 ∷ 0 ∷ 0 ∷ [])
    ∷ at "a00261.html#a59373f42ae455344fede3a006d239318" (1 ∷ 0 ∷ 0 ∷ 0 ∷ 1 ∷ 0 ∷ 1 ∷ [])
    ∷ at "a00261.html#ae9907f0900630263f50fd895ed8a5919" (1 ∷ 0 ∷ 0 ∷ 0 ∷ 1 ∷ 0 ∷ 4 ∷ [])
    ∷ at "a00261.html#af2fac2d3c8acad4009c7eabbbfd9908e" (1 ∷ 0 ∷ 0 ∷ 0 ∷ 1 ∷ 0 ∷ 3 ∷ [])
    ∷ at "a00264.html" (1 ∷ 0 ∷ 0 ∷ 0 ∷ 3 ∷ 0 ∷ [])
    ∷ at "a00264.html#a46fa2dbb047795a353ed2287f3b8eba8" (1 ∷ 0 ∷ 0 ∷ 0 ∷ 3 ∷ 0 ∷ 2 ∷ [])
    ∷ at "a00264.html#a4e6fb3d8b1edcc908a4603d4aa7aef03" (1 ∷ 0 ∷ 0 ∷ 0 ∷ 3 ∷ 0 ∷ 0 ∷ [])
    ∷ at "a00264.html#a59373f42ae455344fede3a006d239318" (1 ∷ 0 ∷ 0 ∷ 0 ∷ 3 ∷ 0 ∷ 1 ∷ [])
    ∷ at "a00264.html#ae9907f0900630263f50fd895ed8a5919" (1 ∷ 0 ∷ 0 ∷ 0 ∷ 3 ∷ 0 ∷ 4 ∷ [])
    ∷ at "a00264.html#af2fac2d3c8acad4009c7eabbbfd9908e" (1 ∷ 0 ∷ 0 ∷ 0 ∷ 3 ∷ 0 ∷ 3 ∷ [])
    ∷ at "a00267.html" (1 ∷ 0 ∷ 0 ∷ 0 ∷ 1 ∷ 1 ∷ [])
    ∷ at "a00267.html#a2a2d1010d09d0f0280aa875f596e0741" (1 ∷ 0 ∷ 0 ∷ 0 ∷ 1 ∷ 1 ∷ 0 ∷ [])
    ∷ at "a00267.html#a4e6fb3d8b1edcc908a4603d4aa7aef03" (1 ∷ 0 ∷ 0 ∷ 0 ∷ 1 ∷ 1 ∷ 1 ∷ [])
    ∷ at "a00267.html#a840291bc02cba5474a4cb46a9b9566fe" (1 ∷ 0 ∷ 0 ∷ 0 ∷ 1 ∷ 1 ∷ 2 ∷ [])
    ∷ at "a00267_source.html" (1 ∷ 0 ∷ 0 ∷ 0 ∷ 1 ∷ 1 ∷ [])
    ∷ at "a00270.html" (1 ∷ 0 ∷ 0 ∷ 0 ∷ 3 ∷ 1 ∷ [])
    ∷ at "a00270.html#a2a2d1010d09d0f0280aa875f596e0741" (1 ∷ 0 ∷ 0 ∷ 0 ∷ 3 ∷ 1 ∷ 0 ∷ [])
    ∷ at "a00270.html#a4e6fb3d8b1edcc908a4603d4aa7aef03" (1 ∷ 0 ∷ 0 ∷ 0 ∷ 3 ∷ 1 ∷ 1 ∷ [])
    ∷ at "a00270.html#a840291bc02cba5474a4cb46a9b9566fe" (1 ∷ 0 ∷ 0 ∷ 0 ∷ 3 ∷ 1 ∷ 2 ∷ [])
    ∷ at "a00270_source.html" (1 ∷ 0 ∷ 0 ∷ 0 ∷ 3 ∷ 1 ∷ [])
    ∷ at "a00273.html" (1 ∷ 0 ∷ 0 ∷ 0 ∷ 1 ∷ 2 ∷ [])
    ∷ at "a00273.html#a91eb2c1ee7fb81800ddd298ad93e4047" (1 ∷ 0 ∷ 0 ∷ 0 ∷ 1 ∷ 2 ∷ 0 ∷ [])
    ∷ at "a00276.html" (1 ∷ 0 ∷ 0 ∷ 0 ∷ 3 ∷ 2 ∷ [])
    ∷ at "a00276.html#a91eb2c1ee7fb81800ddd298ad93e4047" (1 ∷ 0 ∷ 0 ∷ 0 ∷ 3 ∷ 2 ∷ 0 ∷ [])
    ∷ at "a00279.html" (1 ∷ 0 ∷ 0 ∷ 0 ∷ 1 ∷ 3 ∷ [])
    ∷ at "a00279.html#a91eb2c1ee7fb81800ddd298ad93e4047" (1 ∷ 0 ∷ 0 ∷ 0 ∷ 1 ∷ 3 ∷ 0 ∷ [])
    ∷ at "a00279_source.html" (1 ∷ 0 ∷ 0 ∷ 0 ∷ 1 ∷ 3 ∷ [])
    ∷ at "a00282.html" (1 ∷ 0 ∷ 0 ∷ 0 ∷ 3 ∷ 3 ∷ [])
    ∷ at "a00282.html#a91eb2c1ee7fb81800ddd298ad93e4047" (1 ∷ 0 ∷ 0 ∷ 0 ∷ 3 ∷ 3 ∷ 0 ∷ [])
    ∷ at "a00282_source.html" (1 ∷ 0 ∷ 0 ∷ 0 ∷ 3 ∷ 3 ∷ [])
    ∷ at "a00285.html" (1 ∷ 0 ∷ 0 ∷ 0 ∷ 1 ∷ 5 ∷ [])
    ∷ at "a00285.html#a004a86ca4c8797352e0e0ae7f3eeb4f0" (1 ∷ 0 ∷ 0 ∷ 0 ∷ 1 ∷ 5 ∷ 0 ∷ [])
    ∷ at "a00285.html#ac4a79cc8f6845c2de668bd5bd68fd553" (1 ∷ 0 ∷ 0 ∷ 0 ∷ 1 ∷ 5 ∷ 1 ∷ [])
    ∷ at "a00288.html" (1 ∷ 0 ∷ 0 ∷ 0 ∷ 3 ∷ 4 ∷ [])
    ∷ at "a00288.html#af9aace1b44b73111e15aa39f06f43456" (1 ∷ 0 ∷ 0 ∷ 0 ∷ 3 ∷ 4 ∷ 0 ∷ [])
    ∷ at "a00291.html" (1 ∷ 0 ∷ 0 ∷ 0 ∷ 1 ∷ 7 ∷ [])
    ∷ at "a00291.html#a087393fc9dd24ac208f100c386dd02e0" (1 ∷ 0 ∷ 0 ∷ 0 ∷ 1 ∷ 7 ∷ 13 ∷ [])
    ∷ at "a00291.html#a0cd97604693fc9a12baddc0d7039abc9" (1 ∷ 0 ∷ 0 ∷ 0 ∷ 1 ∷ 7 ∷ 8 ∷ [])
    ∷ at "a00291.html#a12e0a5703767c19b688f1056ce87518f" (1 ∷ 0 ∷ 0 ∷ 0 ∷ 1 ∷ 7 ∷ 2 ∷ [])
    ∷ at "a00291.html#a18b21d13c6e44a0c13509efed221f6ff" (1 ∷ 0 ∷ 0 ∷ 0 ∷ 1 ∷ 7 ∷ 4 ∷ [])
    ∷ at "a00291.html#a2b3c04c8aee4000b3fc582d3d6e73254" (1 ∷ 0 ∷ 0 ∷ 0 ∷ 1 ∷ 7 ∷ 19 ∷ [])
    ∷ at "a00291.html#a2ce6c25dca4d916c6b1ca40ae3a431e3" (1 ∷ 0 ∷ 0 ∷ 0 ∷ 1 ∷ 7 ∷ 12 ∷ [])
    ∷ at "a00291.html#a333824d79fa9e46b6969bfff7e3a1158" (1 ∷ 0 ∷ 0 ∷ 0 ∷ 1 ∷ 7 ∷ 6 ∷ [])
    ∷ at "a00291.html#a365ac1202478160e1ced5899f65b15c6" (1 ∷ 0 ∷ 0 ∷ 0 ∷ 1 ∷ 7 ∷ 3 ∷ [])
    ∷ at "a00291.html#a44d268544426ce78fedfe1f53d22b028" (1 ∷ 0 ∷ 0 ∷ 0 ∷ 1 ∷ 7 ∷ 0 ∷ [])
    ∷ at "a00291.html#a50ee30b06c127961e73a9333fbf47172" (1 ∷ 0 ∷ 0 ∷ 0 ∷ 1 ∷ 7 ∷ 18 ∷ [])
    ∷ at "a00291.html#a54b8a057aeabc35229a18d654ddd768d" (1 ∷ 0 ∷ 0 ∷ 0 ∷ 1 ∷ 7 ∷ 5 ∷ [])
    ∷ at "a00291.html#a5a67752d33bbe35cd1442c3fffa4ea25" (1 ∷ 0 ∷ 0 ∷ 0 ∷ 1 ∷ 7 ∷ 17 ∷ [])
    ∷ at "a00291.html#a70d944aa12cea2bad255b9bdd30225eb" (1 ∷ 0 ∷ 0 ∷ 0 ∷ 1 ∷ 7 ∷ 15 ∷ [])
    ∷ at "a00291.html#a93fbbf8c538edd677ff2e013e4b024c4" (1 ∷ 0 ∷ 0 ∷ 0 ∷ 1 ∷ 7 ∷ 16 ∷ [])
    ∷ at "a00291.html#aaa89fe8cb6b6e1e7bdfbafe0bd817094" (1 ∷ 0 ∷ 0 ∷ 0 ∷ 1 ∷ 7 ∷ 10 ∷ [])
    ∷ at "a00291.html#aae70ddc633ba20e9e523d23e69df69f0" (1 ∷ 0 ∷ 0 ∷ 0 ∷ 1 ∷ 7 ∷ 9 ∷ [])
    ∷ at "a00291.html#aba17145211fbee9e11cbbd79a8342566" (1 ∷ 0 ∷ 0 ∷ 0 ∷ 1 ∷ 7 ∷ 1 ∷ [])
    ∷ at "a00291.html#ac2cfc934106a5bc629f0b354b08a30f5" (1 ∷ 0 ∷ 0 ∷ 0 ∷ 1 ∷ 7 ∷ 11 ∷ [])
    ∷ at "a00291.html#acc67feac22b919c3b27c87fc5b66af78" (1 ∷ 0 ∷ 0 ∷ 0 ∷ 1 ∷ 7 ∷ 20 ∷ [])
    ∷ at "a00291.html#aee5c5b6cfe2cc9ee4a8f84f7d690ccbc" (1 ∷ 0 ∷ 0 ∷ 0 ∷ 1 ∷ 7 ∷ 14 ∷ [])
    ∷ at "a00291.html#af73ce780a255e5232dc7196acafebf11" (1 ∷ 0 ∷ 0 ∷ 0 ∷ 1 ∷ 7 ∷ 7 ∷ [])
    ∷ at "a00294.html" (1 ∷ 0 ∷ 0 ∷ 0 ∷ 3 ∷ 5 ∷ [])
    ∷ at "a00294.html#a0137626183f8415fdd7a882877ebf3fb" (1 ∷ 0 ∷ 0 ∷ 0 ∷ 3 ∷ 5 ∷ 6 ∷ [])
    ∷ []
