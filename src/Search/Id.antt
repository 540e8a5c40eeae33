-- ===== src/Search/Id.antt =====
-- convertToId of search/search.js: a search text as the id that the index gives to an entry.
pub mod Laws
use ta_ref.Prelude.{ℕ, Bool, List, [], ◌∷◌, ◌++◌, ltb, leb, if◌then◌else◌, ◌&&◌, ◌||◌}
use ta_ref.Text.{Str, to_hex}

-- c.match(/[a-z0-9\u0080-\uFFFF]/) at one code unit
unfoldable pub is_kept : ℕ → Bool
is_kept c = (leb b'a' c && leb c b'z') || (leb b'0' c && leb c b'9') || (leb 0x80 c && leb c 0xFFFF)

-- What one round of the loop appends.
unfoldable pub encode_unit : ℕ → Str
unfolding is_kept to_hex
encode_unit cn =
    if is_kept cn then cn ∷ [] else if ltb cn 16 then b'_' ∷ b'0' ∷ to_hex cn else b'_' ∷ to_hex cn

convert_from : Str → Str → Str
convert_from result [] = result
convert_from result (c ∷ rest) = convert_from (result ++ encode_unit c) rest

unfoldable pub convert_to_id : Str → Str
unfolding convert_from
convert_to_id search = convert_from [] search
