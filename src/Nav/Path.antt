-- ===== src/Nav/Path.antt =====
-- The paths and hashes of navtree.js: getData, stripPath, stripPath2, hashValue, hashUrl, pathName.
pub mod Laws
use ta_ref.Prelude.{
  ℕ, zero, suc, ◌+◌, ◌-◌, Bool, true, false, not, ◌&&◌, ◌||◌, List, [], ◌∷◌, ◌++◌, Option, none,
  some, if◌then◌else◌, ◌==◌, leb, take, drop, map,
}
use ta_ref.Text.{Str, last_index_of}

-- uri.lastIndexOf('/')+1, which is 0 where there is none
abbrev pub after_slash : Option ℕ → ℕ
after_slash none = 0
after_slash (some i) = suc i

-- stripPath
unfoldable pub strip_path : Str → Str
unfolding last_index_of
strip_path uri = drop (after_slash (last_index_of b'/' uri)) uri

abbrev dash_to_underscore : ℕ → ℕ
dash_to_underscore c = if c == b'-' then b'_' else c

-- The name of the variable that getData evaluates.
unfoldable pub data_name : Str → Str
unfolding last_index_of
data_name var_name =
    map dash_to_underscore
      (elim (last_index_of b'/' var_name) [ none ↦ var_name | some i ↦ drop (i + 1) var_name ])

-- \w
abbrev pub is_word : ℕ → Bool
is_word c =
    (leb b'A' c && leb c b'Z')
    || (leb b'a' c && leb c b'z')
    || (leb b'0' c && leb c b'9')
    || c == b'_'

-- The match of /\/d\w\/d\w\w\/$/ in eight units.
pub is_dir_pair : Str → Bool
is_dir_pair (a ∷ b ∷ c ∷ d ∷ e ∷ f ∷ g ∷ h ∷ []) =
    a == b'/'
    && b == b'd'
    && is_word c
    && d == b'/'
    && e == b'd'
    && is_word f
    && is_word g
    && h == b'/'
is_dir_pair _ = false

-- stripPath2
unfoldable pub strip_at : Str → Option ℕ → Str
unfolding is_dir_pair
strip_at uri none = uri
strip_at uri (some i) =
    if leb 7 i && is_dir_pair (drop (i - 7) (take (suc i) uri))
    then drop (i - 6) uri
    else drop (suc i) uri

unfoldable pub strip_path2 : Str → Str
unfolding strip_at last_index_of
strip_path2 uri = strip_at uri (last_index_of b'/' uri)

unfoldable pub keep : (ℕ → Bool) → Str → Str
keep p [] = []
keep p (c ∷ s) = if p c then c ∷ keep p s else keep p s

abbrev pub is_hash_unit : ℕ → Bool
is_hash_unit c = is_word c || c == b'-'

-- hashValue, from the hash of the location: `#` and what follows it
unfoldable pub hash_value : Str → Str
unfolding keep
hash_value hash = keep is_hash_unit (drop 1 hash)

-- hashUrl
unfoldable pub hash_url : Str → Str
unfolding hash_value
hash_url hash = b'#' ∷ hash_value hash

-- [-A-Za-z0-9+&@#/%?=~_|!:,.;\(\)]
abbrev pub is_path_unit : ℕ → Bool
is_path_unit c =
    is_word c
    || c == b'-'
    || c == b'+'
    || c == b'&'
    || c == b'@'
    || c == b'#'
    || c == b'/'
    || c == b'%'
    || c == b'?'
    || c == b'='
    || c == b'~'
    || c == b'|'
    || c == b'!'
    || c == b':'
    || c == b','
    || c == b'.'
    || c == b';'
    || c == b'('
    || c == b')'

-- pathName, from the path of the location
unfoldable pub path_name : Str → Str
unfolding keep
path_name path = keep is_path_unit path
