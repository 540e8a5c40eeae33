-- ===== src/Profiler/Names.antt =====
-- profiler/analyzer/nm_parse.c: the table from addresses to the names of functions, a hash table of
-- HASH_SIZE chains whose elements point into a pool of symbols. sscanf is a function of the C library:
-- what it leaves in addr, type and func_name for a line of the file is an argument.
pub mod Laws
use mathlib.Core.Option
use ta_ref.Prelude.{
  ℕ, zero, suc, ◌+◌, ◌%◌, Bool, true, false, List, [], ◌∷◌, Option, none, some, ltb, leb, ◌==◌,
  if◌then◌else◌, length,
}
use ta_ref.Text.{Str}
use ta_ref.Profiler.{set_slot}

abbrev pub hash_size : ℕ
hash_size = 65536

abbrev pub pool_size : ℕ
pool_size = 30000

abbrev pub max_addr : ℕ
max_addr = 0xFFFFFFFF

-- What sscanf leaves of a line.
pub record Symbol : Type 0 where
  pub addr : ℕ
  pub kind : ℕ
  pub func_name : Str

-- struct nm_info
pub record NmInfo : Type 0 where
  pub kind : ℕ
  pub func_name : Str

-- struct list: an address, and the place of the symbol in the pool
pub record Elem : Type 0 where
  pub addr : ℕ
  pub nm : ℕ

-- The chains of the table, from the element behind the head; nm_pool and idx.
pub record Table : Type 0 where
  pub chains : ℕ → List Elem
  pub pool : ℕ → NmInfo
  pub idx : ℕ

unfoldable pub get_key : ℕ → ℕ
get_key addr = addr % hash_size

-- The loop of get_func_name along a chain.
unfoldable pub find_elem : ℕ → List Elem → Option Elem
find_elem addr [] = none
find_elem addr (e ∷ es) = if e.addr == addr then some e else find_elem addr es

unfoldable pub get_func_name : Table → ℕ → Option Str
unfolding get_key find_elem
get_func_name t addr =
    Option.map (λ e. (t.pool e.nm).func_name) (find_elem addr (t.chains (get_key addr)))

unfoldable pub create_htable : (ℕ → NmInfo) → Table
create_htable pool = record { chains = λ i. []; pool = pool; idx = 0 }

unfoldable pub insert_nm : ℕ → ℕ → Table → Table
unfolding set_slot get_key
insert_nm addr nm t = record t {
  chains =
      set_slot t.chains (get_key addr)
        ((record { addr = addr; nm = nm }) ∷ t.chains (get_key addr));
}

-- What reading the file comes to: a table, NULL, or a write behind the end of func_name or of nm_pool,
-- which the code does not test for.
pub data Parsed : Type 0 where
  table : Table → Parsed
  null : Parsed
  overrun : Parsed

-- The bytes of func_name: a name and the zero behind it.
abbrev pub name_size : ℕ
name_size = 256

-- What the loop does with a symbol whose name fits, so that strncpy copies it with its zero.
unfoldable pub add_symbol : Symbol → Table → Table
unfolding insert_nm set_slot
add_symbol s t =
    let filled = record t {
      pool = set_slot t.pool t.idx (record { kind = s.kind; func_name = s.func_name });
    } in
    let t' = insert_nm s.addr t.idx filled in record t' { idx = t.idx + 1 }

-- The loop of parse_nm over what sscanf leaves of each line.
unfoldable pub parse_symbols : List Symbol → Table → Parsed
unfolding add_symbol
parse_symbols [] t = table t
parse_symbols (s ∷ ss) t =
    if leb name_size (length s.func_name)
    then overrun
    else if leb max_addr s.addr
    then null
    else let rest = parse_symbols ss (add_symbol s t) in
      if ltb t.idx pool_size then rest else overrun

-- parse_nm on a file whose lines are read by sscanf; none is a file that cannot be opened
unfoldable pub parse_nm : (ℕ → NmInfo) → Option (List Symbol) → Parsed
unfolding parse_symbols create_htable
parse_nm pool none = null
parse_nm pool (some symbols) = parse_symbols symbols (create_htable pool)
