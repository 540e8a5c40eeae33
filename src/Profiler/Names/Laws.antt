-- ===== src/Profiler/Names/Laws.antt =====
-- The hash table of profiler/analyzer/nm_parse.c against the list of the symbols of the file.
use ta_ref.Prelude.{
  ==_iff, leb, ◌&&◌, All, ℕ, ◌+◌, ◌≤◌, ◌<◌, ◌≡◌, ◌≢◌, refl, ap, ◌∙◌, inl, inr, Bool, true, false,
  List, [], ◌∷◌, Option, none, some, if◌then◌else◌, ◌==◌, ltb, arith, length, all, Bool-cases,
}
use mathlib.Core.Option
use native.Mathlib.Decide.{dec_lt}
use ta_ref.Text.{Str}
use ta_ref.Profiler.{set_slot}
use ta_ref.Profiler.Names.{
  name_size, Symbol, NmInfo, Elem, Table, get_key, find_elem, get_func_name, add_symbol, table,
  overrun, parse_symbols, parse_nm, create_htable, pool_size, max_addr,
}

-- A symbol whose name fits into func_name, and whose address is taken.
abbrev pub is_read : Symbol → Bool
is_read s = ltb (length s.func_name) name_size && ltb s.addr max_addr

abbrev pub or_else : Option Str → Option Str → Option Str
or_else none other = other
or_else (some name) other = some name

or_else_assoc : (a b c : Option Str) → or_else a (or_else b c) ≡ or_else (or_else a b) c
or_else_assoc none b c = refl
or_else_assoc (some name) b c = refl

-- The name of the last symbol with the address.
pub last_name : ℕ → List Symbol → Option Str
last_name addr [] = none
last_name addr (s ∷ ss) =
    or_else (last_name addr ss) (if s.addr == addr then some (s.func_name) else none)

-- Every element points to a symbol that is in the pool.
pub record IsFilled (t : Table) : Type 0 where
  pub behind : (key : ℕ) → All (λ (e : Elem). e.nm < t.idx) (t.chains key)

set_slot-ne {ℓ} :
    {A : Type ℓ} (slots : ℕ → A) (i : ℕ) (v : A) (j : ℕ) → i ≢ j → set_slot slots i v j ≡ slots j
unfolding set_slot
set_slot-ne slots i v j h = ground arith

-- What a lookup gives does not change where a symbol is put behind all that the chain points to.
find_elem-pool :
    (addr : ℕ) (es : List Elem) (pool : ℕ → NmInfo) (i : ℕ) (nm : NmInfo)
    → All (λ (e : Elem). e.nm < i) es
    → Option.map (λ e. (set_slot pool i nm e.nm).func_name) (find_elem addr es)
      ≡ Option.map (λ e. (pool e.nm).func_name) (find_elem addr es)
unfolding find_elem
find_elem-pool addr [] pool i nm all = refl
find_elem-pool addr (e ∷ es) pool i nm all = elim (Bool-cases (e.addr == addr)) [
  | inl same ↦ rw same (rw (set_slot-ne pool i nm e.nm (omega arith)) refl)
  | inr other ↦ rw other (find_elem-pool addr es pool i nm (all.1))
]

-- A lookup in the chain that the symbol was put into, and in the others.
module _ (s : Symbol) (t : Table) (addr : ℕ) where
  added_found : s.addr ≡ addr → get_func_name (add_symbol s t) addr ≡ some (s.func_name)
  unfolding get_func_name add_symbol
  added_found same = rw (← same) (
      rw ((==_iff (get_key s.addr) (get_key s.addr)).1 refl)
        (rw ((==_iff s.addr s.addr).1 refl) (rw ((==_iff t.idx t.idx).1 refl) refl)))

  added_skipped :
      IsFilled t
      → (s.addr == addr) ≡ false
      → get_func_name (add_symbol s t) addr ≡ get_func_name t addr
  unfolding get_func_name add_symbol
  added_skipped filled other =
      let kept =
        find_elem-pool addr (t.chains (get_key addr)) t.pool t.idx
          (record { kind = s.kind; func_name = s.func_name }) (filled.behind (get_key addr)) in
      elim (Bool-cases (get_key s.addr == get_key addr)) [
        | inl key ↦
            let e = (==_iff (get_key s.addr) (get_key addr)).0 key in rw key (rw e (rw other kept))
        | inr key ↦ rw key kept
      ]

get_func_name-add_symbol :
    (s : Symbol) (t : Table) (addr : ℕ)
    → IsFilled t
    → get_func_name (add_symbol s t) addr
      ≡ (if s.addr == addr then some (s.func_name) else get_func_name t addr)
get_func_name-add_symbol s t addr filled = elim (Bool-cases (s.addr == addr)) [
  | inl same ↦ rw same (added_found s t addr ((==_iff s.addr addr).0 same))
  | inr other ↦ rw other (added_skipped s t addr filled other)
]

behind_more :
    (es : List Elem) (i : ℕ) → All (λ (e : Elem). e.nm < i) es → All (λ (e : Elem). e.nm < i + 1) es
behind_more [] i all = tt
behind_more (e ∷ es) i all = (omega arith, behind_more es i all.1)

add_symbol-IsFilled : (s : Symbol) (t : Table) → IsFilled t → IsFilled (add_symbol s t)
unfolding add_symbol
add_symbol-IsFilled s t filled = record {
  behind = λ key. elim (Bool-cases (get_key s.addr == key)) [
    | inl same ↦ rw same (omega arith, behind_more _ t.idx (filled.behind (get_key s.addr)))
    | inr other ↦ rw other (behind_more _ t.idx (filled.behind key))
  ];
}

if-or_else :
    (b : Bool) (name : Str) (other : Option Str)
    → (if b then some name else other) ≡ or_else (if b then some name else none) other
if-or_else true name other = refl
if-or_else false name other = refl

parse_symbols-step :
    (s : Symbol) (ss : List Symbol) (t : Table)
    → t.idx < pool_size
    → is_read s ≡ true
    → parse_symbols (s ∷ ss) t ≡ parse_symbols ss (add_symbol s t)
unfolding parse_symbols
parse_symbols-step s ss t fits small = ground arith

-- The lookups in the table after the symbols, and in the one before.
parse_symbols_lem :
    (ss : List Symbol) (t : Table)
    → IsFilled t
    → t.idx + length ss ≤ pool_size
    → all is_read ss ≡ true
    → (t' : Table) × (parse_symbols ss t ≡ table t')
      × ((addr : ℕ) → get_func_name t' addr ≡ or_else (last_name addr ss) (get_func_name t addr))
unfolding parse_symbols last_name
parse_symbols_lem [] t filled fits small = (t, refl, λ addr. refl)
parse_symbols_lem (s ∷ ss) t filled fits small =
    let (t', runs, names) =
      parse_symbols_lem ss (add_symbol s t) (add_symbol-IsFilled s t filled) (omega arith)
        (ground arith) in
    (
      t',
      parse_symbols-step s ss t (omega arith) (ground arith) ∙ runs,
      λ addr.
          names addr
          ∙ (ap (or_else (last_name addr ss)) (
                get_func_name-add_symbol s t addr filled
                ∙ if-or_else (s.addr == addr) (s.func_name) (get_func_name t addr))
              ∙ or_else_assoc (last_name addr ss) _ (get_func_name t addr)),
    )

or_else-none : (a : Option Str) → or_else a none ≡ a
or_else-none none = refl
or_else-none (some name) = refl

-- A file of at most POOL_SIZE symbols, with addresses below MAX_ADDR and names of fewer than 256
-- bytes, is read to a table in which get_func_name finds at each address the name of the last symbol
-- with that address, and nothing where no symbol has it, whatever other addresses share its chain.
pub get_func_name-parse_nm :
    (pool : ℕ → NmInfo) (symbols : List Symbol)
    → length symbols ≤ pool_size
    → all is_read symbols ≡ true
    → (t : Table) × (parse_nm pool (some symbols) ≡ table t)
      × ((addr : ℕ) → get_func_name t addr ≡ last_name addr symbols)
unfolding parse_nm create_htable get_func_name find_elem
get_func_name-parse_nm pool symbols fits small =
    let (t, runs, names) =
      parse_symbols_lem symbols (create_htable pool) (record { behind = λ key. tt }) (omega arith)
        small in
    (t, runs, λ addr. names addr ∙ or_else-none (last_name addr symbols))

parse_symbols-overrun :
    (ss : List Symbol) (t : Table)
    → t.idx ≤ pool_size
    → pool_size < t.idx + length ss
    → all (λ s. ltb s.addr max_addr) ss ≡ true
    → parse_symbols ss t ≡ overrun
unfolding parse_symbols
parse_symbols-overrun [] t fits more small = absurd (omega arith)
parse_symbols-overrun (s ∷ ss) t fits more small = elim (dec_lt t.idx pool_size) [
  | yes less ↦ elim (Bool-cases (leb name_size (length s.func_name))) [
    | inl long ↦ rw long refl
    | inr short ↦
        parse_symbols-step s ss t less (ground arith)
        ∙ parse_symbols-overrun ss (add_symbol s t) (unfold add_symbol in omega arith)
            (unfold add_symbol in omega arith) (ground arith)
  ]
  | no full ↦ ground arith
]

-- A file with more than POOL_SIZE symbols whose addresses are all below MAX_ADDR is read past the end
-- of the pool, or of func_name where a name of 256 bytes or more comes first.
pub parse_nm_overruns :
    (pool : ℕ → NmInfo) (symbols : List Symbol)
    → pool_size < length symbols
    → all (λ s. ltb s.addr max_addr) symbols ≡ true
    → parse_nm pool (some symbols) ≡ overrun
unfolding parse_nm create_htable get_func_name find_elem
parse_nm_overruns pool symbols more small =
    parse_symbols-overrun symbols (create_htable pool) (omega arith) (omega arith) small
