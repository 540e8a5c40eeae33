-- ===== src/Profiler/Analyzer.antt =====
-- main of profiler/analyzer/analyzer.c: the records of a log, matched into the calls that returned.
pub mod Laws
use ta_ref.Prelude.{
  ℕ, zero, suc, ◌+◌, Bool, true, false, List, [], ◌∷◌, ◌++◌, Option, none, some, ltb, ◌==◌,
  if◌then◌else◌,
}
use ta_ref.Text.{Str}
use ta_ref.Profiler.{sub64, Data, Log, dir_call, dir_ret}
use ta_ref.Profiler.Stack.{Frame, Stack, push, pop, is_empty}
use ta_ref.Profiler.Names.{Table, get_func_name}

-- How many records of 24 bytes fit into buf, of BUF_MAX bytes, behind the header.
abbrev pub buf_slots : ℕ
buf_slots = 2729

-- The columns of a line.
pub record Line : Type 0 where
  pub id : ℕ
  pub idx : ℕ
  pub start_core_id : ℕ
  pub end_core_id : ℕ
  pub depth : ℕ
  pub addr : ℕ
  pub funcname : Option Str
  pub start : ℕ
  pub end : ℕ
  pub duration : ℕ

-- What is printed: the names of the columns, a line, or the complaint about a direction.
pub data Output : Type 0 where
  columns : Output
  line : Line → Output
  complaint : Output

-- None is an access behind the end of buf or of the stack.
unfoldable pub prints : List Output → Option (List Output) → Option (List Output)
prints os none = none
prints os (some rest) = some (os ++ rest)

-- The case CALL of the loop: the frame of a record with its number.
unfoldable pub frame_of : ℕ → Data → Frame
frame_of i d = record {
  idx = i;
  callee = d.callee;
  start_hartid = d.hartid;
  start = d.nsec;
  depth = 0;
}

-- The case RET of the loop: the line for a frame and the record of its return.
unfoldable pub line_of : Table → ℕ → ℕ → Data → Frame → Line
unfolding get_func_name sub64
line_of table baseaddr i d res = record {
  id = i;
  idx = res.idx;
  start_core_id = res.start_hartid;
  end_core_id = d.hartid;
  depth = res.depth;
  addr = sub64 res.callee baseaddr;
  funcname = get_func_name table (sub64 res.callee baseaddr);
  start = res.start;
  end = d.nsec;
  duration = sub64 d.nsec res.start;
}

-- The loop from the record of number i, with the rounds left.
unfoldable pub loop : Table → ℕ → (ℕ → Data) → ℕ → ℕ → Stack → Option (List Output)
unfolding prints frame_of line_of push pop is_empty
loop table baseaddr slots zero i s = some []
loop table baseaddr slots (suc left) i s =
    let d = slots i in
    let called : Option (List Output) = elim (push (frame_of i d) s) [
      | none ↦ none
      | some s' ↦ loop table baseaddr slots left (suc i) s'
    ] in
    let returned =
      prints (line (line_of table baseaddr i d (pop s).0) ∷ [])
        (loop table baseaddr slots left (suc i) (pop s).1) in
    if ltb i buf_slots
    then if d.direction == dir_call
      then called
      else if d.direction == dir_ret
      then if is_empty s then some [] else returned
      else some (complaint ∷ [])
    else none

-- main, from the log and the table on
unfoldable pub analyze : Table → Log → Stack → Option (List Output)
unfolding loop prints
analyze table log s = elim (log.count) [
  | zero ↦ some []
  | suc left ↦ prints (columns ∷ []) (loop table (log.slots 0).callee log.slots left 1 s)
]
