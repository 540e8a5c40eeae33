-- ===== src/Profiler/Trace.antt =====
-- A run of an instrumented program through profiler/profiler.c, the log file and
-- profiler/analyzer/analyzer.c: the calls of the run as a tree, its events and its lines.
pub mod Steps
pub mod Laws
use ta_ref.Prelude.{
  ℕ, zero, suc, ◌+◌, ◌-◌, ◌≤◌, ◌<◌, ◌≡◌, ◌≢◌, refl, sym, ap, ◌∙◌, inl, inr, ◌⊎◌, Bool, true, false,
  not, ◌&&◌, ◌||◌, List, [], ◌∷◌, ◌++◌, Option, none, some, if◌then◌else◌, get_elem?, ◌==◌, ltb,
  leb, arith, length, take, drop, all, map, Bool-cases, Option-cases, if_intro, all-append,
  length-append,
}
use mathlib.Core.List.{append_assoc}
use ta_ref.Profiler.{
  sub64, perf_slots, dir_call, dir_ret, dir_start, Data, Header, Recorder, Log, Event, set_slot,
  entry, profile_func, profile, map_info, unmap_info,
}
use ta_ref.Profiler.Stack.{Frame, Stack, push, pop, is_empty, stack_size}
use ta_ref.Profiler.Names.{Table, get_func_name}
use ta_ref.Profiler.Analyzer.{
  Line, Output, columns, line, complaint, prints, frame_of, line_of, loop, analyze, buf_slots,
}
use ta_ref.Profiler.Laws.{read_from, IsRecorded, profile_lem, set_slot-same, set_slot-other}

-- A reading of the counter of cycles and the core.
pub record Stamp : Type 0 where
  pub clocks : ℕ
  pub hart : ℕ

-- The calls that a program makes, one after another: of a function, with the calls within it.
pub data Run : Type 0 where
  finished : Run
  call : (fn : ℕ) (enter : Stamp) (inner : Run) (exit : Stamp) (rest : Run) → Run

pub entered : ℕ → Stamp → Event
entered fn s = record { fn = fn; direction = dir_call; clocks = s.clocks; hart = s.hart }

pub left : ℕ → Stamp → Event
left fn s = record { fn = fn; direction = dir_ret; clocks = s.clocks; hart = s.hart }

pub events : Run → List Event
unfolding entered left
events finished = []
events (call fn enter inner exit rest) =
    entered fn enter ∷ events inner ++ left fn exit ∷ events rest

-- How many calls stand within one another.
abbrev max_ℕ : ℕ → ℕ → ℕ
max_ℕ a b = if ltb a b then b else a

unfoldable pub nesting : Run → ℕ
nesting finished = 0
nesting (call fn enter inner exit rest) = max_ℕ (suc (nesting inner)) (nesting rest)

-- The line for a call whose events are the records with the numbers i and j.
pub call_line : Table → ℕ → ℕ → ℕ → ℕ → ℕ → ℕ → Stamp → Stamp → Line
call_line table image start depth i j fn enter exit = record {
  id = j;
  idx = i;
  start_core_id = enter.hart;
  end_core_id = exit.hart;
  depth = depth;
  addr = sub64 fn image;
  funcname = get_func_name table (sub64 fn image);
  start = sub64 enter.clocks start;
  end = sub64 exit.clocks start;
  duration = sub64 exit.clocks enter.clocks;
}

-- How many events a run has.
unfoldable pub size : Run → ℕ
size finished = 0
size (call fn enter inner exit rest) = suc (size inner + suc (size rest))

-- The lines of the calls of a run whose first record has number i, in the order of their returns.
pub lines : Table → ℕ → ℕ → ℕ → ℕ → Run → List Output
unfolding call_line
lines table image start depth i finished = []
lines table image start depth i (call fn enter inner exit rest) =
    let j = suc i + size inner in
    lines table image start (depth + 1) (suc i) inner
    ++ line (call_line table image start depth i j fn enter exit)
      ∷ lines table image start depth (suc j) rest

pub log_of : Option Recorder → Option Log
log_of none = none
log_of (some r) = (unmap_info r).0

-- The log of a program: the set-up of the buffer, its events, and the log file at its end.
pub session : ℕ → ℕ → ℕ → ℕ → List Event → Recorder → Option Log
unfolding log_of
session image start clocks hart es r = elim (map_info image start clocks hart r) [
  | none ↦ none
  | some r1 ↦ log_of (profile es r1)
]
