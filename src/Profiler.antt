-- ===== src/Profiler.antt =====
-- profiler/profiler.c with profiler/keystone/tee_profiler.c: the buffer of records that the calls and
-- returns of an instrumented program fill, and the log file that it is written to. The counter of
-- cycles and the number of the core are arguments, since an instruction of the machine reads them; the
-- log file holds the buffer, as the calls out of the enclave write it.
pub mod Stack
pub mod Names
pub mod Analyzer
pub mod Laws
pub mod Trace
mod Examples
use mathlib.Core.Option
use ta_ref.Prelude.{
  ℕ, zero, suc, ◌+◌, ◌-◌, ◌%◌, ◌^◌, Bool, true, false, List, [], ◌∷◌, Option, none, some, ltb, ◌==◌,
  if◌then◌else◌,
}

-- uint64_t a - b
unfoldable pub sub64 : ℕ → ℕ → ℕ
sub64 a b = (a + (2 ^ 64 - b % 2 ^ 64)) % 2 ^ 64

-- enum direction_t
abbrev pub dir_start : ℕ
dir_start = 0

abbrev pub dir_call : ℕ
dir_call = 1

abbrev pub dir_ret : ℕ
dir_ret = 2

-- PERF_SIZE, as profiler/Makefile sets it.
abbrev pub perf_size : ℕ
perf_size = 65536

-- How many records of 24 bytes fit behind the header of 24 bytes.
abbrev pub perf_slots : ℕ
perf_slots = 2729

-- struct __profiler_data
pub record Data : Type 0 where
  pub direction : ℕ
  pub hartid : ℕ
  pub nsec : ℕ
  pub callee : ℕ

-- struct __profiler_header
pub record Header : Type 0 where
  pub size : ℕ
  pub idx : ℕ
  pub start : ℕ

-- __profiler_head, which may be NULL, and the records behind the header in perf_buffer.
pub record Recorder : Type 0 where
  pub head : Option Header
  pub slots : ℕ → Data

-- What the log file holds: the idx of the header and the records.
pub record Log : Type 0 where
  pub count : ℕ
  pub slots : ℕ → Data

-- A call of __cyg_profile_func with what tee_rdtscp gives there.
pub record Event : Type 0 where
  pub fn : ℕ
  pub direction : ℕ
  pub clocks : ℕ
  pub hart : ℕ

unfoldable pub set_slot {ℓ} : {A : Type ℓ} → (ℕ → A) → ℕ → A → ℕ → A
set_slot slots i v j = if i == j then v else slots j

-- The record that an event leaves in a buffer that was set up at start.
unfoldable pub entry : ℕ → Event → Data
entry start e = record {
  direction = e.direction;
  hartid = e.hart;
  nsec = sub64 e.clocks start;
  callee = e.fn;
}

unfoldable pub write_entry : Event → Option Header → Recorder → Option Recorder
unfolding entry set_slot
write_entry e none r = some r
write_entry e (some h) r =
    if ltb h.idx perf_slots
    then some (record {
      head = some (record h { idx = h.idx + 1 });
      slots = set_slot r.slots h.idx (entry h.start e);
    })
    else none

-- __cyg_profile_func; none is a write behind the end of perf_buffer, which the code does not test for.
unfoldable pub profile_func : Event → Recorder → Option Recorder
unfolding write_entry
profile_func e r = write_entry e r.head r

-- __profiler_map_info, at the address of the image and the count of cycles, with the START event.
unfoldable pub map_info : ℕ → ℕ → ℕ → ℕ → Recorder → Option Recorder
unfolding profile_func
map_info image_base start clocks hart r =
    profile_func (record { fn = image_base; direction = dir_start; clocks = clocks; hart = hart })
      (record r { head = some (record { size = perf_size; idx = 0; start = start }) })

-- __profiler_unmap_info, with the log that it writes
unfoldable pub unmap_info : Recorder → Option Log × Recorder
unmap_info r =
    (Option.map (λ h. record { count = h.idx; slots = r.slots }) r.head, record r { head = none })

-- __cyg_profile_func_enter and __cyg_profile_func_exit for the events of a program, one after another
unfoldable pub profile : List Event → Recorder → Option Recorder
profile [] r = some r
profile (e ∷ es) r = elim (profile_func e r) [ none ↦ none | some r' ↦ profile es r' ]
