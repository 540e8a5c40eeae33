-- ===== src/Profiler/Analyzer/Laws.antt =====
-- The loop of profiler/analyzer/analyzer.c on records that do not match.
use ta_ref.Prelude.{ℕ, zero, suc, ◌+◌, ◌≤◌, ◌<◌, ◌≡◌, refl, ap, ◌∙◌, [], ◌∷◌, none, arith}
use native.Mathlib.Decide.{dec_lt}
use ta_ref.Profiler.{set_slot, Data, dir_call}
use ta_ref.Profiler.Stack.{Stack, stack_size, push}
use ta_ref.Profiler.Names.{Table}
use ta_ref.Profiler.Analyzer.{columns, analyze, loop, prints, frame_of, buf_slots}

-- The n records from number i on are calls.
abbrev pub AreCalls : (ℕ → Data) → ℕ → ℕ → Type 0
AreCalls slots i zero = Unit {0}
AreCalls slots i (suc n) = ((slots i).direction ≡ dir_call) × AreCalls slots (suc i) n

call_full :
    (table : Table) (baseaddr : ℕ) (slots : ℕ → Data) (k i : ℕ) (s : Stack)
    → (slots i).direction ≡ dir_call
    → i < buf_slots
    → stack_size ≤ s.pos
    → loop table baseaddr slots (suc k) i s ≡ none
unfolding loop push
call_full table baseaddr slots k i s here room full = ground arith

call_pushed :
    (table : Table) (baseaddr : ℕ) (slots : ℕ → Data) (k i : ℕ) (s : Stack)
    → (slots i).direction ≡ dir_call
    → i < buf_slots
    → s.pos < stack_size
    → (s' : Stack) × (s'.pos ≡ s.pos + 1)
      × (loop table baseaddr slots (suc k) i s ≡ loop table baseaddr slots k (suc i) s')
unfolding loop push
call_pushed table baseaddr slots k i s here room less = (
  record {
    pos = s.pos + 1;
    frames = set_slot s.frames s.pos (record (frame_of i (slots i)) { depth = s.pos });
  },
  refl,
  ground arith,
)

-- More calls in a row than there is room on the stack are written behind its end.
pub loop_overruns :
    (table : Table) (baseaddr : ℕ) (slots : ℕ → Data) (n k i : ℕ) (s : Stack)
    → AreCalls slots i n
    → i + n ≤ buf_slots
    → s.pos ≤ stack_size
    → stack_size < s.pos + n
    → loop table baseaddr slots (n + k) i s ≡ none
loop_overruns table baseaddr slots zero k i s calls room fits more = absurd (omega arith)
loop_overruns table baseaddr slots (suc n) k i s (here, calls) room fits more =
    let e : suc n + k ≡ suc (n + k) = omega arith in
    elim (dec_lt s.pos stack_size) [
      | yes less ↦
          let (s', up, steps) =
            call_pushed table baseaddr slots (n + k) i s here (omega arith) less in
          rw e (
            steps
            ∙ loop_overruns table baseaddr slots n k (suc i) s' calls (omega arith) (omega arith)
                (omega arith))
      | no full ↦ rw e (call_full table baseaddr slots (n + k) i s here (omega arith) (omega arith))
    ]

-- A log whose first records behind that of the start are more than STACK_SIZE calls, with no return
-- between them, makes the analyzer write behind the end of its stack.
pub analyze_overruns :
    (table : Table) (slots : ℕ → Data) (n k : ℕ) (s : Stack)
    → AreCalls slots 1 n
    → 1 + n ≤ buf_slots
    → s.pos ≡ 0
    → stack_size < n
    → analyze table (record { count = suc (n + k); slots = slots }) s ≡ none
unfolding analyze prints
analyze_overruns table slots n k s calls fits empty more =
    ap (prints (columns ∷ []))
      (loop_overruns table (slots 0).callee slots n k 1 s calls fits (omega arith) (omega arith))
