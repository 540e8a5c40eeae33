-- ===== src/Profiler/Stack.antt =====
-- profiler/analyzer/stack.h: the stack of the calls that have not returned.
use ta_ref.Prelude.{ℕ, ◌+◌, ◌-◌, Bool, Option, none, some, ltb, ◌==◌, if◌then◌else◌}
use ta_ref.Profiler.{set_slot}

abbrev pub stack_size : ℕ
stack_size = 100

-- struct result; end and end_hartid are written where the result is printed.
pub record Frame : Type 0 where
  pub idx : ℕ
  pub callee : ℕ
  pub start_hartid : ℕ
  pub start : ℕ
  pub depth : ℕ

-- pos and stack
pub record Stack : Type 0 where
  pub pos : ℕ
  pub frames : ℕ → Frame

-- none is a write behind the end of stack, which the code does not test for.
unfoldable pub push : Frame → Stack → Option Stack
unfolding set_slot
push f s =
    if ltb s.pos stack_size
    then some
        (record { pos = s.pos + 1; frames = set_slot s.frames s.pos (record f { depth = s.pos }) })
    else none

-- Called where the stack is not empty.
unfoldable pub pop : Stack → Frame × Stack
pop s = (s.frames (s.pos - 1), record s { pos = s.pos - 1 })

unfoldable pub is_empty : Stack → Bool
is_empty s = s.pos == 0
