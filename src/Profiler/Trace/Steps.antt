-- ===== src/Profiler/Trace/Steps.antt =====
-- The steps of the loop of profiler/analyzer/analyzer.c on the records of a call.
use ta_ref.Prelude.{
  ℕ, suc, ◌+◌, ◌-◌, ◌<◌, ◌≡◌, refl, sym, ap, ◌∙◌, List, [], ◌∷◌, ◌++◌, Option, none, some, arith,
  length, map, length-append,
}
use mathlib.Core.List.{append_assoc}
use ta_ref.Profiler.{sub64, dir_ret, Data, Event, set_slot, entry}
use ta_ref.Profiler.Stack.{Frame, Stack, push, pop, is_empty, stack_size}
use ta_ref.Profiler.Names.{Table}
use ta_ref.Profiler.Analyzer.{Output, line, prints, frame_of, line_of, loop, buf_slots}
use ta_ref.Profiler.Laws.{read_from, set_slot-same, set_slot-other}
use ta_ref.Profiler.Trace.{Stamp, Run, finished, call, entered, left, events, size, call_line}

pub length-events : (run : Run) → length (events run) ≡ size run
unfolding events size
length-events finished = refl
length-events (call fn enter inner exit rest) = omega (
  arith,
  length-append (events inner) (left fn exit ∷ events rest),
  length-events inner,
  length-events rest,
)

-- The records from number i on are those of the events.
abbrev pub Holds : ℕ → (ℕ → Data) → ℕ → List Event → Type 0
Holds start slots i [] = Unit {0}
Holds start slots i (e ∷ es) = (slots i ≡ entry start e) × Holds start slots (suc i) es

module _ (start : ℕ) (slots : ℕ → Data) where
  pub read_from-Holds :
      (es : List Event) (i : ℕ)
      → read_from i (length es) slots ≡ map (entry start) es
      → Holds start slots i es
  unfolding read_from
  read_from-Holds [] i h = tt
  read_from-Holds (e ∷ es) i h = (ground arith, read_from-Holds es (suc i) (ground arith))

  pub Holds-append :
      (es fs : List Event) (i : ℕ)
      → Holds start slots i (es ++ fs)
      → Holds start slots i es × Holds start slots (i + length es) fs
  Holds-append [] fs i h = let e : i + 0 ≡ i = omega arith in (tt, rw e h)
  Holds-append (e ∷ es) fs i (h, hs) =
      let (front, back) = Holds-append es fs (suc i) hs in
      let e : i + suc (length es) ≡ suc i + length es = omega arith in ((h, front), rw e back)

pub Holds-call :
    (start : ℕ) (slots : ℕ → Data) (inner : Run) (e : Event) (es : List Event) (i : ℕ)
    → Holds start slots i (events inner ++ e ∷ es)
    → Holds start slots i (events inner)
      × (slots (i + size inner) ≡ entry start e)
      × Holds start slots (suc (i + size inner)) es
Holds-call start slots inner e es i h =
    let (front, back) = Holds-append start slots (events inner) (e ∷ es) i h in
    let (here, rest) = rw (length-events inner) at back in (front, here, rest)

pub prints-prints :
    (a b : List Output) (o : Option (List Output)) → prints a (prints b o) ≡ prints (a ++ b) o
unfolding prints
prints-prints a b none = refl
prints-prints a b (some os) = ap some (sym (append_assoc a b os))

sub64-sub64 : (a b c : ℕ) → sub64 (sub64 a c) (sub64 b c) ≡ sub64 a b
unfolding sub64
sub64-sub64 a b c = omega arith

-- A stack with the same calls.
pub record IsSame (s' s : Stack) : Type 0 where
  pub same_pos : s'.pos ≡ s.pos
  pub below : (j : ℕ) → j < s.pos → s'.frames j ≡ s.frames j

unfoldable pub pushed : ℕ → Data → Stack → Stack
unfolding set_slot frame_of
pushed i d s = record {
  pos = s.pos + 1;
  frames = set_slot s.frames s.pos (record (frame_of i d) { depth = s.pos });
}

pub prints-three :
    (a b : List Output) (l : Output) (o1 o2 o3 o4 : Option (List Output))
    → o1 ≡ prints a o2
    → o2 ≡ prints (l ∷ []) o3
    → o3 ≡ prints b o4
    → o1 ≡ prints (a ++ l ∷ b) o4
prints-three a b l o1 o2 o3 o4 e1 e2 e3 =
    e1
    ∙ (ap (prints a) (e2 ∙ (ap (prints (l ∷ [])) e3 ∙ prints-prints (l ∷ []) b o4))
        ∙ prints-prints a (l ∷ b) o4)

pub IsSame-after :
    (i : ℕ) (d : Data) (s s2 s4 : Stack)
    → IsSame s2 (pushed i d s)
    → IsSame s4 (record { pos = s.pos; frames = s2.frames })
    → IsSame s4 s
unfolding pushed
IsSame-after i d s s2 s4 inner rest = record {
  same_pos = rest.same_pos;
  below =
      λ j h. rest.below j h ∙ (inner.below j (omega arith) ∙ set_slot-other s.frames s.pos _ j h);
}

-- The frame of the call is on top of the stack after the calls within it.
pub top_after :
    (i : ℕ) (d : Data) (s s2 : Stack)
    → IsSame s2 (pushed i d s)
    → (s2 ≡ record { pos = suc s.pos; frames = s2.frames })
      × (s2.frames s.pos ≡ record (frame_of i d) { depth = s.pos })
unfolding pushed
top_after i d s s2 inner = (
  ap (λ p. let s' : Stack = record { pos = p; frames = s2.frames } in s')
      (inner.same_pos ∙ omega arith),
  inner.below s.pos (omega arith) ∙ set_slot-same s.frames s.pos _,
)

module _ (table : Table) (image start : ℕ) (slots : ℕ → Data) where
  pub loop-call :
      (k i fn : ℕ) (enter : Stamp) (s : Stack)
      → slots i ≡ entry start (entered fn enter)
      → i < buf_slots
      → s.pos < stack_size
      → loop table image slots (suc k) i s
        ≡ loop table image slots k (suc i) (pushed i (entry start (entered fn enter)) s)
  unfolding loop push pushed entered entry
  loop-call k i fn enter s here room deep = rw here (ground arith)

  -- The line of a call from the record of its return and the frame of its record.
  line_of-frame_of :
      (i j fn : ℕ) (enter exit : Stamp) (p : ℕ)
      → line_of table image j
          (entry start (left fn exit))
          (record (frame_of i (entry start (entered fn enter))) { depth = p })
        ≡ call_line table image start p i j fn enter exit
  unfolding line_of frame_of call_line left entered entry
  line_of-frame_of i j fn enter exit p = cc (sub64-sub64 exit.clocks enter.clocks start)

  loop-pop :
      (k j : ℕ) (d : Data) (p : ℕ) (frames : ℕ → Frame)
      → slots j ≡ d
      → d.direction ≡ dir_ret
      → j < buf_slots
      → loop table image slots (suc k) j (record { pos = suc p; frames = frames })
        ≡ prints
            (line (line_of table image j d (frames p)) ∷ [])
            (loop table image slots k (suc j) (record { pos = p; frames = frames }))
  unfolding loop pop is_empty
  loop-pop k j d p frames here back room =
      let e : suc p - 1 ≡ p = omega arith in rw here (rw e (ground arith))

  pub loop-ret :
      (k i j fn : ℕ) (enter exit : Stamp) (p : ℕ) (frames : ℕ → Frame)
      → slots j ≡ entry start (left fn exit)
      → j < buf_slots
      → frames p ≡ record (frame_of i (entry start (entered fn enter))) { depth = p }
      → loop table image slots (suc k) j (record { pos = suc p; frames = frames })
        ≡ prints
            (line (call_line table image start p i j fn enter exit) ∷ [])
            (loop table image slots k (suc j) (record { pos = p; frames = frames }))
  unfolding left entry
  loop-ret k i j fn enter exit p frames here room frame =
      loop-pop k j (entry start (left fn exit)) p frames here refl room
      ∙ ap
          (λ l.
            prints (line l ∷ [])
              (loop table image slots k (suc j) (record { pos = p; frames = frames })))
          (ap (line_of table image j (entry start (left fn exit))) frame
            ∙ line_of-frame_of i j fn enter exit p)
