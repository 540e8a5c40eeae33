-- ===== src/Profiler/Trace/Laws.antt =====
-- A run of an instrumented program through profiler/profiler.c, the log file and
-- profiler/analyzer/analyzer.c.
use ta_ref.Prelude.{
  ℕ, suc, ◌+◌, ◌≤◌, ◌<◌, ◌≡◌, refl, ap, ◌∙◌, List, [], ◌∷◌, Option, none, some, arith,
}
use mathlib.Core.List.{append-nil}
use mathlib.Core.Option
use ta_ref.Profiler.{
  perf_size, write_entry, perf_slots, dir_start, Data, Header, Recorder, Log, Event, set_slot,
  entry, profile_func, map_info, unmap_info,
}
use ta_ref.Profiler.Stack.{Stack, stack_size}
use ta_ref.Profiler.Names.{Table}
use ta_ref.Profiler.Analyzer.{Output, columns, line, prints, loop, analyze, buf_slots}
use ta_ref.Profiler.Laws.{profile_lem}
use ta_ref.Profiler.Trace.{
  session, Run, finished, call, entered, left, events, nesting, size, log_of, session, call_line,
  lines,
}
use ta_ref.Profiler.Trace.Steps.{
  length-events, Holds, read_from-Holds, Holds-call, prints-three, IsSame-after, top_after, IsSame,
  pushed, loop-call, loop-ret,
}

module _ (table : Table) (image start : ℕ) (slots : ℕ → Data) where
  prints-none : (o : Option (List Output)) → o ≡ prints [] o
  unfolding prints
  prints-none none = refl
  prints-none (some os) = refl

  -- The loop over the records of a run, with the calls of the stack that it began with at its end.
  loop-lines :
      (run : Run) (i k : ℕ) (s : Stack)
      → Holds start slots i (events run)
      → i + size run ≤ buf_slots
      → s.pos + nesting run ≤ stack_size
      → (s' : Stack) × IsSame s' s
        × (loop table image slots (size run + k) i s
            ≡ prints
                (lines table image start s.pos i run)
                (loop table image slots k (i + size run) s'))
  unfolding events size nesting lines pushed
  loop-lines finished i k s holds room deep = (
    s,
    record { same_pos = refl; below = λ j h. refl },
    let e : 0 + k ≡ k = omega arith in
        let e' : i + 0 ≡ i = omega arith in
        rw e (rw e' (prints-none (loop table image slots k i s))),
  )
  loop-lines (call fn enter inner exit rest) i k s (here, holds) room deep =
      let (front, returned, back) =
        Holds-call start slots inner (left fn exit) (events rest) (suc i) holds in
      let (s2, same2, first) =
        loop-lines inner (suc i) (suc (size rest + k)) (pushed i (entry start (entered fn enter)) s)
          front (omega arith) (ground arith) in
      let (s4, same4, last) =
        loop-lines rest (suc (suc i + size inner)) k (record { pos = s.pos; frames = s2.frames })
          back (omega arith) (ground arith) in
      (
        s4,
        IsSame-after i (entry start (entered fn enter)) s s2 s4 same2 same4,
        let (whole, frame) = top_after i (entry start (entered fn enter)) s s2 same2 in
            let j : ℕ = suc i + size inner in
            let rounds : suc (size inner + suc (size rest)) + k
                ≡ suc (size inner + suc (size rest + k)) =
              omega arith in
            let ends : i + suc (size inner + suc (size rest)) ≡ suc j + size rest = omega arith in
            rw rounds (
              rw ends (
                prints-three (lines table image start (s.pos + 1) (suc i) inner)
                  (lines table image start s.pos (suc j) rest)
                  (line (call_line table image start s.pos i j fn enter exit))
                  (loop table image slots (suc (size inner + suc (size rest + k))) i s)
                  (loop table image slots (suc (size rest + k)) j s2)
                  (loop table image slots (size rest + k) (suc j)
                    (record { pos = s.pos; frames = s2.frames }))
                  (loop table image slots k (suc j + size rest) s4)
                  (loop-call table image start slots (size inner + suc (size rest + k)) i fn enter s
                      here (omega arith) (ground arith)
                    ∙ first)
                  (ap (loop table image slots (suc (size rest + k)) j) whole
                    ∙ loop-ret table image start slots (size rest + k) i j fn enter exit s.pos
                        s2.frames returned (omega arith) frame)
                  last)),
      )

add_zero : (n : ℕ) → n ≡ n + 0
add_zero n = omega arith

analyze-log :
    (table : Table) (image start : ℕ) (slots : ℕ → Data) (run : Run) (s : Stack)
    → (slots 0).callee ≡ image
    → Holds start slots 1 (events run)
    → 1 + size run ≤ buf_slots
    → s.pos ≡ 0
    → nesting run ≤ stack_size
    → analyze table (record { count = suc (size run); slots = slots }) s
      ≡ some (columns ∷ lines table image start 0 1 run)
unfolding analyze loop prints
analyze-log table image start slots run s first holds room empty deep =
    let (s', same, e) = loop-lines table image start slots run 1 0 s holds room (omega arith) in
    ap (prints (columns ∷ [])) (
      ap (λ c. loop table c slots (size run) 1 s) first
      ∙ (ap (λ n. loop table image slots n 1 s) (add_zero (size run))
          ∙ (e
              ∙ (ap some (append-nil (lines table image start s.pos 1 run))
                  ∙ ap (λ d. some (lines table image start d 1 run)) empty))))

-- Where the events of a program's calls and the record before them fit into perf_buffer and its calls
-- stand at most STACK_SIZE deep within one another, the analyzer, with an empty stack, prints from the
-- log of the program the names of the columns and one line for each call, in the order of the returns:
-- with the numbers of the records of the call and of its return, their cores, how many calls stand
-- around the call, the address from the image on with the name that the table has for it, the times
-- since the start, and as its duration the difference of the two readings of the counter.
pub analyze-session :
    (table : Table) (image start clocks hart : ℕ) (r : Recorder) (s : Stack) (run : Run)
    → size run < perf_slots
    → nesting run ≤ stack_size
    → s.pos ≡ 0
    → (log : Log) × (session image start clocks hart (events run) r ≡ some log)
      × (analyze table log s ≡ some (columns ∷ lines table image start 0 1 run))
unfolding session log_of map_info profile_func write_entry unmap_info
analyze-session table image start clocks hart r s run fits deep empty =
    let h : Header = record { size = perf_size; idx = 1; start = start } in
    let first : Event = record {
      fn = image;
      direction = dir_start;
      clocks = clocks;
      hart = hart;
    } in
    let slots = set_slot r.slots 0 (entry start first) in
    let (r2, runs, rec) = profile_lem (events run) h slots (omega (arith, length-events run)) in
    let counted : r2.head
        ≡ some (record { size = perf_size; idx = suc (size run); start = start }) =
      rec.counted
      ∙ ap
          (λ m.
            let header : Header = record { size = perf_size; idx = m; start = start } in
            some header)
          (omega (arith, length-events run)) in
    (
      record { count = suc (size run); slots = r2.slots },
      ap log_of runs
          ∙ ap
              (Option.map
                (λ (h : Header). let log : Log = record { count = h.idx; slots = r2.slots } in log))
              counted,
      analyze-log table image start r2.slots run s
          (ap (λ (d : Data). d.callee) (rec.kept 0 (omega arith)))
          (read_from-Holds start r2.slots (events run) 1 rec.recorded) (omega arith) empty deep,
    )
