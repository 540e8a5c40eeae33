-- ===== src/Profiler/Examples.antt =====
-- The profiler and its analyzer at concrete events, symbols and runs.
use ta_ref.Prelude.{
  ◌↔◌, ℕ, zero, suc, ◌+◌, ◌<◌, ◌≡◌, refl, List, [], ◌∷◌, none, some, arith, length,
}
use ta_ref.Text.{codes}
use ta_ref.Profiler.{Data, Header, Recorder, Log, Event, profile, perf_slots, perf_size}
use ta_ref.Profiler.Stack.{Stack}
use ta_ref.Profiler.Names.{Symbol, NmInfo, Table, table, overrun, get_func_name, parse_nm}
use ta_ref.Profiler.Names.Laws.{last_name, get_func_name-parse_nm, parse_nm_overruns}
use ta_ref.Profiler.Analyzer.{columns, analyze}
use ta_ref.Profiler.Analyzer.Laws.{AreCalls, analyze_overruns}
use ta_ref.Profiler.Laws.{IsRecorded, profile_lem, profile_overruns}
use ta_ref.Profiler.Trace.{nesting, size, Run, finished, call, events, session, lines}
use ta_ref.Profiler.Trace.Laws.{analyze-session}

abbrev no_data : ℕ → Data
no_data i = record { direction = 0; hartid = 0; nsec = 0; callee = 0 }

abbrev two_events : List Event
two_events =
    record { fn = 64; direction = 1; clocks = 20; hart = 0 }
    ∷ record { fn = 64; direction = 2; clocks = 25; hart = 0 }
    ∷ []

abbrev begun : Header
begun = record { size = perf_size; idx = 1; start = 10 }

profile_lem_example :
    (r : Recorder) × (profile two_events (record { head = some begun; slots = no_data }) ≡ some r)
    × IsRecorded begun no_data two_events r
profile_lem_example = profile_lem two_events begun no_data (omega arith)

profile_overruns_example :
    (profile two_events (record { head = some (record begun { idx = 2728 }); slots = no_data })
      ≡ none)
    ↔ (perf_slots < 2728 + length two_events)
profile_overruns_example =
    profile_overruns two_events (record begun { idx = 2728 }) no_data (omega arith)

abbrev symbols : List Symbol
symbols =
    record { addr = 64; kind = b'T'; func_name = codes "main" }
    ∷ record { addr = 65600; kind = b't'; func_name = codes "helper" }
    ∷ []

abbrev no_symbols : ℕ → NmInfo
no_symbols i = record { kind = 0; func_name = [] }

get_func_name-parse_nm_example :
    (t : Table) × (parse_nm no_symbols (some symbols) ≡ table t)
    × ((addr : ℕ) → get_func_name t addr ≡ last_name addr symbols)
get_func_name-parse_nm_example = get_func_name-parse_nm no_symbols symbols (omega arith) refl

abbrev small_run : Run
small_run =
    call 64 (record { clocks = 20; hart = 0 })
      (call 96 (record { clocks = 22; hart = 0 }) finished (record { clocks = 27; hart = 1 })
        finished)
      (record { clocks = 30; hart = 1 }) finished

abbrev empty_stack : Stack
empty_stack = record {
  pos = 0;
  frames = λ i. record { idx = 0; callee = 0; start_hartid = 0; start = 0; depth = 0 };
}

abbrev empty_table : Table
empty_table = record { chains = λ i. []; pool = no_symbols; idx = 0 }

analyze-session_example :
    (log : Log) × (session 32 10 12 0 (events small_run) (record { head = none; slots = no_data })
      ≡ some log)
    × (analyze empty_table log empty_stack ≡ some (columns ∷ lines empty_table 32 10 0 1 small_run))
unfolding size nesting
analyze-session_example =
    analyze-session empty_table 32 10 12 0 (record { head = none; slots = no_data }) empty_stack
      small_run (omega arith) (omega arith) refl

abbrev calls : ℕ → Data
calls i = record { direction = 1; hartid = 0; nsec = i; callee = 64 }

calls-AreCalls : (i n : ℕ) → AreCalls calls i n
calls-AreCalls i zero = tt
calls-AreCalls i (suc n) = (refl, calls-AreCalls (suc i) n)

analyze_overruns_example :
    analyze empty_table (record { count = suc (101 + 0); slots = calls }) empty_stack ≡ none
analyze_overruns_example =
    analyze_overruns empty_table calls 101 0 empty_stack (calls-AreCalls 1 101) (omega arith) refl
      (omega arith)

many : ℕ → List Symbol
many zero = []
many (suc n) = record { addr = 64; kind = b'T'; func_name = [] } ∷ many n

parse_nm_overruns_example : parse_nm no_symbols (some (many 30001)) ≡ overrun
unfolding many
parse_nm_overruns_example = parse_nm_overruns no_symbols (many 30001) (omega arith) refl
