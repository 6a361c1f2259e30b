-- ===== src/Handlers/Summary.antt =====
-- internal/handlers/summary.go
pub mod Invariant
pub mod Ledger
use opcua_exporter.Prelude.{
  ℕ, ◌+◌, ◌%◌, ◌^◌, ◌≡◌, String, List, [], ◌∷◌, ◌++◌, ◌==◌, true, false, length, if◌then◌else◌,
}
use opcua_exporter.Prelude.Int.{ℤ, is_positive}

-- A map[string]int. A count is a 64-bit pattern; the program only ever adds one to it.
abbrev pub Counts : Type 0
Counts = List (String × ℕ)

pub record EventSummaryCounter : Type 0 where
  pub interval : ℤ
  pub counts : Counts
  pub total : ℕ

unfoldable pub new_event_summary_counter : ℤ → EventSummaryCounter
new_event_summary_counter interval = record { interval = interval; counts = []; total = 0 }

-- `n++` on Go's 64-bit int
abbrev pub succ64 : ℕ → ℕ
succ64 n = (n + 1) % 2 ^ 64

-- `m[channel]++`: a missing key counts from zero.
pub increment : String → Counts → Counts
increment channel [] = (channel, 1) ∷ []
increment channel ((k, n) ∷ m) =
    if k == channel then (k, succ64 n) ∷ m else (k, n) ∷ increment channel m

unfoldable pub inc : EventSummaryCounter → String → EventSummaryCounter
unfolding increment
inc esc channel = record esc { counts = increment channel esc.counts; total = succ64 esc.total }

unfoldable pub reset : EventSummaryCounter → EventSummaryCounter
reset esc = record esc { counts = []; total = 0 }

-- What logSummary prints: the events, the channels, and a line for each channel.
pub record LoggedSummary : Type 0 where
  pub events : ℕ
  pub channels : ℕ
  pub lines : Counts

unfoldable pub log_summary : EventSummaryCounter → LoggedSummary
log_summary esc = record { events = esc.total; channels = length esc.counts; lines = esc.counts }

-- Where the goroutine of `Start` stands: before its first Reset, in the select, between logSummary
-- and Reset, gone, or in the panic of time.NewTicker, which ends the process, on an interval that is not
-- positive. The mutex makes each of Inc, Reset and logSummary one step.
pub data Phase : Type 0 where
  starting waiting logged stopped panicked : Phase

pub record System : Type 0 where
  pub counter : EventSummaryCounter
  pub phase : Phase
  pub log : List LoggedSummary

-- A step of the goroutine, or a message that the monitor counts.
pub data Step (s : System) : System → Type 0 where
  count : (channel : String) → Step s (record s { counter = inc s.counter channel })
  start :
      s.phase ≡ starting
      → is_positive s.counter.interval ≡ true
      → Step s (record s { counter = reset s.counter; phase = waiting })
  start_panics :
      s.phase ≡ starting
      → is_positive s.counter.interval ≡ false
      → Step s (record s { counter = reset s.counter; phase = panicked })
  tick :
      s.phase ≡ waiting
      → Step s (record s { log = s.log ++ log_summary s.counter ∷ []; phase = logged })
  clear : s.phase ≡ logged → Step s (record s { counter = reset s.counter; phase = waiting })
  done : s.phase ≡ waiting → Step s (record s { phase = stopped })
