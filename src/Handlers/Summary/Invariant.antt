-- ===== src/Handlers/Summary/Invariant.antt =====
-- What the event counts are, and what every run of the counter and its goroutine keeps.
use opcua_exporter.Prelude.{
  ℕ, suc, ◌+◌, ◌%◌, ◌^◌, ◌≡◌, refl, String, Bool, false, ◌||◌, List, [], ◌∷◌, length, ◌==◌, eq_iff,
  arith, if◌then◌else◌, All, All-append,
}
use opcua_exporter.Prelude.Int.{ℤ}
use opcua_exporter.Handlers.Summary.{
  Counts, EventSummaryCounter, new_event_summary_counter, succ64, increment, inc, reset,
  LoggedSummary, log_summary, starting, System, Step, count, start, start_panics, tick, clear, done,
}

-- `m[channel]`, zero for a missing key.
abbrev pub count_of : String → Counts → ℕ
count_of channel [] = 0
count_of channel ((k, n) ∷ m) = if k == channel then n else count_of channel m

abbrev pub sum : Counts → ℕ
sum [] = 0
sum ((k, n) ∷ m) = n + sum m

abbrev pub has_key : String → Counts → Bool
has_key channel [] = false
has_key channel ((k, n) ∷ m) = k == channel || has_key channel m

-- No channel has two counts.
abbrev pub Distinct : Counts → Type 0
Distinct [] = Unit
Distinct ((k, n) ∷ m) = (has_key k m ≡ false) × Distinct m

-- How often a channel stands in a list of messages.
abbrev pub occurrences : String → List String → ℕ
occurrences channel [] = 0
occurrences channel (c ∷ cs) =
    let rest = occurrences channel cs in if c == channel then suc rest else rest

-- Inc for each message.
pub inc_all : EventSummaryCounter → List String → EventSummaryCounter
inc_all esc [] = esc
inc_all esc (c ∷ cs) = inc_all (inc esc c) cs

count_of-increment :
    (j channel : String) (m : Counts)
    → count_of j (increment channel m) % 2 ^ 64
      ≡ (count_of j m + (if channel == j then 1 else 0)) % 2 ^ 64
unfolding increment
count_of-increment j channel [] = ground arith
count_of-increment j channel ((k, n) ∷ m) =
    ground (arith, eq_iff k channel, eq_iff k j, eq_iff channel j, count_of-increment j channel m)

count_of-inc_all :
    (esc : EventSummaryCounter) (j : String) (cs : List String)
    → count_of j (inc_all esc cs).counts % 2 ^ 64
      ≡ (count_of j esc.counts + occurrences j cs) % 2 ^ 64
unfolding inc_all inc
count_of-inc_all esc j [] = omega arith
count_of-inc_all esc j (c ∷ cs) =
    ground (arith, count_of-inc_all (inc esc c) j cs, count_of-increment j c esc.counts)

total-inc_all :
    (esc : EventSummaryCounter) (cs : List String)
    → (inc_all esc cs).total % 2 ^ 64 ≡ (esc.total + length cs) % 2 ^ 64
unfolding inc_all inc
total-inc_all esc [] = omega arith
total-inc_all esc (c ∷ cs) = omega (arith, total-inc_all (inc esc c) cs)

-- After a Reset and any messages, the count of each channel is the number of its messages and the
-- total is the number of all of them, modulo 2^64.
pub inc_all-reset :
    (esc : EventSummaryCounter) (j : String) (cs : List String)
    → (count_of j (inc_all (reset esc) cs).counts % 2 ^ 64 ≡ occurrences j cs % 2 ^ 64)
      × ((inc_all (reset esc) cs).total % 2 ^ 64 ≡ length cs % 2 ^ 64)
unfolding reset
inc_all-reset esc j cs = (
  omega (arith, count_of-inc_all (record esc { counts = []; total = 0 }) j cs),
  omega (arith, total-inc_all (record esc { counts = []; total = 0 }) cs),
)

sum-increment :
    (channel : String) (m : Counts) → sum (increment channel m) % 2 ^ 64 ≡ succ64 (sum m)
unfolding increment
sum-increment channel [] = omega arith
sum-increment channel ((k, n) ∷ m) = ground (arith, sum-increment channel m)

has_key-increment :
    (j channel : String) (m : Counts)
    → has_key j (increment channel m) ≡ (channel == j || has_key j m)
unfolding increment
has_key-increment j channel [] = ground arith
has_key-increment j channel ((k, n) ∷ m) =
    ground (arith, eq_iff k channel, has_key-increment j channel m)

Distinct-increment : (channel : String) (m : Counts) → Distinct m → Distinct (increment channel m)
unfolding increment
Distinct-increment channel [] h = ground arith
Distinct-increment channel ((k, n) ∷ m) h = ground (
  arith,
  eq_iff k channel,
  eq_iff channel k,
  has_key-increment k channel m,
  Distinct-increment channel m,
)

-- The total is the sum of the counts, modulo 2^64, and no channel is counted twice.
pub record IsConsistent (esc : EventSummaryCounter) : Type 0 where
  pub totalled : esc.total ≡ sum esc.counts % 2 ^ 64
  pub distinct : Distinct esc.counts

-- A summary's figures agree with its lines, one for each channel.
pub record IsFaithful (l : LoggedSummary) : Type 0 where
  pub totalled : l.events ≡ sum l.lines % 2 ^ 64
  pub counted : l.channels ≡ length l.lines
  pub distinct : Distinct l.lines

inc-IsConsistent :
    (esc : EventSummaryCounter) (channel : String)
    → IsConsistent esc
    → IsConsistent (inc esc channel)
unfolding inc
inc-IsConsistent esc channel h = record {
  totalled = omega (arith, sum-increment channel esc.counts, h.totalled);
  distinct = Distinct-increment channel esc.counts h.distinct;
}

reset-IsConsistent : (esc : EventSummaryCounter) → IsConsistent (reset esc)
unfolding reset
reset-IsConsistent esc = record { totalled = omega arith; distinct = tt }

log_summary-IsFaithful :
    (esc : EventSummaryCounter) → IsConsistent esc → IsFaithful (log_summary esc)
unfolding log_summary
log_summary-IsFaithful esc h = record {
  totalled = h.totalled;
  counted = refl;
  distinct = h.distinct;
}

pub record IsSound (s : System) : Type 0 where
  pub counter : IsConsistent s.counter
  pub log : All IsFaithful s.log

pub data Reach (s : System) : System → Type 0 where
  here : Reach s s
  next : {t u : System} → Reach s t → Step t u → Reach s u

Step-IsSound : {t u : System} → Step t u → IsSound t → IsSound u
Step-IsSound {t} (count channel) h = record {
  counter = inc-IsConsistent t.counter channel h.counter;
  log = h.log;
}
Step-IsSound {t} (start p i) h = record { counter = reset-IsConsistent t.counter; log = h.log }
Step-IsSound {t} (start_panics p i) h = record {
  counter = reset-IsConsistent t.counter;
  log = h.log;
}
Step-IsSound {t} (tick p) h = record {
  counter = h.counter;
  log = All-append IsFaithful t.log _ h.log (log_summary-IsFaithful t.counter h.counter, tt);
}
Step-IsSound {t} (clear p) h = record { counter = reset-IsConsistent t.counter; log = h.log }
Step-IsSound (done p) h = record { counter = h.counter; log = h.log }

abbrev pub created : ℤ → System
created interval = record {
  counter = new_event_summary_counter interval;
  phase = starting;
  log = [];
}

created-IsSound : (interval : ℤ) → IsSound (created interval)
unfolding new_event_summary_counter
created-IsSound interval = record {
  counter = record { totalled = omega arith; distinct = tt };
  log = tt;
}

Reach-keeps : {s t : System} → Reach s t → IsSound s → IsSound t
Reach-keeps here h = h
Reach-keeps (next r st) h = Step-IsSound st (Reach-keeps r h)

-- In every state that the counter and its goroutine reach, under any interleaving with the messages,
-- the total is the sum of the counts modulo 2^64, no channel is counted twice, and each summary
-- logged so far has its lines' sum as its events and one line for each channel.
pub Reach-IsSound : (interval : ℤ) {s : System} → Reach (created interval) s → IsSound s
Reach-IsSound interval r = Reach-keeps r (created-IsSound interval)
