-- ===== src/Handlers/Summary/Ledger.antt =====
-- Where the messages of a run go: into a logged summary, lost by a Reset, or still counted.
use opcua_exporter.Prelude.{ℕ, suc, ◌+◌, ◌%◌, ◌^◌, ◌≡◌, refl, List, [], ◌∷◌, ◌++◌, arith}
use opcua_exporter.Prelude.Int.{ℤ}
use opcua_exporter.Handlers.Summary.{
  new_event_summary_counter, inc, reset, succ64, LoggedSummary, log_summary, Phase, starting,
  waiting, logged, stopped, panicked, System, count, start, start_panics, tick, clear, done,
}
use opcua_exporter.Handlers.Summary.Invariant.{Reach, here, next, created}

-- The messages that the monitor has counted.
abbrev pub received : {s t : System} → Reach s t → ℕ
received here = 0
received (next r (count channel)) = suc (received r)
received (next r (start p i)) = received r
received (next r (start_panics p i)) = received r
received (next r (tick p)) = received r
received (next r (clear p)) = received r
received (next r (done p)) = received r

-- The messages since the last summary was logged or the counts were last reset.
abbrev pub since : {s t : System} → Reach s t → ℕ
since here = 0
since (next r (count channel)) = suc (since r)
since (next r (start p i)) = 0
since (next r (start_panics p i)) = 0
since (next r (tick p)) = 0
since (next r (clear p)) = 0
since (next r (done p)) = since r

-- The messages that a Reset took away and no summary has: those before the goroutine began, and those
-- between a summary and the Reset behind it.
abbrev pub lost : {s t : System} → Reach s t → ℕ
lost here = 0
lost (next r (count channel)) = lost r
lost (next {t} r (start p i)) = lost r + t.counter.total
lost (next {t} r (start_panics p i)) = lost r + t.counter.total
lost (next r (tick p)) = lost r
lost (next r (clear p)) = lost r + since r
lost (next r (done p)) = lost r

abbrev pub events_of : List LoggedSummary → ℕ
events_of [] = 0
events_of (l ∷ ls) = l.events + events_of ls

-- The messages that no summary has and no Reset has taken away.
abbrev pub pending : Phase → ℕ → ℕ → ℕ
pending logged late total = late
pending _ late total = total

events_of-append :
    (ls : List LoggedSummary) (l : LoggedSummary)
    → events_of (ls ++ l ∷ []) ≡ events_of ls + l.events
events_of-append [] l = omega arith
events_of-append (k ∷ ls) l = omega (arith, events_of-append ls l)

pending-inc :
    (p : Phase) (late total : ℕ)
    → pending p (suc late) (succ64 total) % 2 ^ 64 ≡ suc (pending p late total) % 2 ^ 64
pending-inc starting late total = omega arith
pending-inc waiting late total = omega arith
pending-inc logged late total = omega arith
pending-inc stopped late total = omega arith
pending-inc panicked late total = omega arith

pending_at : (p q : Phase) (late total : ℕ) → p ≡ q → pending p late total ≡ pending q late total
pending_at p q late total e = rw e refl

-- In every run of the counter and its goroutine, and modulo 2^64, each message that was counted is an
-- event of a logged summary, or was lost by a Reset, which the one behind a summary does to those that
-- came between the two, or is still counted and in no summary.
pub received-eq-events_of :
    (interval : ℤ) {t : System} (r : Reach (created interval) t)
    → received r % 2 ^ 64
      ≡ (events_of t.log + lost r + pending t.phase (since r) t.counter.total) % 2 ^ 64
unfolding inc reset log_summary new_event_summary_counter
received-eq-events_of interval here = omega arith
received-eq-events_of interval (next {t} r (count channel)) =
    omega (arith, received-eq-events_of interval r, pending-inc t.phase (since r) t.counter.total)
received-eq-events_of interval (next {t} r (start p i)) = omega (
  arith,
  received-eq-events_of interval r,
  pending_at t.phase starting (since r) t.counter.total p,
)
received-eq-events_of interval (next {t} r (start_panics p i)) = omega (
  arith,
  received-eq-events_of interval r,
  pending_at t.phase starting (since r) t.counter.total p,
)
received-eq-events_of interval (next {t} r (tick p)) = omega (
  arith,
  received-eq-events_of interval r,
  pending_at t.phase waiting (since r) t.counter.total p,
  events_of-append t.log (log_summary t.counter),
)
received-eq-events_of interval (next {t} r (clear p)) =
    omega (
      arith,
      received-eq-events_of interval r,
      pending_at t.phase logged (since r) t.counter.total p,
    )
received-eq-events_of interval (next {t} r (done p)) = omega (
  arith,
  received-eq-events_of interval r,
  pending_at t.phase waiting (since r) t.counter.total p,
)
