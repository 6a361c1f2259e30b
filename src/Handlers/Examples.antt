-- ===== src/Handlers/Examples.antt =====
-- The handlers and the summary on concrete messages.
use opcua_exporter.Prelude.{◌≡◌, refl, ◌↔◌, ◌^◌, ◌%◌, List, [], ◌∷◌, ◌++◌, length, false, String}
use opcua_exporter.Prelude.Int.{ℤ, pos, negsuc, pattern_of}
use mathlib.Core.Option
use opcua_exporter.Fixtures.{whole}
use opcua_exporter.Values.{Variant, other_type, integer, int16, nil, boolean, panics, fixed_size}
use opcua_exporter.Handlers.BitVector
use opcua_exporter.Handlers.BitVector.{OpcuaBitVectorHandler}
use opcua_exporter.Handlers.BitVector.Extract.{Returns, bit_of, float_value-integer}
use opcua_exporter.Handlers.Msg.{opc_value, bit_vector, float_value, handle}
use opcua_exporter.Handlers.Publish.{
  ended, calls, Crashes, handle-eq-float_value, handle-panics_iff,
}
use opcua_exporter.Handlers.Summary.{
  new_event_summary_counter, reset, start, count, System, waiting, inc,
}
use opcua_exporter.Prelude.{◌+◌}
use opcua_exporter.Handlers.Summary.{log_summary, clear, logged, tick}
use opcua_exporter.Handlers.Summary.Ledger.{
  received, since, lost, events_of, pending, received-eq-events_of,
}
use opcua_exporter.Handlers.Summary.Invariant.{
  count_of, inc_all, occurrences, inc_all-reset, Reach, here, next, created, IsSound, Reach-IsSound,
}

-- The highest bit of a 16-bit word, for gauge 3.
abbrev top_bit : OpcuaBitVectorHandler
top_bit = record { gauge = 3; extract_bit = pos 15; debug = false }

-- The word -2.
abbrev word : Variant ℤ
word = record { type_id = other_type 4; value = integer int16 (negsuc 1) }

abbrev no_value : Variant ℤ
no_value = record { type_id = boolean; value = nil }

float_value-integer_example :
    Returns
      (BitVector.float_value whole top_bit word)
      (Option.map (λ b. pos b) (bit_of 2 (pattern_of 16 (negsuc 1)) (pos 15)))
unfolding fixed_size
float_value-integer_example =
    float_value-integer whole top_bit (other_type 4) int16 2 (negsuc 1) refl

handle-eq-float_value_example : handle whole (bit_vector top_bit) word ((1, pos 5) ∷ []) ≡ (
  ended (float_value whole (bit_vector top_bit) word),
  ((1, pos 5) ∷ []) ++ calls 3 (float_value whole (bit_vector top_bit) word),
)
handle-eq-float_value_example =
    handle-eq-float_value whole (bit_vector top_bit) word ((1, pos 5) ∷ [])

handle-panics_iff_example :
    ((handle whole (opc_value (record { gauge = 3 })) no_value []).0 ≡ panics)
    ↔ Crashes (opc_value (record { gauge = 3 })) no_value
handle-panics_iff_example = handle-panics_iff whole (opc_value (record { gauge = 3 })) no_value []

abbrev messages : List String
messages = "i=7" ∷ "i=9" ∷ "i=7" ∷ []

inc_all-reset_example :
    (count_of "i=7" (inc_all (reset (new_event_summary_counter (pos 300))) messages).counts % 2 ^ 64
      ≡ occurrences "i=7" messages % 2 ^ 64)
    × ((inc_all (reset (new_event_summary_counter (pos 300))) messages).total % 2 ^ 64
        ≡ length messages % 2 ^ 64)
inc_all-reset_example = inc_all-reset (new_event_summary_counter (pos 300)) "i=7" messages

-- The goroutine starts, a message is counted, and the summary is logged.
abbrev started : System
started = record (created (pos 300)) {
  counter = reset (created (pos 300)).counter;
  phase = waiting;
}

abbrev counted : System
counted = record started { counter = inc started.counter "i=7" }

first_summary : Reach (created (pos 300)) counted
unfolding new_event_summary_counter
first_summary = next (next here (start refl refl)) (count "i=7")

Reach-IsSound_example : IsSound counted
Reach-IsSound_example = Reach-IsSound (pos 300) first_summary

-- A message between a summary and the Reset behind it.
abbrev late_run_end : System
late_run_end =
    let s = record counted { log = log_summary counted.counter ∷ []; phase = logged } in
    record s { counter = reset (inc s.counter "i=9"); phase = waiting }

late_run : Reach (created (pos 300)) late_run_end
late_run = next (next (next first_summary (tick refl)) (count "i=9")) (clear refl)

-- It is lost: two messages were received, and one is in a summary.
late_run-lost : (received late_run ≡ 2) × (lost late_run ≡ 1)
unfolding late_run first_summary new_event_summary_counter
late_run-lost = (refl, refl)

received-eq-events_of_example :
    received late_run % 2 ^ 64
    ≡ (events_of late_run_end.log
        + lost late_run
        + pending late_run_end.phase (since late_run) late_run_end.counter.total)
      % 2 ^ 64
received-eq-events_of_example = received-eq-events_of (pos 300) late_run
