-- ===== src/Handlers/BitVector/Examples.antt =====
-- The highest bit of the word -2.
use opcua_exporter.Prelude.{◌≡◌, refl, ◌⊎◌, false}
use opcua_exporter.Prelude.Int.{ℤ, pos, negsuc}
use opcua_exporter.Fixtures.{whole}
use opcua_exporter.Values.{Variant, other_type, integer, int16, ok, fixed_size}
use opcua_exporter.Handlers.BitVector.{OpcuaBitVectorHandler, float_value}
use opcua_exporter.Handlers.BitVector.Range.{float_value_bound}

abbrev top_bit : OpcuaBitVectorHandler
top_bit = record { gauge = 3; extract_bit = pos 15; debug = false }

abbrev word : Variant ℤ
word = record { type_id = other_type 4; value = integer int16 (negsuc 1) }

reads_one : float_value whole top_bit word ≡ ok (pos 1)
unfolding float_value fixed_size
reads_one = refl

float_value_bound_example : (pos 1 ≡ pos 0) ⊎ (pos 1 ≡ pos 1)
float_value_bound_example = float_value_bound whole top_bit word (pos 1) reads_one
