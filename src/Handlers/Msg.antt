-- ===== src/Handlers/Msg.antt =====
-- internal/handlers/handler.go: the interface MsgHandler, as the two types that implement it.
use opcua_exporter.Prelude.{ℕ}
use opcua_exporter.Values.{Floats, Outcome, Variant}
use opcua_exporter.Handlers
use opcua_exporter.Handlers.{OpcValueHandler, Gauges}
use opcua_exporter.Handlers.BitVector
use opcua_exporter.Handlers.BitVector.{OpcuaBitVectorHandler}

pub data MsgHandler : Type 0 where
  opc_value : OpcValueHandler → MsgHandler
  bit_vector : OpcuaBitVectorHandler → MsgHandler

abbrev pub gauge_of : MsgHandler → ℕ
gauge_of (opc_value h) = h.gauge
gauge_of (bit_vector h) = h.gauge

module _ {F : Type 0} (fl : Floats F) where
  -- MsgHandler.FloatValue
  unfoldable pub float_value : MsgHandler → Variant F → Outcome F
  float_value (opc_value h) v = Handlers.float_value fl v
  float_value (bit_vector h) v = BitVector.float_value fl h v

  -- MsgHandler.Handle
  unfoldable pub handle : MsgHandler → Variant F → Gauges F → Outcome (Unit {0}) × Gauges F
  handle (opc_value h) v gauges = Handlers.handle fl h v gauges
  handle (bit_vector h) v gauges = BitVector.handle fl h v gauges
