-- ===== src/Config.antt =====
-- internal/config/config.go: the configuration's types, the mappings and the defaults. Load stands in
-- the module Config.Load. A time.Duration is its number of nanoseconds.
pub mod Mapping
mod Examples
pub mod Env
pub mod Load
use opcua_exporter.Prelude.{
  ℕ, ◌*◌, ◌^◌, String, Bool, true, false, not, ◌&&◌, ◌||◌, List, [], ◌∷◌, ◌++◌, ◌==◌, if◌then◌else◌,
}
use opcua_exporter.Prelude.Int.{ℤ, pos, negsuc, is_negative, eqb_ℤ}
use opcua_exporter.Prelude.Text.{◌<>◌, itoa_ℤ}
use opcua_exporter.Errors.{Error, errorf, Result, ok, err, ◌>>=◌, ◌>>◌}
use opcua_exporter.Values.{
  Value, nil, bool, integer, float64, float32, time, byte_string, named_bool, bool_pointer, other,
  IntKind, int, Floats, type_name,
}

-- Durations: time.Second and time.Minute.
abbrev pub seconds : ℕ → ℤ
seconds n = pos (n * 1000000000)

abbrev pub minutes : ℕ → ℤ
minutes n = seconds (n * 60)

pub record NodeMapping (F : Type 0) : Type 0 where
  pub node_name : String
  pub metric_name : String
  -- nil if there is no bit to extract
  pub extract_bit : Value F

pub record SecurityConfig : Type 0 where
  pub security_mode : String
  pub security_policy : String
  pub auth_mode : String
  pub username : String
  pub password : String
  pub certificate_file : String
  pub private_key_file : String
  pub auto_trust : Bool

pub record ConnectionTimeouts : Type 0 where
  pub dial_timeout : ℤ
  pub request_timeout : ℤ
  pub session_timeout : ℤ
  pub connection_retry_timeout : ℤ

pub record Config (F : Type 0) : Type 0 where
  pub port : ℤ
  pub endpoint : String
  pub prom_prefix : String
  pub config_file : String
  pub debug : Bool
  pub read_timeout : ℤ
  pub max_timeouts : ℤ
  pub buffer_size : ℤ
  pub summary_interval : ℤ
  pub subscribe_to_time_node : Bool
  pub node_mappings : List (NodeMapping F)
  pub security : SecurityConfig
  pub timeouts : ConnectionTimeouts

module _ {F : Type 0} (fl : Floats F) where
  -- The switch of `Validate` on the type of ExtractBit.
  pub validate_bit : Value F → Result (Unit {0})
  validate_bit nil = ok tt
  validate_bit (integer int bit) =
      if is_negative bit
      then err (errorf ("extractBit must be non-negative, got " <> itoa_ℤ bit))
      else ok tt
  validate_bit (float64 bit) =
      if fl.ltb bit (fl.of_ℤ (pos 0)) || not (fl.eqb bit (fl.of_ℤ (fl.to_ℤ bit)))
      then err (errorf ("extractBit must be a non-negative integer, got " <> fl.format bit))
      else ok tt
  validate_bit v = err (errorf ("extractBit must be a number, got " <> type_name v))

  -- NodeMapping.Validate
  unfoldable pub validate : NodeMapping F → Result (Unit {0})
  unfolding validate_bit
  validate n =
      if n.node_name == ""
      then err (errorf "nodeName cannot be empty")
      else if n.metric_name == ""
      then err (errorf "metricName cannot be empty")
      else validate_bit n.extract_bit

module _ {F : Type 0} where
  -- filterValidNodeMappings
  pub filter_valid_node_mappings : List (NodeMapping F) → List (NodeMapping F)
  filter_valid_node_mappings [] = []
  filter_valid_node_mappings (m ∷ ms) =
      let rest = filter_valid_node_mappings ms in
      if not (m.node_name == "") && not (m.metric_name == "") then m ∷ rest else rest

  -- The loop of `AddNodeMapping`: the mappings with another metric name.
  pub without_metric : String → List (NodeMapping F) → List (NodeMapping F)
  without_metric metric [] = []
  without_metric metric (m ∷ ms) =
      let rest = without_metric metric ms in
      if not (m.metric_name == metric) then m ∷ rest else rest

  -- Config.AddNodeMapping
  unfoldable pub add_node_mapping : NodeMapping F → Config F → Config F
  unfolding without_metric
  add_node_mapping m c = record c {
    node_mappings = without_metric m.metric_name c.node_mappings ++ m ∷ [];
  }

-- `if s == "" { s = d }`
abbrev pub or_default : String → String → String
or_default s d = if s == "" then d else s

module _ {F : Type 0} where
  pub apply_security_defaults : Config F → Config F
  apply_security_defaults c = record c {
    security = record c.security {
      security_mode = or_default c.security.security_mode "None";
      security_policy = or_default c.security.security_policy "None";
      auth_mode = or_default c.security.auth_mode "Anonymous";
    };
  }

  pub apply_zero_value_defaults : Config F → Config F
  apply_zero_value_defaults c = record c {
    port = if eqb_ℤ c.port (pos 0) then pos 9686 else c.port;
    buffer_size = if eqb_ℤ c.buffer_size (pos 0) then pos 64 else c.buffer_size;
  }
