-- ===== src/Flags.antt =====
-- The command line of cmd/opcua_exporter/main.go: parseNodeFlag and the flags that override the
-- configuration. What the global viper answers once pflag's flags are bound to it is a parameter.
pub mod Latest
pub mod RoundTrip
pub mod Registered
pub mod Examples
use opcua_exporter.Prelude.{String, Bool, List, [], ◌∷◌, Option, none, some, ◌==◌, if◌then◌else◌}
use opcua_exporter.Prelude.Int.{ℤ}
use opcua_exporter.Prelude.Text.{◌<>◌, split_comma, trim_space, scan_int}
use opcua_exporter.Errors.{errorf, Result, ok, err, ◌>>=◌, wrapping}
use opcua_exporter.Values.{Value, nil, integer, int, Floats}
use opcua_exporter.Config.{
  NodeMapping, SecurityConfig, ConnectionTimeouts, Config, add_node_mapping,
}
use opcua_exporter.Config.Env.{Environ}
use opcua_exporter.Config.Load.{Viper, load}

-- viper.IsSet and viper.Get…, by the flag's name.
pub record FlagValues : Type 0 where
  pub is_set : String → Bool
  pub get_int : String → ℤ
  pub get_string : String → String
  pub get_bool : String → Bool
  pub get_duration : String → ℤ
  pub get_string_slice : String → List String

module _ {F : Type 0} where
  -- The text of the bit, trimmed: an empty one is no bit.
  flag_bit : String → Result (Value F)
  flag_bit text = if text == "" then ok nil else elim (scan_int text) [
    | none ↦ err (errorf ("invalid extractBit value '" <> text <> "'"))
    | some bit ↦ ok (integer int bit)
  ]

  -- What follows the first two parts; more than three are ignored.
  third_part : List String → Result (Value F)
  unfolding flag_bit
  third_part [] = ok nil
  third_part (text ∷ more) = flag_bit (trim_space text)

  mapping_of_parts : List String → Result (NodeMapping F)
  unfolding third_part
  mapping_of_parts (node ∷ metric ∷ more) = do
    bit ← third_part more
    ok (record { node_name = trim_space node; metric_name = trim_space metric; extract_bit = bit })
  mapping_of_parts _ = err (errorf "expected format 'nodeId,metricName[,extractBit]'")

  -- parseNodeFlag
  pub parse_node_flag : String → Result (NodeMapping F)
  unfolding mapping_of_parts
  parse_node_flag node_flag = mapping_of_parts (split_comma node_flag)

  -- A flag that does not parse is logged and skipped.
  after_flag : Result (NodeMapping F) → Config F → Config F
  after_flag (err e) c = c
  after_flag (ok m) c = add_node_mapping m c

  -- The loop over the node flags.
  pub apply_node_flags : List String → Config F → Config F
  apply_node_flags [] c = c
  apply_node_flags (flag ∷ flags) c = apply_node_flags flags (after_flag (parse_node_flag flag) c)

-- A setting, unless the flag is set.
abbrev pub over {ℓ} : {A : Type ℓ} → (String → Bool) → (String → A) → String → A → A
over is_set get flag value = if is_set flag then get flag else value

module _ {F : Type 0} (flags : FlagValues) where
  -- applyBasicFlagOverrides
  apply_basic_flag_overrides : Config F → Config F
  apply_basic_flag_overrides c = record c {
    port = over flags.is_set flags.get_int "port" c.port;
    endpoint = over flags.is_set flags.get_string "endpoint" c.endpoint;
    prom_prefix = over flags.is_set flags.get_string "prom-prefix" c.prom_prefix;
    debug = over flags.is_set flags.get_bool "debug" c.debug;
    read_timeout = over flags.is_set flags.get_duration "read-timeout" c.read_timeout;
    max_timeouts = over flags.is_set flags.get_int "max-timeouts" c.max_timeouts;
    buffer_size = over flags.is_set flags.get_int "buffer-size" c.buffer_size;
    summary_interval = over flags.is_set flags.get_duration "summary-interval" c.summary_interval;
    subscribe_to_time_node =
        over flags.is_set flags.get_bool "subscribe-to-time-node" c.subscribe_to_time_node;
  }

  -- applySecurityFlagOverrides
  apply_security_flag_overrides : Config F → Config F
  apply_security_flag_overrides c = record c {
    security = record {
      security_mode = over flags.is_set flags.get_string "security-mode" c.security.security_mode;
      security_policy =
          over flags.is_set flags.get_string "security-policy" c.security.security_policy;
      auth_mode = over flags.is_set flags.get_string "auth-mode" c.security.auth_mode;
      username = over flags.is_set flags.get_string "username" c.security.username;
      password = over flags.is_set flags.get_string "password" c.security.password;
      certificate_file =
          over flags.is_set flags.get_string "certificate-file" c.security.certificate_file;
      private_key_file =
          over flags.is_set flags.get_string "private-key-file" c.security.private_key_file;
      auto_trust = over flags.is_set flags.get_bool "auto-trust" c.security.auto_trust;
    };
  }

  -- applyTimeoutFlagOverrides
  apply_timeout_flag_overrides : Config F → Config F
  apply_timeout_flag_overrides c = record c {
    timeouts = record {
      dial_timeout = over flags.is_set flags.get_duration "dial-timeout" c.timeouts.dial_timeout;
      request_timeout =
          over flags.is_set flags.get_duration "request-timeout" c.timeouts.request_timeout;
      session_timeout =
          over flags.is_set flags.get_duration "session-timeout" c.timeouts.session_timeout;
      connection_retry_timeout =
          over flags.is_set flags.get_duration "connection-retry-timeout"
            c.timeouts.connection_retry_timeout;
    };
  }

  -- applyNodeFlagOverrides, which always returns nil
  pub apply_node_flag_overrides : Config F → Config F
  apply_node_flag_overrides c = apply_node_flags (flags.get_string_slice "node") c

  -- The overrides, in the order of loadAndApplyConfig.
  pub apply_flags : Config F → Config F
  unfolding apply_basic_flag_overrides apply_security_flag_overrides apply_timeout_flag_overrides
  apply_flags c =
      apply_node_flag_overrides (
        apply_timeout_flag_overrides (apply_security_flag_overrides (apply_basic_flag_overrides c)))

  -- loadAndApplyConfig
  pub load_and_apply_config : Floats F → Viper F → Environ → String → Option (Result (Config F))
  load_and_apply_config fl v env file = elim (load fl v env file) [
    | none ↦ none
    | some answer ↦ some (wrapping "error loading configuration" answer >>= λ c. ok (apply_flags c))
  ]
