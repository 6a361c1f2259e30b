-- ===== src/Config/Load.antt =====
-- Load of internal/config/config.go. spf13/viper is a parameter: what was called on the instance so
-- far, and what ReadInConfig and Unmarshal answer after those calls.
pub mod Ready
pub mod Examples
use opcua_exporter.Prelude.{
  ℕ, zero, suc, ◌+◌, ◌*◌, String, Bool, true, false, List, [], ◌∷◌, ◌++◌, Option, none, some, ◌==◌,
  if◌then◌else◌,
}
use opcua_exporter.Prelude.Int.{ℤ, pos}
use opcua_exporter.Prelude.Text.{◌<>◌, itoa}
use opcua_exporter.Errors.{Error, wrap, Result, ok, err, ◌>>=◌, ◌>>◌, wrapping}
use opcua_exporter.Values.{Value, Floats}
use opcua_exporter.Config.{
  NodeMapping, Config, seconds, minutes, validate, filter_valid_node_mappings,
  apply_security_defaults, apply_zero_value_defaults,
}
use opcua_exporter.Config.Env.{Environ, parse_env_node_mappings}

pub data Setting : Type 0 where
  number : ℕ → Setting
  text : String → Setting
  flag : Bool → Setting
  duration : ℤ → Setting
  no_mappings : Setting

-- A call on the viper instance.
pub data Call : Type 0 where
  allow_empty_env : Bool → Call
  set_default : String → Setting → Call
  set_env_prefix : String → Call
  automatic_env : Call
  bind_env : String → String → Call
  set_config_file : String → Call
  read_in_config : Call

-- What ReadInConfig returns: nil, one of the two errors for a missing file, or another error.
pub data ReadAnswer : Type 0 where
  loaded config_file_not_found not_exist : ReadAnswer
  unreadable : Error → ReadAnswer

pub record Viper (F : Type 0) : Type 0 where
  pub read_answer : List Call → ReadAnswer
  pub unmarshal : List Call → Result (Config F)

abbrev pub default_calls : List Call
default_calls =
    allow_empty_env true
    ∷ set_default "port" (number 9686)
    ∷ set_default "endpoint" (text "opc.tcp://localhost:4096")
    ∷ set_default "promPrefix" (text "")
    ∷ set_default "debug" (flag false)
    ∷ set_default "readTimeout" (duration (seconds 5))
    ∷ set_default "maxTimeouts" (number 0)
    ∷ set_default "bufferSize" (number 64)
    ∷ set_default "summaryInterval" (duration (minutes 5))
    ∷ set_default "subscribeToTimeNode" (flag false)
    ∷ set_default "nodes" no_mappings
    ∷ set_default "security.securityMode" (text "None")
    ∷ set_default "security.securityPolicy" (text "None")
    ∷ set_default "security.authMode" (text "Anonymous")
    ∷ set_default "security.autoTrust" (flag false)
    ∷ set_default "timeouts.dialTimeout" (duration (seconds 10))
    ∷ set_default "timeouts.requestTimeout" (duration (seconds 5))
    ∷ set_default "timeouts.sessionTimeout" (duration (minutes 20))
    ∷ set_default "timeouts.connectionRetryTimeout" (duration (minutes 5))
    ∷ []

abbrev pub bind : String → String → Call
bind key name = bind_env key ("OPCUA_EXPORTER_" <> name)

abbrev pub env_calls : List Call
env_calls =
    set_env_prefix "OPCUA_EXPORTER"
    ∷ automatic_env
    ∷ bind "port" "PORT"
    ∷ bind "endpoint" "ENDPOINT"
    ∷ bind "promPrefix" "PROM_PREFIX"
    ∷ bind "debug" "DEBUG"
    ∷ bind "readTimeout" "READ_TIMEOUT"
    ∷ bind "maxTimeouts" "MAX_TIMEOUTS"
    ∷ bind "bufferSize" "BUFFER_SIZE"
    ∷ bind "summaryInterval" "SUMMARY_INTERVAL"
    ∷ bind "subscribeToTimeNode" "SUBSCRIBE_TO_TIME_NODE"
    ∷ bind "security.securityMode" "SECURITY_MODE"
    ∷ bind "security.securityPolicy" "SECURITY_POLICY"
    ∷ bind "security.authMode" "AUTH_MODE"
    ∷ bind "security.username" "USERNAME"
    ∷ bind "security.password" "PASSWORD"
    ∷ bind "security.certificateFile" "CERTIFICATE_FILE"
    ∷ bind "security.privateKeyFile" "PRIVATE_KEY_FILE"
    ∷ bind "security.autoTrust" "AUTO_TRUST"
    ∷ bind "timeouts.dialTimeout" "DIAL_TIMEOUT"
    ∷ bind "timeouts.requestTimeout" "REQUEST_TIMEOUT"
    ∷ bind "timeouts.sessionTimeout" "SESSION_TIMEOUT"
    ∷ bind "timeouts.connectionRetryTimeout" "CONNECTION_RETRY_TIMEOUT"
    ∷ []

-- What the config file contributed: the calls made, and whether it was loaded.
pub record Source : Type 0 where
  pub calls : List Call
  pub file_loaded : Bool

abbrev pub file_calls : String → List Call
file_calls file = default_calls ++ env_calls ++ set_config_file file ∷ read_in_config ∷ []

source_of : String → ReadAnswer → Result Source
source_of file loaded = ok (record { calls = file_calls file; file_loaded = true })
source_of file config_file_not_found = ok (record { calls = file_calls file; file_loaded = false })
source_of file not_exist = ok (record { calls = file_calls file; file_loaded = false })
source_of file (unreadable e) = err (wrap ("error parsing YAML config file " <> file) e)

pub read_source : {F : Type 0} → Viper F → String → Result Source
unfolding source_of
read_source v file =
    if file == ""
    then ok (record { calls = default_calls ++ env_calls; file_loaded = false })
    else source_of file (v.read_answer (file_calls file))

-- The loop that validates every mapping, from index `i`.
pub validate_from : {F : Type 0} → Floats F → ℕ → List (NodeMapping F) → Result (Unit {0})
validate_from fl i [] = ok tt
validate_from fl i (m ∷ ms) =
    wrapping ("invalid node mapping at index " <> itoa i) (validate fl m)
    >> validate_from fl (i + 1) ms

-- `if len(envNodeMappings) > 0 { config.NodeMappings = envNodeMappings }`
override_mappings : {F : Type 0} → List (NodeMapping F) → Config F → Config F
override_mappings [] c = c
override_mappings (m ∷ ms) c = record c { node_mappings = m ∷ ms }

-- The defaults for empty and zero values, and the environment's mappings.
pub complete : {F : Type 0} → Source → List (NodeMapping F) → Config F → Config F
unfolding override_mappings
complete source env_mappings raw =
    let secured = apply_security_defaults raw in
    override_mappings env_mappings
      (if source.file_loaded then apply_zero_value_defaults secured else secured)

-- Validation of every mapping, then the filter.
pub checked : {F : Type 0} → Floats F → Config F → Result (Config F)
unfolding validate_from
checked fl c = do
  validate_from fl 0 c.node_mappings
  ok (record c { node_mappings = filter_valid_node_mappings c.node_mappings })

-- Load after the environment's mappings are read.
pub load_with :
    {F : Type 0} → Floats F → Viper F → String → List (NodeMapping F) → Result (Config F)
unfolding read_source complete checked
load_with fl v file env_mappings = do
  source ← read_source v file
  raw ← wrapping "error unmarshaling configuration" (v.unmarshal source.calls)
  checked fl (complete source env_mappings raw)

-- Load; `none` if the loop over the environment ran out of fuel.
unfoldable pub load :
    {F : Type 0} → Floats F → Viper F → Environ → String → Option (Result (Config F))
unfolding load_with
load fl v env file = elim (parse_env_node_mappings env) [
  | none ↦ none
  | some env_mappings ↦ some (load_with fl v file env_mappings)
]
