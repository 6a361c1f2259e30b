-- ===== src/Errors.antt =====
-- internal/errors/errors.go, and the errors that the packages build with fmt.Errorf.
-- An error is a chain: a message at its end, and around it the wrappers that `%w`, the three
-- structs of the package and backoff.Permanent put there.
pub mod Bind
pub mod Chain
mod Examples
use opcua_exporter.Prelude.{String, Option, none, some}
use opcua_exporter.Prelude.Text.{◌<>◌}

pub data Error : Type 0 where
  -- fmt.Errorf with a text and no `%w`
  errorf : String → Error
  -- fmt.Errorf("text: %w", err)
  wrap : String → Error → Error
  -- ConfigError; the value is held as `%v` prints it
  config_error : (field value : String) → Error → Error
  connection_error : (endpoint : String) → Error → Error
  metric_error : (metric_name node_name : String) → Error → Error
  -- backoff.Permanent(err), which prints as err does
  permanent : Error → Error

-- The `Error` methods.
unfoldable pub error_text : Error → String
error_text (errorf s) = s
error_text (wrap s e) = s <> ": " <> error_text e
error_text (config_error field value e) =
    "config field " <> field <> ": " <> value <> ": " <> error_text e
error_text (connection_error endpoint e) =
    "connection to " <> endpoint <> " failed: " <> error_text e
error_text (metric_error metric_name node_name e) =
    "metric " <> metric_name <> " for node " <> node_name <> ": " <> error_text e
error_text (permanent e) = error_text e

-- The `Unwrap` methods.
unfoldable pub unwrap : Error → Option Error
unwrap (errorf s) = none
unwrap (wrap s e) = some e
unwrap (config_error field value e) = some e
unwrap (connection_error endpoint e) = some e
unwrap (metric_error metric_name node_name e) = some e
unwrap (permanent e) = some e

-- A function of the program that returns `error`: nil or an error, or a value beside it.
pub data Result {ℓ} (A : Type ℓ) : Type ℓ where
  ok : A → Result A
  err : Error → Result A

infixl 5 ◌>>=◌ ◌>>◌
-- A failed call returns its error at once.
abbrev pub ◌>>=◌ {ℓ κ} : {A : Type ℓ} {B : Type κ} → Result A → (A → Result B) → Result B
◌>>=◌ (err failure) next = err failure
◌>>=◌ (ok value) next = next value

abbrev pub ◌>>◌ {κ} : {B : Type κ} → Result (Unit {0}) → Result B → Result B
◌>>◌ call next = call >>= λ done. next

-- `if err != nil { return fmt.Errorf("text: %w", err) }`
abbrev pub wrapping {ℓ} : {A : Type ℓ} → String → Result A → Result A
wrapping s (ok a) = ok a
wrapping s (err e) = err (wrap s e)
