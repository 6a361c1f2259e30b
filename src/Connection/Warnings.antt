-- ===== src/Connection/Warnings.antt =====
-- What validateSecurityConfig of internal/connection/manager.go logs.
use opcua_exporter.Prelude.{
  ◌≡◌, ◌≢◌, ◌↔◌, ◌⊎◌, String, Bool, false, not, ◌&&◌, List, [], ◌∷◌, ◌++◌, ◌==◌, eq_iff, arith,
  if◌then◌else◌,
}
use opcua_exporter.Prelude.Text.{◌<>◌}
use opcua_exporter.Errors.{ok, err}
use opcua_exporter.Security.{AuthConfig, auth_mode_username, security_mode_none}
use opcua_exporter.Security.Certificates.{Crypto}
use opcua_exporter.Connection.{Manager, auth_config_of, validate_security}

-- A line that is logged under a condition.
abbrev line_if : Bool → String → List String
line_if condition line = if condition then line ∷ [] else []

-- logSecurityIssues
log_security_issues : Manager → AuthConfig → List String
log_security_issues m auth =
    line_if auth.auto_trust
      "WARNING: Auto-trust is enabled - this bypasses certificate validation and is insecure for production"
    ++ line_if (auth.mode == auth_mode_username && auth.password == "")
        "WARNING: Username authentication configured but password is empty"
    ++ line_if (m.security_config.security_mode == security_mode_none)
        "INFO: Security mode is 'None' - connection will not be encrypted"
    ++ line_if (not (auth.certificate_file == "") && auth.private_key_file == "")
        "WARNING: Certificate file specified but private key file is missing"
    ++ line_if (auth.certificate_file == "" && not (auth.private_key_file == ""))
        "WARNING: Private key file specified but certificate file is missing"
    ++ line_if m.debug (
        "Security configuration: mode=" <> m.security_config.security_mode <> ", policy="
        <> m.security_config.security_policy <> ", auth=" <> m.security_config.auth_mode)

-- The log of validateSecurityConfig, which is silent on settings that it refuses.
validate_security_log : Crypto → Manager → List String
unfolding log_security_issues
validate_security_log crypto m = elim (validate_security crypto m.security_config) [
  | err e ↦ []
  | ok u ↦ log_security_issues m (auth_config_of m.security_config)
]

-- Without debug, logSecurityIssues logs nothing exactly if server certificates are not trusted by
-- themselves, no user name goes without a password, the mode is not None, and the certificate and the
-- key are both named or both not.
log_security_issues-silent_iff :
    (m : Manager) (auth : AuthConfig)
    → m.debug ≡ false
    → (log_security_issues m auth ≡ []) ↔ (
        (auth.auto_trust ≡ false)
        × ((auth.mode ≢ "Username") ⊎ (auth.password ≢ ""))
        × (m.security_config.security_mode ≢ "None")
        × ((auth.certificate_file ≡ "") ↔ (auth.private_key_file ≡ "")))
unfolding log_security_issues
log_security_issues-silent_iff m auth quiet = ground (
  arith,
  eq_iff auth.mode "Username",
  eq_iff auth.password "",
  eq_iff m.security_config.security_mode "None",
  eq_iff auth.certificate_file "",
  eq_iff auth.private_key_file "",
)
