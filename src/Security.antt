-- ===== src/Security.antt =====
-- internal/security: the settings and their validation (auth.go, lines 15 to 168, and the file checks
-- of certificates.go) here; certificates, the choice of an endpoint and the client's options in the
-- modules below. The log is left out, but for the warnings on a certificate.
pub mod Validate
pub mod Certificates
pub mod Endpoint
pub mod Options
mod Examples
use opcua_exporter.Prelude.{
  String, Bool, true, false, not, ◌&&◌, ◌||◌, List, [], ◌∷◌, ◌==◌, if◌then◌else◌,
}
use opcua_exporter.Prelude.Text.{◌<>◌}
use opcua_exporter.Errors.{Error, errorf, wrap, Result, ok, err, ◌>>=◌, ◌>>◌, wrapping}

abbrev pub auth_mode_anonymous : String
auth_mode_anonymous = "Anonymous"

abbrev pub auth_mode_username : String
auth_mode_username = "Username"

abbrev pub auth_mode_certificate : String
auth_mode_certificate = "Certificate"

abbrev pub security_mode_none : String
security_mode_none = "None"

abbrev pub security_mode_sign : String
security_mode_sign = "Sign"

abbrev pub security_mode_sign_and_encrypt : String
security_mode_sign_and_encrypt = "SignAndEncrypt"

abbrev pub security_policy_none : String
security_policy_none = "None"

abbrev pub security_policy_basic128_rsa15 : String
security_policy_basic128_rsa15 = "Basic128Rsa15"

abbrev pub security_policy_basic256 : String
security_policy_basic256 = "Basic256"

abbrev pub security_policy_basic256_sha256 : String
security_policy_basic256_sha256 = "Basic256Sha256"

pub record AuthConfig : Type 0 where
  pub mode : String
  pub username : String
  pub password : String
  pub certificate_file : String
  pub private_key_file : String
  pub auto_trust : Bool

-- What os.Stat says of a path: true if its error is that the file does not exist.
abbrev pub Missing : Type 0
Missing = String → Bool

-- ValidateCertificateFiles
pub validate_certificate_files : Missing → String → String → Result (Unit {0})
validate_certificate_files missing certificate_file private_key_file =
    if certificate_file == "" && private_key_file == ""
    then ok tt
    else if certificate_file == ""
    then err (errorf "private key file specified but certificate file is empty")
    else if private_key_file == ""
    then err (errorf "certificate file specified but private key file is empty")
    else if missing certificate_file
    then err (errorf ("certificate file does not exist: " <> certificate_file))
    else if missing private_key_file
    then err (errorf ("private key file does not exist: " <> private_key_file))
    else ok tt

-- ValidateAuthConfig
unfoldable pub validate_auth_config : Missing → AuthConfig → Result (Unit {0})
unfolding validate_certificate_files
validate_auth_config missing cfg =
    if cfg.mode == auth_mode_anonymous
    then ok tt
    else if cfg.mode == auth_mode_username
    then if cfg.username == ""
      then err (errorf "username is required for username authentication")
      else ok tt
    else if cfg.mode == auth_mode_certificate
    then wrapping "certificate authentication validation failed"
        (validate_certificate_files missing cfg.certificate_file cfg.private_key_file)
    else err (
        errorf (
          "unsupported authentication mode: " <> cfg.mode
          <> " (supported: Anonymous, Username, Certificate)"))

is_security_mode : String → Bool
is_security_mode mode =
    mode == security_mode_none
    || mode == security_mode_sign
    || mode == security_mode_sign_and_encrypt

is_security_policy : String → Bool
is_security_policy policy =
    policy == security_policy_none
    || policy == security_policy_basic128_rsa15
    || policy == security_policy_basic256
    || policy == security_policy_basic256_sha256

-- ValidateSecurityConfig
unfoldable pub validate_security_config : String → String → Result (Unit {0})
unfolding is_security_mode is_security_policy
validate_security_config mode policy =
    if not (is_security_mode mode)
    then err (
        errorf
          ("unsupported security mode: " <> mode <> " (supported: None, Sign, SignAndEncrypt)"))
    else if not (is_security_policy policy)
    then err (
        errorf (
          "unsupported security policy: " <> policy
          <> " (supported: None, Basic128Rsa15, Basic256, Basic256Sha256)"))
    else if mode == security_mode_none && not (policy == security_policy_none)
    then err (errorf "security mode 'None' requires security policy 'None'")
    else if not (mode == security_mode_none) && policy == security_policy_none
    then err
        (errorf ("security mode '" <> mode <> "' requires a security policy other than 'None'"))
    else ok tt

-- requiresCertificatesForSecurity
unfoldable pub requires_certificates_for_security : String → String → Bool
requires_certificates_for_security mode policy =
    if mode == security_mode_none
    then false
    else if policy == security_policy_basic128_rsa15
        || policy == security_policy_basic256
        || policy == security_policy_basic256_sha256
    then true
    else if policy == security_policy_none
    then false
    else true

-- ValidateSecurityConfigWithCertificates
unfoldable pub validate_security_config_with_certificates :
    Missing → String → String → String → String → Result (Unit {0})
validate_security_config_with_certificates missing mode policy certificate_file private_key_file =
    do
      validate_security_config mode policy
      if requires_certificates_for_security mode policy
          then if certificate_file == "" || private_key_file == ""
            then err (
                errorf (
                  "security policy '" <> policy <> "' with mode '" <> mode
                  <> "' requires both certificate and private key files to be specified"))
            else wrapping ("certificate validation failed for security policy '" <> policy <> "'")
                (validate_certificate_files missing certificate_file private_key_file)
          else ok tt
