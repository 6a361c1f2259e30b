-- ===== src/Security/Validate.antt =====
-- Which settings the validation accepts.
use opcua_exporter.Prelude.{◌≡◌, ◌≢◌, ◌↔◌, ◌⊎◌, String, false, eq_iff, arith}
use opcua_exporter.Errors.{Result, ok, wrapping}
use opcua_exporter.Security.{Missing, AuthConfig, validate_auth_config}

-- A pair of a certificate file and a key file, neither of them missing.
abbrev pub Present : Missing → String → String → Type 0
Present missing cert key = (cert ≢ "") × (key ≢ "") × (missing cert ≡ false) × (missing key ≡ false)

abbrev pub IsCrypto : String → Type 0
IsCrypto policy = (policy ≡ "Basic128Rsa15") ⊎ ((policy ≡ "Basic256") ⊎ (policy ≡ "Basic256Sha256"))

-- No security at all, or a mode that signs with a policy that has keys.
abbrev pub IsPair : String → String → Type 0
IsPair mode policy =
    ((mode ≡ "None") × (policy ≡ "None"))
    ⊎ (((mode ≡ "Sign") ⊎ (mode ≡ "SignAndEncrypt")) × IsCrypto policy)

-- The settings of the authentication mode: none for Anonymous, a user name for Username (the password
-- may be empty), and for Certificate two files that exist, or no files at all.
abbrev pub IsAuth : Missing → AuthConfig → Type 0
IsAuth missing cfg =
    (cfg.mode ≡ "Anonymous")
    ⊎ (((cfg.mode ≡ "Username") × (cfg.username ≢ ""))
        ⊎ ((cfg.mode ≡ "Certificate")
            × (((cfg.certificate_file ≡ "") × (cfg.private_key_file ≡ ""))
                ⊎ Present missing cfg.certificate_file cfg.private_key_file)))

wrapping-ok : (s : String) (m : Result (Unit {0})) → (wrapping s m ≡ ok tt) ↔ (m ≡ ok tt)
wrapping-ok s m = ground arith

-- `ValidateAuthConfig` accepts exactly those settings.
pub validate_auth_config_iff :
    (missing : Missing) (cfg : AuthConfig)
    → (validate_auth_config missing cfg ≡ ok tt) ↔ IsAuth missing cfg
unfolding validate_auth_config
validate_auth_config_iff missing cfg = ground (
  arith,
  eq_iff cfg.mode "Anonymous",
  eq_iff cfg.mode "Username",
  eq_iff cfg.mode "Certificate",
  eq_iff "Anonymous" "Username",
  eq_iff "Anonymous" "Certificate",
  eq_iff "Username" "Certificate",
  eq_iff cfg.username "",
  eq_iff cfg.certificate_file "",
  eq_iff cfg.private_key_file "",
)
