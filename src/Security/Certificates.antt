-- ===== src/Security/Certificates.antt =====
-- internal/security/certificates.go: loading a certificate with its key. The files, crypto/tls,
-- crypto/x509 and encoding/pem answer through a parameter.
pub mod Loaded
pub mod Warnings
mod Examples
use opcua_exporter.Prelude.{
  ℕ, String, Bool, true, false, ◌||◌, List, [], ◌∷◌, Option, none, some, ◌==◌, if◌then◌else◌,
}
use opcua_exporter.Prelude.Text.{◌<>◌}
use opcua_exporter.Errors.{Error, errorf, wrap, Result, ok, err, ◌>>=◌, ◌>>◌, wrapping}
use opcua_exporter.Security.{Missing}
use opcua_exporter.Prelude.{ltb}

abbrev pub Bytes : Type 0
Bytes = List ℕ

-- A parsed private key: an RSA key, or a key of another type.
pub data PrivateKey : Type 0 where
  rsa : ℕ → PrivateKey
  other_key : String → PrivateKey

-- tls.Certificate
pub record Certificate : Type 0 where
  pub chain : List Bytes
  pub private_key : PrivateKey

-- What the code asks of an x509.Certificate: its validity period, as times, the numbers of its extended
-- key usages, and the bits of its key usage.
pub record LeafCertificate : Type 0 where
  pub not_before : ℕ
  pub not_after : ℕ
  pub ext_key_usage : List ℕ
  pub key_usage : ℕ

-- A PEM block: its type and its bytes.
pub record Block : Type 0 where
  pub block_type : String
  pub bytes : Bytes

-- The machine and the libraries: os.Stat, tls.LoadX509KeyPair, x509.ParseCertificate, pem.Decode,
-- x509.ParsePKCS1PrivateKey and x509.ParsePKCS8PrivateKey.
pub record Crypto : Type 0 where
  pub missing : Missing
  pub load_x509_key_pair : String → String → Result Certificate
  pub parse_certificate : Bytes → Result LeafCertificate
  pub decode : Bytes → Option Block
  pub parse_pkcs1_private_key : Bytes → Result PrivateKey
  pub parse_pkcs8_private_key : Bytes → Result PrivateKey

pub record CertificateManager : Type 0 where
  pub certificate_file : String
  pub private_key_file : String

unfoldable pub new_certificate_manager : String → String → CertificateManager
new_certificate_manager certificate_file private_key_file = record {
  certificate_file = certificate_file;
  private_key_file = private_key_file;
}

-- The check on a parsed leaf. `leafCert.NotAfter.Before(leafCert.NotBefore)`
unfoldable pub validate_leaf : LeafCertificate → Result (Unit {0})
validate_leaf leaf =
    if ltb leaf.not_after leaf.not_before
    then err (errorf "certificate has invalid validity period")
    else ok tt

-- A block that pem.Decode found, or an error with the text.
pub decoded : String → Option Block → Result Block
decoded text none = err (errorf text)
decoded text (some block) = ok block

pub rsa_only : PrivateKey → Result PrivateKey
rsa_only (rsa key) = ok (rsa key)
rsa_only (other_key name) = err (errorf "private key is not RSA")

module _ (crypto : Crypto) where
  -- validateCertificate; its two warnings are in Security.Certificates.Warnings
  unfoldable pub validate_certificate : List Bytes → Result (Unit {0})
  validate_certificate [] = err (errorf "certificate chain is empty")
  validate_certificate (leaf_bytes ∷ chain) = do
    leaf ← wrapping "failed to parse leaf certificate" (crypto.parse_certificate leaf_bytes)
    validate_leaf leaf

  -- Loading and validating the pair, once the files are there.
  unfoldable pub load_pair : CertificateManager → Result Certificate
  load_pair cm = do
    cert ←
        wrapping "failed to load certificate and key pair"
          (crypto.load_x509_key_pair cm.certificate_file cm.private_key_file)
    wrapping "certificate validation failed" (validate_certificate cert.chain)
    ok cert

  -- LoadCertificate
  unfoldable pub load_certificate : CertificateManager → Result Certificate
  load_certificate cm =
      if cm.certificate_file == "" || cm.private_key_file == ""
      then err (errorf "certificate file and private key file must both be specified")
      else if crypto.missing cm.certificate_file
      then err (errorf ("certificate file does not exist: " <> cm.certificate_file))
      else if crypto.missing cm.private_key_file
      then err (errorf ("private key file does not exist: " <> cm.private_key_file))
      else load_pair cm

  -- The switch on the key's block.
  pub parse_private_key : Block → Result PrivateKey
  parse_private_key block =
      if block.block_type == "RSA PRIVATE KEY"
      then wrapping "failed to parse private key" (crypto.parse_pkcs1_private_key block.bytes)
      else if block.block_type == "PRIVATE KEY"
      then wrapping "failed to parse private key" (crypto.parse_pkcs8_private_key block.bytes)
      else err (errorf ("unsupported private key type: " <> block.block_type))

  -- LoadCertificateFromPEM
  pub load_certificate_from_pem : Bytes → Bytes → Result Certificate
  load_certificate_from_pem cert_pem key_pem = do
    cert_block ← decoded "failed to decode certificate PEM" (crypto.decode cert_pem)
    key_block ← decoded "failed to decode private key PEM" (crypto.decode key_pem)
    key ← parse_private_key key_block
    private_key ← rsa_only key
    ok (record { chain = cert_block.bytes ∷ []; private_key = private_key })
