-- ===== src/Security/Certificates/Loaded.antt =====
-- What a loaded certificate has passed.
use opcua_exporter.Prelude.{
  ℕ, ◌≤◌, ◌≡◌, sym, ap, ◌∙◌, ◌≢◌, ◌↔◌, refl, String, false, List, [], ◌∷◌, Option, none, some,
  eq_iff, arith,
}
use opcua_exporter.Errors.{ok, wrapping}
use opcua_exporter.Errors.Bind.{>>=-eq-ok, wrapping-eq-ok}
use opcua_exporter.Security.Certificates.{
  Bytes, PrivateKey, rsa, other_key, Certificate, LeafCertificate, Block, Crypto,
  CertificateManager, validate_leaf, validate_certificate, load_certificate, load_pair,
  parse_private_key, decoded, rsa_only, load_certificate_from_pem,
}

-- A chain with a leaf that parses and whose validity period does not end before it begins.
pub record IsUsable (crypto : Crypto) (cert : Certificate) : Type 0 where
  pub leaf_bytes : Bytes
  pub rest : List Bytes
  pub leaf : LeafCertificate
  pub chain : cert.chain ≡ leaf_bytes ∷ rest
  pub parsed : crypto.parse_certificate leaf_bytes ≡ ok leaf
  pub period : leaf.not_before ≤ leaf.not_after

validate_certificate-parsed :
    (crypto : Crypto) (leaf_bytes : Bytes) (rest : List Bytes)
    → validate_certificate crypto (leaf_bytes ∷ rest) ≡ ok tt
    → (leaf : LeafCertificate) × (crypto.parse_certificate leaf_bytes ≡ ok leaf)
      × (leaf.not_before ≤ leaf.not_after)
unfolding validate_certificate validate_leaf
validate_certificate-parsed crypto leaf_bytes rest h =
    let (leaf, parsed, period) =
      >>=-eq-ok (wrapping "failed to parse leaf certificate" (crypto.parse_certificate leaf_bytes))
        _ h in
    (leaf, wrapping-eq-ok _ (crypto.parse_certificate leaf_bytes) parsed, ground arith)

validate_certificate-IsUsable :
    (crypto : Crypto) (cert : Certificate) (chain : List Bytes)
    → cert.chain ≡ chain
    → validate_certificate crypto chain ≡ ok tt
    → IsUsable crypto cert
validate_certificate-IsUsable crypto cert [] e h = unfold validate_certificate in cc h
validate_certificate-IsUsable crypto cert (leaf_bytes ∷ rest) e h =
    let (leaf, parsed, period) = validate_certificate-parsed crypto leaf_bytes rest h in
    record {
      leaf_bytes = leaf_bytes;
      rest = rest;
      leaf = leaf;
      chain = e;
      parsed = parsed;
      period = period;
    }

-- The two files, the pair loaded from them, and its check.
pub record IsLoaded (crypto : Crypto) (cm : CertificateManager) (cert : Certificate) : Type 0 where
  pub named : cm.certificate_file ≢ ""
  pub key_named : cm.private_key_file ≢ ""
  pub present : crypto.missing cm.certificate_file ≡ false
  pub key_present : crypto.missing cm.private_key_file ≡ false
  pub pair : crypto.load_x509_key_pair cm.certificate_file cm.private_key_file ≡ ok cert
  pub usable : IsUsable crypto cert

load_certificate-guards :
    (crypto : Crypto) (cm : CertificateManager) (cert : Certificate)
    → load_certificate crypto cm ≡ ok cert
    → (cm.certificate_file ≢ "")
      × (cm.private_key_file ≢ "")
      × (crypto.missing cm.certificate_file ≡ false)
      × (crypto.missing cm.private_key_file ≡ false)
      × (load_pair crypto cm ≡ ok cert)
unfolding load_certificate
load_certificate-guards crypto cm cert h =
    ground (arith, eq_iff cm.certificate_file "", eq_iff cm.private_key_file "")

load_pair-IsUsable :
    (crypto : Crypto) (cm : CertificateManager) (cert : Certificate)
    → load_pair crypto cm ≡ ok cert
    → (crypto.load_x509_key_pair cm.certificate_file cm.private_key_file ≡ ok cert)
      × IsUsable crypto cert
unfolding load_pair
load_pair-IsUsable crypto cm cert h =
    let (pair, read, h') =
      >>=-eq-ok
        (wrapping "failed to load certificate and key pair"
          (crypto.load_x509_key_pair cm.certificate_file cm.private_key_file))
        _ h in
    let (done, checked, last) =
      >>=-eq-ok (wrapping "certificate validation failed" (validate_certificate crypto pair.chain))
        _ h' in
    let same : pair ≡ cert = cc last in
    (
      wrapping-eq-ok _ _ read ∙ ap ok same,
      validate_certificate-IsUsable crypto cert pair.chain (ap (λ c. c.chain) (sym same))
          (wrapping-eq-ok _ _ checked),
    )

-- A certificate that LoadCertificate returns comes from the two configured files, which are named and
-- not missing, and has a chain that is not empty, whose leaf parses and has a validity period that does
-- not end before it begins.
pub load_certificate-IsLoaded :
    (crypto : Crypto) (cm : CertificateManager) (cert : Certificate)
    → load_certificate crypto cm ≡ ok cert
    → IsLoaded crypto cm cert
load_certificate-IsLoaded crypto cm cert h =
    let (named, key_named, present, key_present, loaded) =
      load_certificate-guards crypto cm cert h in
    let (pair, usable) = load_pair-IsUsable crypto cm cert loaded in
    record {
      named = named;
      key_named = key_named;
      present = present;
      key_present = key_present;
      pair = pair;
      usable = usable;
    }

-- The check of a chain accepts exactly the chains with a leaf that parses and whose validity period
-- does not end before it begins, whenever that period is and whatever follows the leaf.
pub validate_certificate_iff :
    (crypto : Crypto) (cert : Certificate)
    → (validate_certificate crypto cert.chain ≡ ok tt) ↔ IsUsable crypto cert
unfolding validate_certificate validate_leaf
validate_certificate_iff crypto cert = (
  validate_certificate-IsUsable crypto cert cert.chain refl,
  λ usable.
      rw (usable.chain, validate_certificate, usable.parsed, validate_leaf)
        (let period = usable.period in ground arith),
)

decoded-eq-ok :
    (text : String) (o : Option Block) {block : Block} → decoded text o ≡ ok block → o ≡ some block
unfolding decoded
decoded-eq-ok text none h = cc
decoded-eq-ok text (some b) h = cc

rsa_only-eq-ok : (k k' : PrivateKey) → rsa_only k ≡ ok k' → (key : ℕ) × (k' ≡ rsa key)
unfolding rsa_only
rsa_only-eq-ok (rsa key) k' h = (key, cc)
rsa_only-eq-ok (other_key name) k' h = cc

-- A pair that is loaded from PEM has one certificate and an RSA key.
load_certificate_from_pem-rsa :
    (crypto : Crypto) (cert_pem key_pem : Bytes) (cert : Certificate)
    → load_certificate_from_pem crypto cert_pem key_pem ≡ ok cert
    → (block : Block) × (key : ℕ) × (crypto.decode cert_pem ≡ some block)
      × (cert.chain ≡ block.bytes ∷ [])
      × (cert.private_key ≡ rsa key)
unfolding load_certificate_from_pem
load_certificate_from_pem-rsa crypto cert_pem key_pem cert h =
    let (block, found, after_cert) =
      >>=-eq-ok (decoded "failed to decode certificate PEM" (crypto.decode cert_pem)) _ h in
    let (key_block, key_found, after_key) =
      >>=-eq-ok (decoded "failed to decode private key PEM" (crypto.decode key_pem)) _ after_cert in
    let (parsed, key_parsed, after_parse) =
      >>=-eq-ok (parse_private_key crypto key_block) _ after_key in
    let (kept, is_kept, last) = >>=-eq-ok (rsa_only parsed) _ after_parse in
    let (key, is_rsa) = rsa_only-eq-ok parsed kept is_kept in
    let same : cert ≡ record { chain = block.bytes ∷ []; private_key = kept } = cc last in
    (
      block,
      key,
      decoded-eq-ok _ _ found,
      ap (λ c. c.chain) same,
      ap (λ c. c.private_key) same ∙ is_rsa,
    )
