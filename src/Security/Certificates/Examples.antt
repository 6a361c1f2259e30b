-- ===== src/Security/Certificates/Examples.antt =====
-- Loading a concrete pair.
use opcua_exporter.Prelude.{◌↔◌, ◌≡◌, refl, [], ◌∷◌, arith}
use opcua_exporter.Errors.{ok}
use opcua_exporter.Fixtures.{crypto, pair, leaf}
use opcua_exporter.Security.Certificates.{
  CertificateManager, load_certificate, validate_certificate, load_certificate_from_pem, load_pair,
  validate_leaf, decoded, parse_private_key, rsa_only,
}
use opcua_exporter.Security.Certificates.Loaded.{
  IsLoaded, load_certificate-IsLoaded, validate_certificate_iff, IsUsable,
}

abbrev manager : CertificateManager
manager = record { certificate_file = "client.crt"; private_key_file = "client.key" }

loaded : load_certificate crypto manager ≡ ok pair
unfolding load_certificate load_pair validate_certificate validate_leaf
loaded = refl

load_certificate-IsLoaded_example : IsLoaded crypto manager pair
load_certificate-IsLoaded_example = load_certificate-IsLoaded crypto manager pair loaded

validate_certificate_iff_example :
    (validate_certificate crypto pair.chain ≡ ok tt) ↔ IsUsable crypto pair
validate_certificate_iff_example = validate_certificate_iff crypto pair

-- The check has no argument for the time: this leaf's period ended at 200.
expired : validate_certificate crypto pair.chain ≡ ok tt
expired = (validate_certificate_iff crypto pair).1 (record {
  leaf_bytes = 1 ∷ 2 ∷ [];
  rest = [];
  leaf = leaf;
  chain = refl;
  parsed = refl;
  period = omega arith;
})

loaded_from_pem : load_certificate_from_pem crypto (5 ∷ []) (6 ∷ []) ≡ ok pair
unfolding load_certificate_from_pem decoded parse_private_key rsa_only
loaded_from_pem = refl
