-- ===== src/Security/Certificates/Warnings.antt =====
-- The warnings of validateCertificate in internal/security/certificates.go, and isValidForClientAuth.
use opcua_exporter.Prelude.{
  ℕ, ◌/◌, ◌%◌, ◌≡◌, ◌↔◌, ◌⊎◌, inl, inr, ◌≤◌, refl, String, Bool, true, false, not, ◌&&◌, List, [],
  ◌∷◌, ◌++◌, ltb, eqb, arith, if◌then◌else◌,
}
use opcua_exporter.Security.Certificates.{LeafCertificate}

-- x509.ExtKeyUsageClientAuth
abbrev ext_key_usage_client_auth : ℕ
ext_key_usage_client_auth = 2

-- The loop over the extended key usages.
abbrev has_client_auth : List ℕ → Bool
has_client_auth [] = false
has_client_auth (usage ∷ usages) =
    let rest = has_client_auth usages in if eqb usage ext_key_usage_client_auth then true else rest

abbrev is_empty : List ℕ → Bool
is_empty [] = true
is_empty (usage ∷ usages) = false

-- isValidForClientAuth
is_valid_for_client_auth : LeafCertificate → Bool
is_valid_for_client_auth leaf =
    if has_client_auth leaf.ext_key_usage then true else is_empty leaf.ext_key_usage

-- `KeyUsage & (KeyUsageDigitalSignature | KeyUsageKeyEncipherment) == 0`, the bits 0 and 2.
lacks_usage : ℕ → Bool
lacks_usage usage = eqb (usage % 2) 0 && eqb (usage / 4 % 2) 0

-- What the check of a parsed leaf logs; nothing follows the error for its validity period.
leaf_warnings : LeafCertificate → List String
unfolding is_valid_for_client_auth lacks_usage
leaf_warnings leaf =
    (if is_valid_for_client_auth leaf
      then []
      else "Warning: certificate may not be valid for client authentication" ∷ [])
    ++ (if ltb leaf.not_after leaf.not_before
        then []
        else if not (eqb leaf.key_usage 0) && lacks_usage leaf.key_usage
        then "Warning: certificate key usage may not be suitable for OPC UA client authentication"
          ∷ []
        else [])

-- A usage is among the extended ones.
abbrev pub Lists : ℕ → List ℕ → Type 0
Lists usage [] = ⊥
Lists usage (u ∷ us) = (u ≡ usage) ⊎ Lists usage us

has_client_auth_iff :
    (us : List ℕ) → (has_client_auth us ≡ true) ↔ Lists ext_key_usage_client_auth us
has_client_auth_iff [] = ground arith
has_client_auth_iff (u ∷ us) = ground (arith, has_client_auth_iff us)

usages_iff :
    (us : List ℕ)
    → ((if has_client_auth us then true else is_empty us) ≡ true)
      ↔ ((us ≡ []) ⊎ Lists ext_key_usage_client_auth us)
usages_iff [] = (λ h. inl refl, λ h. refl)
usages_iff (u ∷ us) =
    let (to, from) = has_client_auth_iff (u ∷ us) in
    (
      λ h. inr (to (ground arith)),
      λ h. elim h [ inl empty ↦ cc empty | inr listed ↦ rw (from listed) refl ],
    )

-- A certificate is taken as valid for client authentication exactly if it lists no extended key usage
-- or lists that one.
is_valid_for_client_auth_iff :
    (leaf : LeafCertificate)
    → (is_valid_for_client_auth leaf ≡ true)
      ↔ ((leaf.ext_key_usage ≡ []) ⊎ Lists ext_key_usage_client_auth leaf.ext_key_usage)
unfolding is_valid_for_client_auth
is_valid_for_client_auth_iff leaf = usages_iff leaf.ext_key_usage

-- No warning is logged for a certificate with a validity period that does not end before it begins
-- exactly if it is valid for client authentication, and its key usage, if it has one, allows digital
-- signatures or the encipherment of keys.
leaf_warnings-silent_iff :
    (leaf : LeafCertificate)
    → leaf.not_before ≤ leaf.not_after
    → (leaf_warnings leaf ≡ []) ↔ (
        (is_valid_for_client_auth leaf ≡ true)
        × ((leaf.key_usage ≡ 0) ⊎ ((leaf.key_usage % 2 ≡ 1) ⊎ (leaf.key_usage / 4 % 2 ≡ 1))))
unfolding leaf_warnings lacks_usage
leaf_warnings-silent_iff leaf h = ground arith
