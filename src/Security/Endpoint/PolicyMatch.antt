-- ===== src/Security/Endpoint/PolicyMatch.antt =====
-- What the search of a policy's name in a URI also finds.
use Prim.Native.String.{String, [], ◌∷◌}
use text.Mathlib.TextLemmas.{cons-append}
use opcua_exporter.Prelude.{◌≡◌, refl, true, List, arith}
use opcua_exporter.Prelude.Text.{◌<>◌, has_prefix, contains}
use opcua_exporter.Errors.{ok}
use opcua_exporter.Security.Endpoint.{
  MessageSecurityMode, mode_eq, EndpointDescription, EndpointSelector, policy_match, is_exact,
  parse_security_mode, get_security_policy_uri, is_auth_mode_supported, select_endpoint,
}
use opcua_exporter.Security.Endpoint.Choice.{choice-exact, select_endpoint-choice}

has_prefix-append : (s p q : String) → has_prefix s (p <> q) ≡ true → has_prefix s p ≡ true
unfolding has_prefix
has_prefix-append s [] q h = refl
has_prefix-append [] (d ∷ p) q h = let h' = rw cons-append at h in cc
has_prefix-append (c ∷ s) (d ∷ p) q h =
    let h' = rw cons-append at h in ground (arith, has_prefix-append s p q)

contains-append : (s p q : String) → contains s (p <> q) ≡ true → contains s p ≡ true
unfolding contains
contains-append [] p q h = has_prefix-append [] p q h
contains-append (c ∷ s) p q h = ground (arith, has_prefix-append (c ∷ s) p q, contains-append s p q)

policy_match-Basic256 :
    (ep : EndpointDescription)
    → policy_match "Basic256Sha256" ep ≡ true
    → policy_match "Basic256" ep ≡ true
unfolding policy_match
policy_match-Basic256 ep h = contains-append ep.security_policy_uri "Basic256" "Sha256" h

mode_eq_refl : (m : MessageSecurityMode) → mode_eq m m ≡ true
mode_eq_refl m = ground arith

get_security_policy_uri-Basic256 :
    (ses : EndpointSelector)
    → ses.security_policy ≡ "Basic256"
    → get_security_policy_uri ses ≡ "Basic256"
unfolding get_security_policy_uri
get_security_policy_uri-Basic256 ses h = rw h

exact_of_parts :
    (ses : EndpointSelector) (ep : EndpointDescription) (target : String)
    → policy_match target ep ≡ true
    → is_auth_mode_supported ses ep ≡ true
    → is_exact ses ep.security_mode target ep ≡ true
unfolding is_exact
exact_of_parts ses ep target policy auth = rw (mode_eq_refl ep.security_mode, policy, auth)

-- With Basic256 configured, an endpoint whose policy URI passes the check for Basic256Sha256 is taken
-- as an exact match: listed first, with the configured mode and authentication, it is selected.
pub select_endpoint-Basic256 :
    (ses : EndpointSelector) (ep : EndpointDescription) (eps : List EndpointDescription)
    → ses.security_policy ≡ "Basic256"
    → parse_security_mode ses ≡ ok ep.security_mode
    → is_auth_mode_supported ses ep ≡ true
    → policy_match "Basic256Sha256" ep ≡ true
    → select_endpoint ses (List.◌∷◌ ep eps) ≡ ok ep
select_endpoint-Basic256 ses ep eps policy mode auth uri =
    (select_endpoint-choice ses ep.security_mode (List.◌∷◌ ep eps) ep mode).1 (
      choice-exact ses ep.security_mode (get_security_policy_uri ses) ep eps (
        rw (get_security_policy_uri-Basic256 ses policy)
          (exact_of_parts ses ep "Basic256" (policy_match-Basic256 ep uri) auth)))
