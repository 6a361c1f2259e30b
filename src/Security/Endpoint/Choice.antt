-- ===== src/Security/Endpoint/Choice.antt =====
-- Which endpoint is chosen.
use mathlib.Core.List.{append-nil, append_assoc}
use opcua_exporter.Prelude.{
  ◌≡◌, refl, sym, ◌∙◌, ◌↔◌, ◌⊎◌, inl, inr, String, Bool, true, false, ◌&&◌, List, [], ◌∷◌, ◌++◌,
  Option, none, some, ◌==◌, eq_iff, arith, if◌then◌else◌, find?, Bool-cases,
}
use opcua_exporter.Errors.{Result, ok, err}
use opcua_exporter.Security.Endpoint.{
  MessageSecurityMode, mode_none, EndpointDescription, mode_eq, EndpointSelector,
  parse_security_mode, get_security_policy_uri, is_auth_mode_supported, Matches, is_exact, classify,
  classify_all, first_unsecured, fallback, no_compatible_endpoint, pick, select_endpoint,
}

abbrev found_or : EndpointSelector → Option EndpointDescription → Result EndpointDescription
found_or s none = err (no_compatible_endpoint s)
found_or s (some ep) = ok ep

found_or_iff :
    (ses : EndpointSelector) (o : Option EndpointDescription) (ep : EndpointDescription)
    → (found_or ses o ≡ ok ep) ↔ (o ≡ some ep)
found_or_iff ses o ep = ground arith

-- The specification: the first endpoint with the wanted mode, policy and authentication; if there is
-- none, and neither authentication nor security is wanted, the first unsecured one that offers
-- anonymous authentication.
module _ (ses : EndpointSelector) (mode : MessageSecurityMode) (target : String) where
  abbrev is_spare : EndpointDescription → Bool
  is_spare ep = is_auth_mode_supported ses ep && mode_eq ep.security_mode mode_none

  pub choice : List EndpointDescription → Option EndpointDescription
  choice eps = elim (find? (is_exact ses mode target) eps) [
    | some ep ↦ some ep
    | none ↦
        if ses.auth_mode == "Anonymous" && ses.security_mode == "None"
        then find? is_spare eps
        else none
  ]

  -- The lists that the loop builds, as recursions.
  exacts : List EndpointDescription → List EndpointDescription
  exacts [] = []
  exacts (ep ∷ eps) =
      let rest = exacts eps in if is_exact ses mode target ep then ep ∷ rest else rest

  others : List EndpointDescription → List EndpointDescription
  others [] = []
  others (ep ∷ eps) =
      let rest = others eps in
      if is_exact ses mode target ep
      then rest
      else if is_auth_mode_supported ses ep
      then ep ∷ rest
      else rest

  module _ (found : Matches) (ep : EndpointDescription) where
    classify_exact :
        is_exact ses mode target ep ≡ true
        → classify ses mode target found ep ≡ record found { exact = found.exact ++ ep ∷ [] }
    unfolding classify
    classify_exact h = rw h

    classify_spare :
        is_exact ses mode target ep ≡ false
        → is_auth_mode_supported ses ep ≡ true
        → classify ses mode target found ep
          ≡ record found { compatible = found.compatible ++ ep ∷ [] }
    unfolding classify
    classify_spare h k = rw (h, k)

    classify_unusable :
        is_exact ses mode target ep ≡ false
        → is_auth_mode_supported ses ep ≡ false
        → classify ses mode target found ep ≡ found
    unfolding classify
    classify_unusable h k = rw (h, k)

  classify-lists :
      (found : Matches) (ep : EndpointDescription) (eps : List EndpointDescription)
      → ((classify ses mode target found ep).exact ++ exacts eps ≡ found.exact ++ exacts (ep ∷ eps))
        × ((classify ses mode target found ep).compatible ++ others eps
            ≡ found.compatible ++ others (ep ∷ eps))
  unfolding exacts others
  classify-lists found ep eps = elim (Bool-cases (is_exact ses mode target ep)) [
    | inl fits ↦
        rw (fits, classify_exact found ep fits)
          (append_assoc found.exact (ep ∷ []) (exacts eps), refl)
    | inr differs ↦ elim (Bool-cases (is_auth_mode_supported ses ep)) [
      | inl spare ↦
          rw (differs, spare, classify_spare found ep differs spare)
            (refl, append_assoc found.compatible (ep ∷ []) (others eps))
      | inr unusable ↦
          rw (differs, unusable, classify_unusable found ep differs unusable) (refl, refl)
    ]
  ]

  classify_all-lists :
      (found : Matches) (eps : List EndpointDescription)
      → ((classify_all ses mode target found eps).exact ≡ found.exact ++ exacts eps)
        × ((classify_all ses mode target found eps).compatible ≡ found.compatible ++ others eps)
  unfolding classify_all exacts others
  classify_all-lists found [] = (sym (append-nil _), sym (append-nil _))
  classify_all-lists found (ep ∷ eps) =
      let ih = classify_all-lists (classify ses mode target found ep) eps in
      let here = classify-lists found ep eps in (ih.0 ∙ here.0, ih.1 ∙ here.1)

  first : List EndpointDescription → Option EndpointDescription
  first [] = none
  first (ep ∷ eps) = some ep

  find-exacts :
      (eps : List EndpointDescription) → find? (is_exact ses mode target) eps ≡ first (exacts eps)
  unfolding exacts first
  find-exacts [] = refl
  find-exacts (ep ∷ eps) = ground (arith, find-exacts eps)

  first_unsecured-others :
      (eps : List EndpointDescription)
      → exacts eps ≡ []
      → first_unsecured (others eps) ≡ find? is_spare eps
  unfolding exacts others first_unsecured
  first_unsecured-others [] h = refl
  first_unsecured-others (ep ∷ eps) h = ground (arith, first_unsecured-others eps)

  fallback-eq : (o : Option EndpointDescription) → fallback ses o ≡ found_or ses o
  unfolding fallback
  fallback-eq none = refl
  fallback-eq (some ep) = refl

  pick-choice :
      (exact compatible eps : List EndpointDescription)
      → exact ≡ exacts eps
      → compatible ≡ others eps
      → pick ses (record { exact = exact; compatible = compatible }) ≡ found_or ses (choice eps)
  unfolding pick choice first
  pick-choice [] compatible eps h k =
      rw (find-exacts, ← h, k, first_unsecured-others eps (sym h), choice)
        (ground (arith, fallback-eq (find? is_spare eps)))
  pick-choice (ep ∷ exact) compatible eps h k = rw (choice, find-exacts, ← h)

  pick-classify_all :
      (eps : List EndpointDescription)
      → pick ses (classify_all ses mode target (record { exact = []; compatible = [] }) eps)
        ≡ found_or ses (choice eps)
  pick-classify_all eps =
      let lists = classify_all-lists (record { exact = []; compatible = [] }) eps in
      pick-choice _ _ eps lists.0 lists.1

  choice-nil : choice [] ≡ none
  unfolding choice
  choice-nil = ground arith

-- `SelectEndpoint` returns the specified choice among the endpoints: the first that has the wanted
-- mode, policy and authentication; failing that, if the settings are Anonymous and None, the first
-- without security that offers anonymous authentication; and otherwise an error.
pub select_endpoint-choice :
    (ses : EndpointSelector) (mode : MessageSecurityMode) (eps : List EndpointDescription)
    (ep : EndpointDescription)
    → parse_security_mode ses ≡ ok mode
    → (select_endpoint ses eps ≡ ok ep)
      ↔ (choice ses mode (get_security_policy_uri ses) eps ≡ some ep)
unfolding select_endpoint
select_endpoint-choice ses mode [] ep h =
    let nothing = choice-nil ses mode (get_security_policy_uri ses) in (λ e. cc, λ e. cc)
select_endpoint-choice ses mode (e ∷ eps) ep h = rw (h, pick-classify_all) (found_or_iff ses _ ep)

pub choice-exact :
    (ses : EndpointSelector) (mode : MessageSecurityMode) (target : String)
    (ep : EndpointDescription) (eps : List EndpointDescription)
    → is_exact ses mode target ep ≡ true
    → choice ses mode target (ep ∷ eps) ≡ some ep
unfolding choice
choice-exact ses mode target ep eps h = ground arith

pub choice-some :
    (ses : EndpointSelector) (mode : MessageSecurityMode) (target : String)
    (eps : List EndpointDescription) (ep : EndpointDescription)
    → choice ses mode target eps ≡ some ep
    → (find? (is_exact ses mode target) eps ≡ some ep)
      ⊎ ((ses.auth_mode ≡ "Anonymous")
          × (ses.security_mode ≡ "None")
          × (find? (λ e. is_auth_mode_supported ses e && mode_eq e.security_mode mode_none) eps
              ≡ some ep))
unfolding choice
choice-some ses mode target eps ep h =
    ground (arith, eq_iff ses.auth_mode "Anonymous", eq_iff ses.security_mode "None")
