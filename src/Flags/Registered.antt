-- ===== src/Flags/Registered.antt =====
-- The flags that parseFlags registers, and that the overrides read no others.
use opcua_exporter.Prelude.{
  ℕ, AllAt, All-at, ◌≡◌, refl, ap, ◌∙◌, String, Bool, false, List, [], ◌∷◌, All,
}
use opcua_exporter.Prelude.Int.{ℤ, pos}
use opcua_exporter.Config.{Config, seconds, minutes}
use opcua_exporter.Flags.{
  FlagValues, apply_basic_flag_overrides, apply_security_flag_overrides,
  apply_timeout_flag_overrides, apply_node_flag_overrides, apply_flags,
}

-- A flag's type, with its default.
pub data FlagType : Type 0 where
  int_flag : ℤ → FlagType
  string_flag : String → FlagType
  bool_flag : Bool → FlagType
  duration_flag : ℤ → FlagType
  string_array_flag : List String → FlagType

-- The flags that parseFlags registers, in its order.
abbrev pub parse_flags : List (String × FlagType)
parse_flags =
    ("config", string_flag "")
    ∷ ("port", int_flag (pos 9686))
    ∷ ("endpoint", string_flag "opc.tcp://localhost:4096")
    ∷ ("prom-prefix", string_flag "")
    ∷ ("debug", bool_flag false)
    ∷ ("read-timeout", duration_flag (seconds 5))
    ∷ ("max-timeouts", int_flag (pos 0))
    ∷ ("buffer-size", int_flag (pos 64))
    ∷ ("summary-interval", duration_flag (minutes 5))
    ∷ ("subscribe-to-time-node", bool_flag false)
    ∷ ("node", string_array_flag [])
    ∷ ("dial-timeout", duration_flag (seconds 10))
    ∷ ("request-timeout", duration_flag (seconds 5))
    ∷ ("session-timeout", duration_flag (minutes 20))
    ∷ ("connection-retry-timeout", duration_flag (minutes 5))
    ∷ ("security-mode", string_flag "None")
    ∷ ("security-policy", string_flag "None")
    ∷ ("auth-mode", string_flag "Anonymous")
    ∷ ("username", string_flag "")
    ∷ ("password", string_flag "")
    ∷ ("certificate-file", string_flag "")
    ∷ ("private-key-file", string_flag "")
    ∷ ("auto-trust", bool_flag false)
    ∷ []

module _ (a b : FlagValues) where
  -- Two command lines have the same answer for a flag, read with its type.
  abbrev pub AgreesAt : String → FlagType → Type 0
  AgreesAt name (int_flag d) = a.get_int name ≡ b.get_int name
  AgreesAt name (string_flag d) = a.get_string name ≡ b.get_string name
  AgreesAt name (bool_flag d) = a.get_bool name ≡ b.get_bool name
  AgreesAt name (duration_flag d) = a.get_duration name ≡ b.get_duration name
  AgreesAt name (string_array_flag d) = a.get_string_slice name ≡ b.get_string_slice name

  abbrev pub Agrees : String × FlagType → Type 0
  Agrees (name, type) = (a.is_set name ≡ b.is_set name) × AgreesAt name type

  apply_basic_flag_overrides-agree :
      {F : Type 0} (c : Config F)
      → All Agrees parse_flags
      → apply_basic_flag_overrides a c ≡ apply_basic_flag_overrides b c
  unfolding apply_basic_flag_overrides
  apply_basic_flag_overrides-agree c h =
      let at : (k : ℕ) → AllAt Agrees k parse_flags = λ k. All-at Agrees k parse_flags h in
      rw
        (
          (at 1).0,
          (at 1).1,
          (at 2).0,
          (at 2).1,
          (at 3).0,
          (at 3).1,
          (at 4).0,
          (at 4).1,
          (at 5).0,
          (at 5).1,
          (at 6).0,
          (at 6).1,
          (at 7).0,
          (at 7).1,
          (at 8).0,
          (at 8).1,
          (at 9).0,
          (at 9).1,
        )
        refl

  apply_security_flag_overrides-agree :
      {F : Type 0} (c : Config F)
      → All Agrees parse_flags
      → apply_security_flag_overrides a c ≡ apply_security_flag_overrides b c
  unfolding apply_security_flag_overrides
  apply_security_flag_overrides-agree c h =
      let at : (k : ℕ) → AllAt Agrees k parse_flags = λ k. All-at Agrees k parse_flags h in
      rw
        (
          (at 15).0,
          (at 15).1,
          (at 16).0,
          (at 16).1,
          (at 17).0,
          (at 17).1,
          (at 18).0,
          (at 18).1,
          (at 19).0,
          (at 19).1,
          (at 20).0,
          (at 20).1,
          (at 21).0,
          (at 21).1,
          (at 22).0,
          (at 22).1,
        )
        refl

  apply_timeout_flag_overrides-agree :
      {F : Type 0} (c : Config F)
      → All Agrees parse_flags
      → apply_timeout_flag_overrides a c ≡ apply_timeout_flag_overrides b c
  unfolding apply_timeout_flag_overrides
  apply_timeout_flag_overrides-agree c h =
      let at : (k : ℕ) → AllAt Agrees k parse_flags = λ k. All-at Agrees k parse_flags h in
      rw ((at 11).0, (at 11).1, (at 12).0, (at 12).1, (at 13).0, (at 13).1, (at 14).0, (at 14).1)
        refl

  apply_node_flag_overrides-agree :
      {F : Type 0} (c : Config F)
      → All Agrees parse_flags
      → apply_node_flag_overrides a c ≡ apply_node_flag_overrides b c
  unfolding apply_node_flag_overrides
  apply_node_flag_overrides-agree c h =
      let at : (k : ℕ) → AllAt Agrees k parse_flags = λ k. All-at Agrees k parse_flags h in
      rw (at 10).1 refl

  -- What the overrides make of a configuration is settled by the flags that parseFlags registers, each
  -- read with the type it is registered with.
  pub apply_flags-agree :
      {F : Type 0} (c : Config F) → All Agrees parse_flags → apply_flags a c ≡ apply_flags b c
  unfolding apply_flags
  apply_flags-agree c h =
      ap
        (λ x.
          apply_node_flag_overrides a
            (apply_timeout_flag_overrides a (apply_security_flag_overrides a x)))
        (apply_basic_flag_overrides-agree c h)
      ∙ ap (λ x. apply_node_flag_overrides a (apply_timeout_flag_overrides a x))
          (apply_security_flag_overrides-agree _ h)
      ∙ ap (apply_node_flag_overrides a) (apply_timeout_flag_overrides-agree _ h)
      ∙ apply_node_flag_overrides-agree _ h
