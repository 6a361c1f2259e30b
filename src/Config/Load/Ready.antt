-- ===== src/Config/Load/Ready.antt =====
-- What Load guarantees of the configuration that it returns.
use opcua_exporter.Prelude.{
  ℕ, ◌+◌, ◌≡◌, refl, ap, ◌≢◌, ◌∙◌, String, true, List, [], ◌∷◌, some, eq_iff, arith, if◌then◌else◌,
  All,
}
use opcua_exporter.Prelude.Int.{ℤ, pos, negsuc, eqb_ℤ}
use opcua_exporter.Errors.{Result, ok, wrapping}
use opcua_exporter.Errors.Bind.{>>=-eq-ok, wrapping-eq-ok}
use opcua_exporter.Values.{Floats}
use opcua_exporter.Config.{
  NodeMapping, Config, filter_valid_node_mappings, apply_security_defaults,
  apply_zero_value_defaults, or_default,
}
use opcua_exporter.Config.Env.{Environ, parse_env_node_mappings}
use opcua_exporter.Config.Env.Total.{parse_env_node_mappings-Reads}
use opcua_exporter.Config.Mapping.{IsValid, validate_iff}
use opcua_exporter.Config.Load.{
  Viper, Source, loaded, file_calls, read_source, complete, checked, validate_from, load_with, load,
}

validate_from-IsValid :
    {F : Type 0} (fl : Floats F) (i : ℕ) (ms : List (NodeMapping F))
    → validate_from fl i ms ≡ ok tt
    → All (IsValid fl) ms
unfolding validate_from
validate_from-IsValid fl i [] h = tt
validate_from-IsValid fl i (m ∷ ms) h =
    let (done, here, later) = >>=-eq-ok _ _ h in
    ((validate_iff fl m).0 (wrapping-eq-ok _ _ here), validate_from-IsValid fl (i + 1) ms later)

-- A list of valid mappings has no empty ones to filter out.
filter-IsValid :
    {F : Type 0} (fl : Floats F) (ms : List (NodeMapping F))
    → All (IsValid fl) ms
    → filter_valid_node_mappings ms ≡ ms
unfolding filter_valid_node_mappings
filter-IsValid fl [] h = refl
filter-IsValid fl (m ∷ ms) (v, h) = ground (
  arith,
  v.named,
  v.metric,
  eq_iff m.node_name "",
  eq_iff m.metric_name "",
  filter-IsValid fl ms h,
)

-- What Load returns: the completed configuration, whose mappings are valid.
record IsReturned {F : Type 0} (fl : Floats F) (v : Viper F) (file : String)
    (ms : List (NodeMapping F)) (c : Config F) : Type 0 where
  source : Source
  raw : Config F
  read : read_source v file ≡ ok source
  completed : c ≡ complete source ms raw
  valid : All (IsValid fl) c.node_mappings

checked-eq-ok :
    {F : Type 0} (fl : Floats F) (whole c : Config F)
    → checked fl whole ≡ ok c
    → (c ≡ whole) × All (IsValid fl) whole.node_mappings
unfolding checked
checked-eq-ok fl whole c h =
    let (done, passed, last) = >>=-eq-ok (validate_from fl 0 whole.node_mappings) _ h in
    let valid = validate_from-IsValid fl 0 whole.node_mappings passed in
    (ground (arith, filter-IsValid fl whole.node_mappings valid), valid)

load_with-IsReturned :
    {F : Type 0} (fl : Floats F) (v : Viper F) (file : String) (ms : List (NodeMapping F))
    (c : Config F)
    → load_with fl v file ms ≡ ok c
    → IsReturned fl v file ms c
unfolding load_with
load_with-IsReturned fl v file ms c h =
    let (source, read, h') = >>=-eq-ok (read_source v file) _ h in
    let (raw, unmarshalled, h'') =
      >>=-eq-ok (wrapping "error unmarshaling configuration" (v.unmarshal source.calls)) _ h' in
    let (same, valid) = checked-eq-ok fl (complete source ms raw) c h'' in
    record { source = source; raw = raw; read = read; completed = same; valid = rw same valid }

-- The mappings are valid and no security setting is empty.
pub record IsReady {F : Type 0} (fl : Floats F) (c : Config F) : Type 0 where
  pub mappings : All (IsValid fl) c.node_mappings
  pub mode : c.security.security_mode ≢ ""
  pub policy : c.security.security_policy ≢ ""
  pub auth : c.security.auth_mode ≢ ""

or_default-ne : (s d : String) → d ≢ "" → or_default s d ≢ ""
or_default-ne s d h = ground (arith, eq_iff s "")

complete-security :
    {F : Type 0} (source : Source) (ms : List (NodeMapping F)) (raw : Config F)
    → (complete source ms raw).security ≡ (apply_security_defaults raw).security
unfolding complete apply_zero_value_defaults
complete-security source [] raw = ground arith
complete-security source (m ∷ ms) raw = ground arith

complete-settings :
    {F : Type 0} (source : Source) (ms : List (NodeMapping F)) (raw : Config F)
    → ((complete source ms raw).security.security_mode ≢ "")
      × ((complete source ms raw).security.security_policy ≢ "")
      × ((complete source ms raw).security.auth_mode ≢ "")
unfolding apply_security_defaults
complete-settings source ms raw = rw complete-security (
  or_default-ne raw.security.security_mode "None" (ground (arith, eq_iff "None" "")),
  or_default-ne raw.security.security_policy "None" (ground (arith, eq_iff "None" "")),
  or_default-ne raw.security.auth_mode "Anonymous" (ground (arith, eq_iff "Anonymous" "")),
)

load-eq-load_with :
    {F : Type 0} (fl : Floats F) (v : Viper F) (env : Environ) (file : String)
    (ms : List (NodeMapping F)) {r : Result (Config F)}
    → parse_env_node_mappings env ≡ some ms
    → load fl v env file ≡ some r
    → load_with fl v file ms ≡ r
unfolding load
load-eq-load_with fl v env file ms p h = let h' = rw (p, load) at h in cc

-- A configuration that Load returns has only valid mappings, and a security mode, a security policy
-- and an authentication mode that are not empty.
pub load-IsReady :
    {F : Type 0} (fl : Floats F) (v : Viper F) (env : Environ) (file : String) (c : Config F)
    → load fl v env file ≡ some (ok c)
    → IsReady fl c
load-IsReady fl v env file c h =
    let (ms, parsed, reads) = parse_env_node_mappings-Reads env in
    let r = load_with-IsReturned fl v file ms c (load-eq-load_with fl v env file ms parsed h) in
    let kept = complete-settings r.source ms r.raw in
    record {
      mappings = r.valid;
      mode = rw (r.completed) kept.0;
      policy = rw (r.completed) kept.1;
      auth = rw (r.completed) kept.2;
    }

complete-mappings :
    {F : Type 0} (source : Source) (m : NodeMapping F) (ms : List (NodeMapping F)) (raw : Config F)
    → (complete source (m ∷ ms) raw).node_mappings ≡ m ∷ ms
unfolding complete
complete-mappings source m ms raw = refl

-- If the environment defines any mapping, the mappings that Load returns are exactly the
-- environment's, in its order, whatever the config file says.
pub load-environment_mappings :
    {F : Type 0} (fl : Floats F) (v : Viper F) (env : Environ) (file : String) (m : NodeMapping F)
    (ms : List (NodeMapping F)) (c : Config F)
    → parse_env_node_mappings env ≡ some (m ∷ ms)
    → load fl v env file ≡ some (ok c)
    → c.node_mappings ≡ m ∷ ms
load-environment_mappings fl v env file m ms c parsed h =
    let r =
      load_with-IsReturned fl v file (m ∷ ms) c
        (load-eq-load_with fl v env file (m ∷ ms) parsed h) in
    ap (λ x. x.node_mappings) r.completed ∙ complete-mappings r.source m ms r.raw

or_number-ne : (n : ℤ) (d : ℕ) → d ≢ 0 → (if eqb_ℤ n (pos 0) then pos d else n) ≢ pos 0
or_number-ne (pos n) d h = ground arith
or_number-ne (negsuc n) d h = cc

complete-port :
    {F : Type 0} (source : Source) (ms : List (NodeMapping F)) (raw : Config F)
    → source.file_loaded ≡ true
    → ((complete source ms raw).port ≢ pos 0) × ((complete source ms raw).buffer_size ≢ pos 0)
unfolding complete apply_zero_value_defaults apply_security_defaults
complete-port source [] raw h =
    rw h (or_number-ne raw.port 9686 (omega arith), or_number-ne raw.buffer_size 64 (omega arith))
complete-port source (m ∷ ms) raw h =
    rw h (or_number-ne raw.port 9686 (omega arith), or_number-ne raw.buffer_size 64 (omega arith))

read_source-loaded :
    {F : Type 0} (v : Viper F) (file : String) (source : Source)
    → file ≢ ""
    → v.read_answer (file_calls file) ≡ loaded
    → read_source v file ≡ ok source
    → source.file_loaded ≡ true
unfolding read_source
read_source-loaded v file source named answer h = ground (arith, eq_iff file "")

-- With a config file that was read, Load returns no zero port and no zero buffer size.
load-nonzero :
    {F : Type 0} (fl : Floats F) (v : Viper F) (env : Environ) (file : String) (c : Config F)
    → file ≢ ""
    → v.read_answer (file_calls file) ≡ loaded
    → load fl v env file ≡ some (ok c)
    → (c.port ≢ pos 0) × (c.buffer_size ≢ pos 0)
load-nonzero fl v env file c named answer h =
    let (ms, parsed, reads) = parse_env_node_mappings-Reads env in
    let r = load_with-IsReturned fl v file ms c (load-eq-load_with fl v env file ms parsed h) in
    rw r.completed
      (complete-port r.source ms r.raw (read_source-loaded v file r.source named answer r.read))
