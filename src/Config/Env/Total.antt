-- ===== src/Config/Env/Total.antt =====
-- The loop over the environment ends, and what it reads.
use text.Mathlib.TextLemmas.{append_cancel_left, append_cancel_right}
use mathlib.Core.List.{append-nil, append_assoc}
use opcua_exporter.Prelude.{
  ℕ, zero, suc, ◌+◌, ◌≤◌, ◌<◌, ◌≡◌, refl, sym, subst, ◌∙◌, ap, ◌≢◌, String, List, [], ◌∷◌, ◌++◌,
  none, some, ◌==◌, eq_iff, length, arith, if◌then◌else◌, Option-cases, Bool-cases, ◌⊎◌, inl, inr,
  false,
}
use opcua_exporter.Prelude.Int.{ℤ}
use opcua_exporter.Prelude.Text.{itoa, atoi}
use opcua_exporter.Values.{Value, nil, integer, int}
use opcua_exporter.Prelude.Text.Decimal.{itoa_injective}
use opcua_exporter.Config.{NodeMapping}
use opcua_exporter.Config.Env.{
  Environ, lookup_env, getenv, node_env, env_bit, env_mapping, env_mappings_from,
  parse_env_node_mappings,
}

-- Different rounds read different variables.
node_env_injective : (i j : ℕ) (field : String) → node_env i field ≡ node_env j field → i ≡ j
node_env_injective i j field e =
    itoa_injective i j (
      append_cancel_right (itoa i) (itoa j) field
        (append_cancel_left "OPCUA_EXPORTER_NODES_" _ _ e))

-- The environment less a variable.
unset : String → Environ → Environ
unset key [] = []
unset key ((k, v) ∷ env) = let rest = unset key env in if k == key then rest else (k, v) ∷ rest

lookup_env-unset :
    (key other : String) (env : Environ)
    → key ≢ other
    → lookup_env other (unset key env) ≡ lookup_env other env
unfolding lookup_env unset
lookup_env-unset key other [] h = refl
lookup_env-unset key other ((k, v) ∷ env) h =
    ground (arith, eq_iff k key, eq_iff k other, lookup_env-unset key other env h)

length-unset-le : (key : String) (env : Environ) → length (unset key env) ≤ length env
unfolding unset
length-unset-le key [] = omega arith
length-unset-le key ((k, v) ∷ env) = ground (arith, length-unset-le key env)

length-unset-lt :
    (key : String) (env : Environ) → lookup_env key env ≢ none → length (unset key env) < length env
unfolding lookup_env unset
length-unset-lt key [] h = absurd (h refl)
length-unset-lt key ((k, v) ∷ env) h =
    ground (arith, length-unset-le key env, length-unset-lt key env)

abbrev name_of : ℕ → String
name_of i = node_env i "_NODENAME"

-- A round that finds a mapping has read a variable that is set.
env_mapping-set :
    {F : Type 0} (env : Environ) (i : ℕ) (m : NodeMapping F)
    → env_mapping env i ≡ some m
    → lookup_env (name_of i) env ≢ none
unfolding env_mapping
env_mapping-set env i m h unset_name = let h' = rw unset_name at h in cc

-- A variable of a round, by the environment alone: it is set to a text that is not empty, or it is not.
abbrev pub Set : Environ → String → String → Type 0
Set env key text = (lookup_env key env ≡ some text) × (text ≢ "")

abbrev pub Unset : Environ → String → Type 0
Unset env key = (lookup_env key env ≡ none) ⊎ (lookup_env key env ≡ some "")

-- The bit of a round: the number that its variable's text stands for, or none, if the variable has no
-- text or one that is no number.
abbrev pub ReadsBit : {F : Type 0} → Environ → String → Value F → Type 0
ReadsBit env key nil = Unset env key ⊎ ((text : String) × Set env key text × (atoi text ≡ none))
ReadsBit env key (integer int bit) = (text : String) × Set env key text × (atoi text ≡ some bit)
ReadsBit env key _ = ⊥

-- What the rounds from `i` on read: mappings, each with its own variables, up to the first round whose
-- node name or metric name is not set to a text.
abbrev pub Reads : {F : Type 0} → Environ → ℕ → List (NodeMapping F) → Type 0
Reads env i [] = Unset env (node_env i "_NODENAME") ⊎ Unset env (node_env i "_METRICNAME")
Reads env i (m ∷ ms) =
    (Set env (node_env i "_NODENAME") m.node_name
      × Set env (node_env i "_METRICNAME") m.metric_name
      × ReadsBit env (node_env i "_EXTRACTBIT") m.extract_bit)
    × Reads env (i + 1) ms

getenv-cases :
    (env : Environ) (key : String)
    → ((getenv env key ≡ "") × Unset env key)
      ⊎ (((getenv env key == "") ≡ false) × Set env key (getenv env key))
unfolding getenv
getenv-cases env key = elim (Option-cases (lookup_env key env)) [
  | inl gap ↦ inl (rw gap refl, inl gap)
  | inr (text, found) ↦ elim (Bool-cases (text == "")) [
    | inl empty ↦ let e = (eq_iff text "").0 empty in inl (rw found e, inr (found ∙ ap some e))
    | inr full ↦ inr (
      rw found full,
      (rw found refl, rw found λ e. (let yes = (eq_iff text "").1 e in cc (sym full ∙ yes))),
    )
  ]
]

module _ (F : Type 0) where
  env_bit-nil :
      (text : String) → (text == "") ≡ false → atoi text ≡ none → env_bit {F = F} text ≡ nil
  unfolding env_bit
  env_bit-nil text full bad = rw (full, bad) refl

  env_bit-integer :
      (text : String) (n : ℤ)
      → (text == "") ≡ false
      → atoi text ≡ some n
      → env_bit {F = F} text ≡ integer int n
  unfolding env_bit
  env_bit-integer text n full good = rw (full, good) refl

  env_bit-empty : (text : String) → text ≡ "" → env_bit {F = F} text ≡ nil
  unfolding env_bit
  env_bit-empty text e = rw ((eq_iff text "").1 e) refl

  env_bit-ReadsBit :
      (env : Environ) (key : String) → ReadsBit {F = F} env key (env_bit (getenv env key))
  env_bit-ReadsBit env key = elim (getenv-cases env key) [
    | inl (e, gap) ↦ subst (ReadsBit env key) (sym (env_bit-empty _ e)) (inl gap)
    | inr (full, is_set) ↦ elim (Option-cases (atoi (getenv env key))) [
      | inl bad ↦
          subst (ReadsBit env key) (sym (env_bit-nil _ full bad))
            (inr (getenv env key, is_set, bad))
      | inr (n, good) ↦
          subst (ReadsBit env key) (sym (env_bit-integer _ n full good))
            (getenv env key, is_set, good)
    ]
  ]

env_mapping-Reads :
    {F : Type 0} (env : Environ) (i : ℕ)
    → ((env_mapping {F = F} env i ≡ none) × Reads {F = F} env i [])
      ⊎ ((m : NodeMapping F) × (env_mapping env i ≡ some m)
          × (Set env (node_env i "_NODENAME") m.node_name
              × Set env (node_env i "_METRICNAME") m.metric_name
              × ReadsBit env (node_env i "_EXTRACTBIT") m.extract_bit))
unfolding env_mapping
env_mapping-Reads env i = elim (getenv-cases env (node_env i "_NODENAME")) [
  | inl (e, gap) ↦ inl (rw ((eq_iff _ "").1 e) refl, inl gap)
  | inr (named, node) ↦ elim (getenv-cases env (node_env i "_METRICNAME")) [
    | inl (e, gap) ↦ inl (rw (named, (eq_iff _ "").1 e) refl, inr gap)
    | inr (measured, metric) ↦ inr (
      _,
      rw (named, measured) refl,
      (node, metric, env_bit-ReadsBit _ env (node_env i "_EXTRACTBIT")),
    )
  ]
]

-- `left` holds the variables that no round has read yet.
env_mappings_from-Reads :
    {F : Type 0} (env left : Environ) (fuel i : ℕ) (found : List (NodeMapping F))
    → ((j : ℕ) → i ≤ j → lookup_env (name_of j) left ≡ lookup_env (name_of j) env)
    → length left < fuel
    → (ms : List (NodeMapping F)) × (env_mappings_from env fuel i found ≡ some (found ++ ms))
      × Reads env i ms
unfolding env_mappings_from
env_mappings_from-Reads env left zero i found same h = absurd (omega arith)
env_mappings_from-Reads {F = F} env left (suc fuel) i found same h =
    elim (env_mapping-Reads {F = F} env i) [
      | inl (gap, ends) ↦ ([], rw (gap, env_mappings_from, append-nil), ends)
      | inr (m, here, reads_here) ↦
          let set_here = env_mapping-set env i m here in
          let set_left : lookup_env (name_of i) left ≢ none = rw (same i (omega arith)) set_here in
          let shorter = length-unset-lt (name_of i) left set_left in
          let (ms, more, reads) =
            env_mappings_from-Reads env (unset (name_of i) left) fuel (i + 1) (found ++ m ∷ [])
              (λ j later.
                lookup_env-unset (name_of i) (name_of j) left
                  (λ e. omega (arith, node_env_injective i j "_NODENAME" e))
                ∙ same j (omega arith))
              (omega arith) in
          (
            m ∷ ms,
            rw (here, env_mappings_from) (more ∙ ap some (append_assoc found (m ∷ []) ms)),
            (reads_here, reads),
          )
    ]

-- Whatever the environment, the loop ends within its fuel, and returns the mappings of the rounds
-- 0, 1, … up to the first round whose node name or metric name is unset or empty: each with the texts of
-- its own two variables, and with the number that its bit variable stands for, or no bit if that is
-- unset, empty or no number.
pub parse_env_node_mappings-Reads :
    {F : Type 0} (env : Environ)
    → (ms : List (NodeMapping F)) × (parse_env_node_mappings env ≡ some ms) × Reads env 0 ms
unfolding parse_env_node_mappings
parse_env_node_mappings-Reads env =
    env_mappings_from-Reads env env (length env + 1) 0 [] (λ j h. refl) (omega arith)
