-- ===== src/Config/Env.antt =====
-- parseEnvNodeMappings of internal/config/config.go.
pub mod Total
use opcua_exporter.Prelude.{
  ℕ, zero, suc, ◌+◌, String, Bool, ◌||◌, List, [], ◌∷◌, ◌++◌, Option, none, some, ◌==◌, length,
  if◌then◌else◌,
}
use opcua_exporter.Prelude.Int.{ℤ}
use opcua_exporter.Prelude.Text.{◌<>◌, itoa, atoi}
use opcua_exporter.Values.{Value, nil, integer, int}
use opcua_exporter.Config.{NodeMapping}

-- The environment of the process: its variables with their values.
abbrev pub Environ : Type 0
Environ = List (String × String)

pub lookup_env : String → Environ → Option String
lookup_env key [] = none
lookup_env key ((k, v) ∷ env) = if k == key then some v else lookup_env key env

abbrev pub text_or_empty : Option String → String
text_or_empty none = ""
text_or_empty (some s) = s

-- os.Getenv
getenv : Environ → String → String
unfolding lookup_env
getenv env key = text_or_empty (lookup_env key env)

abbrev pub node_env : ℕ → String → String
node_env i field = "OPCUA_EXPORTER_NODES_" <> itoa i <> field

-- The value of an EXTRACTBIT variable: text that strconv.Atoi refuses is ignored.
env_bit : {F : Type 0} → String → Value F
env_bit s = if s == "" then nil else elim (atoi s) [ none ↦ nil | some n ↦ integer int n ]

-- One round of the loop: none where it breaks.
unfoldable pub env_mapping : {F : Type 0} → Environ → ℕ → Option (NodeMapping F)
unfolding getenv env_bit
env_mapping env i =
    let node_name = getenv env (node_env i "_NODENAME") in
    let metric_name = getenv env (node_env i "_METRICNAME") in
    if node_name == "" || metric_name == ""
    then none
    else some (record {
      node_name = node_name;
      metric_name = metric_name;
      extract_bit = env_bit (getenv env (node_env i "_EXTRACTBIT"));
    })

-- `for i := 0; ; i++`, on fuel; `none` means that the fuel ran out.
pub env_mappings_from :
    {F : Type 0} → Environ → ℕ → ℕ → List (NodeMapping F) → Option (List (NodeMapping F))
env_mappings_from env zero i found = none
env_mappings_from env (suc fuel) i found = elim (env_mapping env i) [
  | none ↦ some found
  | some m ↦ env_mappings_from env fuel (i + 1) (found ++ m ∷ [])
]

-- A round more than the environment has variables.
unfoldable pub parse_env_node_mappings : {F : Type 0} → Environ → Option (List (NodeMapping F))
unfolding env_mappings_from
parse_env_node_mappings env = env_mappings_from env (length env + 1) 0 []
