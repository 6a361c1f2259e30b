-- ===== src/Flags/Latest.antt =====
-- What the node flags leave of the mappings.
use opcua_exporter.Prelude.{
  ◌≡◌, refl, ◌∙◌, ap, String, List, [], ◌∷◌, Option, some, ◌==◌, if◌then◌else◌,
}
use opcua_exporter.Errors.{Result, ok, err}
use opcua_exporter.Config.{NodeMapping, Config}
use opcua_exporter.Config.Mapping.{mapping_of, add_node_mapping-overrides}
use opcua_exporter.Values.{Floats}
use opcua_exporter.Config.Env.{Environ}
use opcua_exporter.Config.Load.{Viper, load}
use opcua_exporter.Flags.{
  load_and_apply_config, FlagValues, parse_node_flag, after_flag, apply_node_flags,
  apply_node_flag_overrides, apply_flags,
}

module _ {F : Type 0} (metric : String) where
  abbrev pub replaced : Result (NodeMapping F) → Option (NodeMapping F) → Option (NodeMapping F)
  replaced (err e) m = m
  replaced (ok n) m = if n.metric_name == metric then some n else m

  -- The mapping of the last flag that parses and names the metric, or else the given one.
  abbrev pub latest : List String → Option (NodeMapping F) → Option (NodeMapping F)
  latest [] m = m
  latest (flag ∷ flags) m = latest flags (replaced (parse_node_flag flag) m)

  after_flag-replaced :
      (r : Result (NodeMapping F)) (c : Config F)
      → mapping_of metric (after_flag r c).node_mappings
        ≡ replaced r (mapping_of metric c.node_mappings)
  unfolding after_flag
  after_flag-replaced (err e) c = refl
  after_flag-replaced (ok m) c = (add_node_mapping-overrides m c metric).0

  apply_node_flags-latest :
      (flags : List String) (c : Config F)
      → mapping_of metric (apply_node_flags flags c).node_mappings
        ≡ latest flags (mapping_of metric c.node_mappings)
  unfolding apply_node_flags
  apply_node_flags-latest [] c = refl
  apply_node_flags-latest (flag ∷ flags) c =
      apply_node_flags-latest flags (after_flag (parse_node_flag flag) c)
      ∙ ap (latest flags) (after_flag-replaced (parse_node_flag flag) c)

  -- After all the overrides, the mapping of a metric is that of the last node flag that parses and
  -- names the metric, if there is one, and otherwise the one that was configured: the other flags
  -- change no mapping, and a flag that does not parse is skipped.
  pub apply_flags-latest :
      (flags : FlagValues) (c : Config F)
      → mapping_of metric (apply_flags flags c).node_mappings
        ≡ latest (flags.get_string_slice "node") (mapping_of metric c.node_mappings)
  unfolding apply_flags apply_node_flag_overrides
  apply_flags-latest flags c = apply_node_flags-latest (flags.get_string_slice "node") _

-- A configuration that Load returns is returned with the overrides.
pub load_and_apply_config-load :
    {F : Type 0} (flags : FlagValues) (fl : Floats F) (v : Viper F) (env : Environ) (file : String)
    (c : Config F)
    → load fl v env file ≡ some (ok c)
    → load_and_apply_config flags fl v env file ≡ some (ok (apply_flags flags c))
unfolding load_and_apply_config
load_and_apply_config-load flags fl v env file c h = rw (h, load_and_apply_config)
