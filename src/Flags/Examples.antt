-- ===== src/Flags/Examples.antt =====
-- Command lines with node flags, and with flags that are not registered.
use opcua_exporter.Prelude.{
  refl, ◌≡◌, String, Bool, false, if◌then◌else◌, ◌||◌, some, [], ◌∷◌, ◌==◌, arith,
}
use opcua_exporter.Prelude.Int.{ℤ, pos}
use opcua_exporter.Prelude.Text.{itoa, trim_space}
use opcua_exporter.Prelude.Text.Split.{no_comma}
use opcua_exporter.Errors.{ok}
use opcua_exporter.Values.{integer, int}
use opcua_exporter.Fixtures.{settings, no_flags}
use opcua_exporter.Config.Mapping.{mapping_of}
use opcua_exporter.Config.Load.Examples.{returned}
use opcua_exporter.Flags.{
  FlagValues, parse_node_flag, apply_basic_flag_overrides, apply_security_flag_overrides,
  apply_timeout_flag_overrides, apply_node_flags, apply_node_flag_overrides, apply_flags,
}
use opcua_exporter.Flags.Registered.{apply_flags-agree}
use opcua_exporter.Flags.RoundTrip.{parse_node_flag-print_node_flag}
use opcua_exporter.Flags.Latest.{latest, apply_flags-latest}

-- One flag moves the pump's metric, the other does not parse.
abbrev command_line : FlagValues
command_line = record {
  is_set = λ name. name == "port";
  get_int = λ name. pos 9000;
  get_string = λ name. "";
  get_bool = λ name. false;
  get_duration = λ name. pos 0;
  get_string_slice = λ name. "ns=2;s=Pump2, pump, 3" ∷ "ns=2;s=Valve" ∷ [];
}

apply_flags-latest_example :
    mapping_of "pump" (apply_flags command_line settings).node_mappings
    ≡ latest "pump"
        (command_line.get_string_slice "node")
        (mapping_of "pump" settings.node_mappings)
apply_flags-latest_example = apply_flags-latest "pump" command_line settings

pub unchanged : apply_flags no_flags returned ≡ returned
unfolding apply_flags apply_node_flag_overrides apply_node_flags apply_basic_flag_overrides
    apply_security_flag_overrides apply_timeout_flag_overrides
unchanged = refl

parse_node_flag-print_node_flag_example :
    parse_node_flag {F = ℤ} "ns=2;s=Pump,pump,13"
    ≡ ok (record {
      node_name = "ns=2;s=Pump";
      metric_name = "pump";
      extract_bit = integer int (pos 13);
    })
unfolding no_comma trim_space itoa
parse_node_flag-print_node_flag_example =
    parse_node_flag-print_node_flag "ns=2;s=Pump" "pump" (some 13) (refl, refl) (refl, refl)
      (omega arith)

-- Two command lines that set the port, one with a flag that is not registered.
abbrev set_port : (String → Bool) → FlagValues
set_port is_set = record {
  is_set = is_set;
  get_int = λ name. if name == "port" then pos 9000 else pos 0;
  get_string = λ name. "";
  get_bool = λ name. false;
  get_duration = λ name. pos 0;
  get_string_slice = λ name. [];
}

abbrev port_flags : FlagValues
port_flags = set_port λ name. name == "port"

abbrev more_flags : FlagValues
more_flags = set_port λ name. name == "port" || name == "verbose"

apply_flags-agree_example : apply_flags port_flags returned ≡ apply_flags more_flags returned
apply_flags-agree_example = apply_flags-agree port_flags more_flags returned (
    (
      (refl, refl),
      (
        (refl, refl),
        (
          (refl, refl),
          (
            (refl, refl),
            (
              (refl, refl),
              (
                (refl, refl),
                (
                  (refl, refl),
                  (
                    (refl, refl),
                    (
                      (refl, refl),
                      (
                        (refl, refl),
                        (
                          (refl, refl),
                          (
                            (refl, refl),
                            (
                              (refl, refl),
                              (
                                (refl, refl),
                                (
                                  (refl, refl),
                                  (
                                    (refl, refl),
                                    (
                                      (refl, refl),
                                      (
                                        (refl, refl),
                                        (
                                          (refl, refl),
                                          (
                                            (refl, refl),
                                            ((refl, refl), ((refl, refl), ((refl, refl), tt))),
                                          ),
                                        ),
                                      ),
                                    ),
                                  ),
                                ),
                              ),
                            ),
                          ),
                        ),
                      ),
                    ),
                  ),
                ),
              ),
            ),
          ),
        ),
      ),
    ))
