-- ===== src/Flags/RoundTrip.antt =====
-- A node flag that is written out for a mapping reads back as the mapping.
use opcua_exporter.Prelude.{
  ℕ, ◌^◌, ◌<◌, ◌≡◌, ◌≢◌, refl, String, true, false, Option, none, some, ◌==◌, eq_iff, arith,
}
use opcua_exporter.Prelude.Int.{pos}
use opcua_exporter.Prelude.Text.{◌<>◌, itoa, trim_space}
use opcua_exporter.Prelude.Text.Scan.{IsNumeral, itoa-IsNumeral, scan_int-itoa}
use opcua_exporter.Prelude.Text.Split.{
  no_comma, no_comma-IsNumeral, split_comma-last, split_comma-comma, trim_space-IsNumeral,
}
use opcua_exporter.Errors.{ok}
use opcua_exporter.Values.{Value, nil, integer, int}
use opcua_exporter.Flags.{third_part, mapping_of_parts, parse_node_flag}

-- 'nodeId,metricName[,extractBit]'
abbrev pub print_node_flag : String → String → Option ℕ → String
print_node_flag node metric none = node <> "," <> metric
print_node_flag node metric (some bit) = node <> "," <> metric <> "," <> itoa bit

abbrev pub bit_value : {F : Type 0} → Option ℕ → Value F
bit_value none = nil
bit_value (some bit) = integer int (pos bit)

-- A name that a flag can hold: it has no comma, and no space at its ends.
abbrev pub IsPlain : String → Type 0
IsPlain s = (no_comma s ≡ true) × (trim_space s ≡ s)

-- A bit number that Go's int can hold.
abbrev pub Fits63 : Option ℕ → Type 0
Fits63 none = Unit
Fits63 (some bit) = bit < 2 ^ 63

IsNumeral-ne : (s : String) → IsNumeral s → (s == "") ≡ false
IsNumeral-ne s h = ground (arith, eq_iff s "", not_empty s h)
  where
    not_empty : (s : String) → IsNumeral s → s ≢ ""
    not_empty s h e = elim (rw e at h) [ ]

-- For names without commas and without spaces at their ends, and a bit number below 2^63 if there is
-- one, parsing the flag that is written out for them gives back the mapping.
pub parse_node_flag-print_node_flag :
    {F : Type 0} (node metric : String) (bit : Option ℕ)
    → IsPlain node
    → IsPlain metric
    → Fits63 bit
    → parse_node_flag {F = F} (print_node_flag node metric bit)
      ≡ ok (record { node_name = node; metric_name = metric; extract_bit = bit_value bit })
unfolding parse_node_flag mapping_of_parts third_part
parse_node_flag-print_node_flag node metric none (n, nt) (m, mt) h =
    rw (split_comma-comma node metric n, split_comma-last metric m, nt, mt) refl
parse_node_flag-print_node_flag node metric (some bit) (n, nt) (m, mt) h =
    let digits = itoa-IsNumeral bit in
    rw
      (
        split_comma-comma node (metric <> "," <> itoa bit) n,
        split_comma-comma metric (itoa bit) m,
        split_comma-last (itoa bit) (no_comma-IsNumeral _ digits),
        nt,
        mt,
        trim_space-IsNumeral (itoa bit) digits,
        IsNumeral-ne (itoa bit) digits,
        scan_int-itoa bit h,
      )
      refl
