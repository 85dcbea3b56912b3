-- ===== src/Checks/Names.antt =====
-- Runs of the interface labels (netopsbench/platform/utils/interface_names.py) and of the bound on
-- observations (netopsbench/platform/incident/payloads.py).
use net_ops_bench.Prelude.{
  ◌-◌, ◌*◌, ◌≤◌, ◌≡◌, ◌↔◌, true, not, ◌||◌, refl, some, codes, arith, strip, is_space, lower_code,
  is_digit, int_of, show,
}
use net_ops_bench.Interface.{
  normalize_interface_name, to_linux_interface, to_sonic_interface, eth_name, ethernet_name,
  sonic_match,
}
use net_ops_bench.Interface.Canonical.{normalize_spellings, to_linux-to_sonic}
use net_ops_bench.Interface.Matching.{e_style, vendor_style}
use net_ops_bench.Payload.{
  Json, string, array, nil, cons, json_size, compact_json, utf8_size, string_size, escaped_size,
}
use net_ops_bench.Payload.Bounds.{is_object, compact_json-fits}

normalize_spellings_example :
    (normalize_interface_name (some (eth_name 3)) ≡ eth_name 3)
    × (normalize_interface_name (some (e_style 1 3)) ≡ eth_name 3)
    × (normalize_interface_name (some (vendor_style 1 3)) ≡ eth_name 3)
    × (normalize_interface_name (some (ethernet_name ((3 - 1) * 4))) ≡ eth_name 3)
normalize_spellings_example = normalize_spellings 1 3 (omega arith)

to_linux-to_sonic_example :
    (to_linux_interface (some (to_sonic_interface (some (eth_name 12)))) ≡ eth_name 12)
    × (to_sonic_interface (some (to_linux_interface (some (ethernet_name ((12 - 1) * 4)))))
        ≡ ethernet_name ((12 - 1) * 4))
to_linux-to_sonic_example = to_linux-to_sonic 12 (omega arith)

-- SONiC counts the ports in fours from 0.
third_port : normalize_interface_name (some (codes " Ethernet8 ")) ≡ codes "eth3"
unfolding normalize_interface_name strip is_space sonic_match lower_code is_digit int_of eth_name
    show
third_port = refl

abbrev long : Json
long = array (
    cons
      (string (codes "interface counters of leaf1, leaf2, spine1 and spine2 over the last 300 s"))
      nil)

long-size : json_size long ≡ 77
unfolding json_size string_size escaped_size utf8_size
long-size = refl

compact_json-fits_example :
    ((compact_json long 60 ≡ long) ↔ (json_size long ≤ 60))
    × (json_size (compact_json long 60) ≤ 60)
    × (compact_json (compact_json long 60) 60 ≡ compact_json long 60)
    × (not (is_object long) || is_object (compact_json long 60) ≡ true)
compact_json-fits_example = compact_json-fits long 60 1 (omega (arith, long-size)) (omega arith)
