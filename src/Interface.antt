-- ===== src/Interface.antt =====
-- Interface labels of SONiC, Linux and older tools (netopsbench/platform/utils/interface_names.py).
-- The four regular expressions are prefix matches with IGNORECASE on ASCII texts; `$` also stands
-- before a final newline.
pub mod Matching
pub mod Canonical
pub mod Aliases
use net_ops_bench.Prelude.{
  ℕ, zero, suc, ◌+◌, ◌-◌, ◌*◌, ◌/◌, ◌%◌, ◌≡◌, Bool, true, false, ◌&&◌, ◌||◌, Option, none, some,
  List, [], ◌∷◌, ◌++◌, Text, codes, text_eq, is_empty, lower, lower_code, is_digit, strip, show,
  int_of, length, any, leb, ◌==◌, if◌then◌else◌,
}

-- The rest behind a prefix that is written in lower case, whatever the case in the text.
unfoldable pub match_prefix : Text → Text → Option Text
match_prefix [] s = some s
match_prefix (p ∷ ps) [] = none
match_prefix (p ∷ ps) (c ∷ s) =
    let rest = match_prefix ps s in if lower_code c == p then rest else none

-- `(\d+)`: the longest run of digits and what follows it.
unfoldable pub span_digits : Text → Text × Text
span_digits [] = ([], [])
span_digits (c ∷ s) =
    let (run, rest) = span_digits s in if is_digit c then (c ∷ run, rest) else ([], c ∷ s)

-- `$`
unfoldable pub at_end : Text → Bool
at_end [] = true
at_end (c ∷ []) = c == 10
at_end (_ ∷ _ ∷ _) = false

-- `(\d+)$`
unfoldable pub match_last_number : Text → Option Text
unfolding span_digits at_end
match_last_number s =
    let (run, rest) = span_digits s in
    if is_empty run then none else if at_end rest then some run else none

-- `(\d+)-(\d+)$` with the separator given: the second group.
unfoldable pub match_second_number : ℕ → Text → Option Text
unfolding span_digits match_last_number
match_second_number separator s =
    let (run, rest) = span_digits s in
    if is_empty run then none else elim rest [
      | [] ↦ none
      | c ∷ after ↦ if c == separator then match_last_number after else none
    ]

and_then : Option Text → (Text → Option Text) → Option Text
and_then none f = none
and_then (some s) f = f s

unfoldable pub sonic_match : Text → Option Text
unfolding and_then match_prefix match_last_number
sonic_match s = and_then (match_prefix (codes "ethernet") s) match_last_number

unfoldable pub linux_match : Text → Option Text
unfolding and_then match_prefix match_last_number
linux_match s = and_then (match_prefix (codes "eth") s) match_last_number

unfoldable pub e_style_match : Text → Option Text
unfolding and_then match_prefix match_second_number
e_style_match s = and_then (match_prefix (codes "e") s) (match_second_number b'-')

unfoldable pub vendor_style_match : Text → Option Text
unfolding and_then match_prefix match_second_number
vendor_style_match s = and_then (match_prefix (codes "ethernet-") s) (match_second_number b'/')

-- s.startswith(p)
starts_with : Text → Text → Bool
starts_with [] s = true
starts_with (p ∷ ps) [] = false
starts_with (p ∷ ps) (c ∷ s) = (c == p) && starts_with ps s

-- s.replace(old, new) from the left, for a text `old` that is not empty: `skip` characters of a
-- match are still to be dropped.
replace_from : ℕ → Text → Text → Text → Text
unfolding starts_with
replace_from skip old new [] = []
replace_from zero old new (c ∷ s) = elim (starts_with old (c ∷ s)) [
  | true ↦ new ++ replace_from (length old - 1) old new s
  | false ↦ c ∷ replace_from zero old new s
]
replace_from (suc skip) old new (c ∷ s) = replace_from skip old new s

unfoldable pub replace : Text → Text → Text → Text
unfolding replace_from
replace old new s = replace_from 0 old new s

-- f"eth{n}", f"Ethernet{n}"
unfoldable pub eth_name : ℕ → Text
eth_name n = codes "eth" ++ show n

unfoldable pub ethernet_name : ℕ → Text
ethernet_name n = codes "Ethernet" ++ show n

-- The last two lines: no known form matched.
unfoldable pub fallback : Text → Text
fallback raw = replace (codes "-") [] (
    replace (codes "/") [] (
      replace (codes "ethernet") (codes "eth")
        (replace (codes "ethernet-") (codes "eth") (lower raw))))

-- The tests behind `sonic_match`, in the order of the source.
normalize_other : Text → Text
normalize_other raw = elim (linux_match raw) [
  | some digits ↦ eth_name (int_of digits)
  | none ↦ elim (e_style_match raw) [
    | some digits ↦ eth_name (int_of digits)
    | none ↦ elim (vendor_style_match raw) [
      | some digits ↦ eth_name (int_of digits)
      | none ↦ fallback raw
    ]
  ]
]

normalize_raw : Text → Text
unfolding normalize_other
normalize_raw raw = if is_empty raw then [] else elim (sonic_match raw) [
  | some digits ↦
      let port_idx = int_of digits in
      if port_idx % 4 == 0 then eth_name (port_idx / 4 + 1) else lower raw
  | none ↦ normalize_other raw
]

-- normalize_interface_name; the first test, on an empty name, is the one on the stripped name.
unfoldable pub normalize_interface_name : Option Text → Text
unfolding normalize_raw
normalize_interface_name none = []
normalize_interface_name (some name) = normalize_raw (strip name)

-- str(interface_name or "").strip()
stripped : Option Text → Text
stripped none = []
stripped (some name) = strip name

unfoldable pub to_linux_interface : Option Text → Text
unfolding stripped
to_linux_interface name = elim (linux_match (normalize_interface_name name)) [
  | some digits ↦ eth_name (int_of digits)
  | none ↦ stripped name
]

-- The second half of to_sonic_interface, on the label as it was given.
unfoldable pub sonic_label : Option Text → Text
unfolding stripped
sonic_label name = elim (sonic_match (stripped name)) [
  | some digits ↦ ethernet_name (int_of digits)
  | none ↦ stripped name
]

unfoldable pub to_sonic_interface : Option Text → Text
to_sonic_interface name = elim (linux_match (normalize_interface_name name)) [
  | some digits ↦
      let eth_idx = int_of digits in
      if leb 1 eth_idx then ethernet_name ((eth_idx - 1) * 4) else sonic_label name
  | none ↦ sonic_label name
]

-- A label that is added to the set only if it is not empty.
abbrev add : Text → List Text → List Text
add name names = if is_empty name then names else name ∷ names

-- The four spellings of port `eth_idx`.
port_spellings : ℕ → List Text
port_spellings n =
    eth_name n
    ∷ (codes "e1-" ++ show n)
    ∷ (codes "ethernet-1/" ++ show n)
    ∷ ethernet_name ((n - 1) * 4)
    ∷ []

port_aliases : Option Text → List Text
unfolding port_spellings
port_aliases none = []
port_aliases (some digits) =
    let eth_idx = int_of digits in if leb 1 eth_idx then port_spellings eth_idx else []

-- interface_aliases: the set as a list of its members.
unfoldable pub interface_aliases : Option Text → List Text
unfolding port_aliases stripped
interface_aliases name =
    let raw_name = stripped name in
    let normalized = normalize_interface_name (some raw_name) in
    if is_empty raw_name
    then []
    else raw_name
      ∷ add normalized (
          port_aliases (linux_match normalized)
          ++ add (to_sonic_interface (some raw_name)) (add (to_linux_interface (some raw_name)) []))

-- `bool(left & right)` of two sets.
unfoldable pub intersects : List Text → List Text → Bool
intersects names others = any (λ name. any (text_eq name) others) names

is_blank : Option Text → Bool
is_blank none = true
is_blank (some name) = is_empty name

unfoldable pub are_interfaces_equivalent : Option Text → Option Text → Bool
unfolding is_blank
are_interfaces_equivalent left right =
    if is_blank left || is_blank right
    then false
    else text_eq (normalize_interface_name left) (normalize_interface_name right)
      || intersects (interface_aliases left) (interface_aliases right)
