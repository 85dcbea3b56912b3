-- ===== src/Payload.antt =====
-- JSON values and the size bound on what an agent observes
-- (netopsbench/platform/incident/payloads.py).
pub mod Bounds
use Prim.Native.Nat.{max}
use net_ops_bench.Prelude.{
  ℕ, suc, ◌+◌, ◌-◌, Bool, true, false, ◌&&◌, ◌||◌, Option, none, some, List, [], ◌∷◌, map, Text,
  codes, text_eq, text_leb, length, show, ltb, leb, ◌==◌, if◌then◌else◌,
}

-- A number is its printed form. The fields of an object stand in the order of their keys, in which both
-- json.dumps (sort_keys) and `_compact` go through them.
mutual
  pub data Json : Type 0 where
    null : Json
    bool : Bool → Json
    number : Text → Json
    string : Text → Json
    array : Items → Json
    object : Fields → Json

  pub data Items : Type 0 where
    nil : Items
    cons : Json → Items → Items

  pub data Fields : Type 0 where
    end : Fields
    field : Text → Json → Fields → Fields

-- The bytes of a code point in UTF-8.
unfoldable pub utf8_size : ℕ → ℕ
utf8_size c = if ltb c 128 then 1 else if ltb c 2048 then 2 else if ltb c 65536 then 3 else 4

-- The same inside a JSON string, where quotes, backslashes and control characters are escaped.
unfoldable pub escaped_size : ℕ → ℕ
escaped_size c =
    if (c == 34) || (c == 92) || (leb 8 c && leb c 10) || (c == 12) || (c == 13)
    then 2
    else if ltb c 32
    then 6
    else utf8_size c

unfoldable pub sum_of : (ℕ → ℕ) → Text → ℕ
sum_of f [] = 0
sum_of f (c ∷ s) = f c + sum_of f s

unfoldable pub string_size : Text → ℕ
unfolding sum_of
string_size s = 2 + sum_of escaped_size s

-- json_size: the bytes of json.dumps with `,` and `:` as separators. A comma or the closing bracket
-- follows each item.
unfoldable mutual
  pub json_size : Json → ℕ
  json_size null = 4
  json_size (bool b) = if b then 4 else 5
  json_size (number s) = length s
  json_size (string s) = string_size s
  json_size (array nil) = 2
  json_size (array (cons x xs)) = 1 + (json_size x + 1 + items_size xs)
  json_size (object end) = 2
  json_size (object (field k v fs)) = 1 + (string_size k + 1 + json_size v + 1 + fields_size fs)

  pub items_size : Items → ℕ
  items_size nil = 0
  items_size (cons x xs) = json_size x + 1 + items_size xs

  pub fields_size : Fields → ℕ
  fields_size end = 0
  fields_size (field k v fs) = string_size k + 1 + json_size v + 1 + fields_size fs

-- output[key] = value
unfoldable pub set_field : Text → Json → Fields → Fields
set_field k v end = field k v end
set_field k v (field j w fs) =
    let rest = set_field k v fs in
    if text_eq j k
    then field k v fs
    else if text_leb j k
    then field j w rest
    else field k v (field j w fs)

-- output.pop(key, None)
remove_field : Text → Fields → Fields
remove_field k end = end
remove_field k (field j w fs) =
    let rest = remove_field k fs in if text_eq j k then rest else field j w rest

-- [*output, item]
append_item : Items → Json → Items
append_item nil x = cons x nil
append_item (cons y ys) x = cons y (append_item ys x)

count_fields : Fields → ℕ
count_fields end = 0
count_fields (field k v fs) = suc (count_fields fs)

count_items : Items → ℕ
count_items nil = 0
count_items (cons x xs) = suc (count_items xs)

-- The fields {"original_bytes": n, "truncated": true}.
unfoldable pub marker : ℕ → Fields
marker n =
    field (codes "original_bytes") (number (show n)) (field (codes "truncated") (bool true) end)

-- {"_truncation": {**marker, "omitted_items": n}} as the value of the new field.
omitted : Fields → ℕ → Json
unfolding set_field
omitted marker_fields n = object (set_field (codes "omitted_items") (number (show n)) marker_fields)

abbrev truncation_key : Text
truncation_key = codes "_truncation"

-- value.encode("utf-8")[:n].decode("utf-8", errors="ignore"): the code points that fit whole.
unfoldable pub utf8_prefix : ℕ → Text → Text
utf8_prefix n [] = []
utf8_prefix n (c ∷ s) =
    let rest = utf8_prefix (n - utf8_size c) s in if leb (utf8_size c) n then c ∷ rest else []

truncated_text : ℕ → Text → Json
unfolding utf8_prefix
truncated_text budget value = object (
    field (codes "_truncated_text") (string (utf8_prefix (budget - 160) value))
      (field (codes "original_chars") (number (show (length value))) end))

-- The budget of a child behind `output`.
child_budget : ℕ → ℕ → ℕ
child_budget budget used = max 128 (budget - used - 256)

-- _compact. `total` is the number of items of the container, `left` the number behind the current one,
-- and `output` what is kept so far.
unfoldable mutual
  unfolding set_field remove_field append_item count_fields count_items omitted truncated_text
      child_budget

  pub compact : Json → ℕ → Fields → Json
  compact null budget m = null
  compact (bool b) budget m = bool b
  compact (number s) budget m = number s
  compact (string s) budget m = truncated_text budget s
  compact (array xs) budget m = compact_items xs budget m (count_items xs) nil
  compact (object fs) budget m = compact_fields fs budget m (count_fields fs) end

  pub compact_fields : Fields → ℕ → Fields → ℕ → Fields → Json
  compact_fields end budget m total output =
      object (set_field truncation_key (omitted m (total - count_fields output)) output)
  compact_fields (field k v fs) budget m total output =
      let child = compact v (child_budget budget (json_size (object output))) m in
      let output' = set_field k child output in
      let candidate = set_field truncation_key (omitted m (count_fields fs)) output' in
      let kept = remove_field k output' in
      elim (ltb budget (json_size (object candidate))) [
        | true ↦ object (set_field truncation_key (omitted m (total - count_fields kept)) kept)
        | false ↦ compact_fields fs budget m total output'
      ]

  pub compact_items : Items → ℕ → Fields → ℕ → Items → Json
  compact_items nil budget m total output = array (
      append_item output
        (object (field truncation_key (omitted m (total - count_items output)) end)))
  compact_items (cons x xs) budget m total output =
      let child = compact x (child_budget budget (json_size (array output))) m in
      let output' = append_item output child in
      let candidate =
        append_item output' (object (field truncation_key (omitted m (count_items xs)) end)) in
      elim (ltb budget (json_size (array candidate))) [
        | true ↦ array (
            append_item output
              (object (field truncation_key (omitted m (total - count_items output)) end)))
        | false ↦ compact_items xs budget m total output'
      ]

-- {"_truncation": marker}, when even the compacted value is too large.
unfoldable pub only_marker : ℕ → Json
only_marker original_bytes = object (field truncation_key (object (marker original_bytes)) end)

unfoldable pub compact_json : Json → ℕ → Json
compact_json value max_bytes =
    let original_bytes = json_size value in
    let compacted = compact value max_bytes (marker original_bytes) in
    if leb original_bytes max_bytes
    then value
    else if leb (json_size compacted) max_bytes
    then compacted
    else only_marker original_bytes
