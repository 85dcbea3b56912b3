-- ===== src/Payload/Bounds.antt =====
-- What a compacted payload can be (netopsbench/platform/incident/payloads.py).
use Prim.Native.Nat.{◌^◌}
use native.Mathlib.Nat.{pow-suc}
use net_ops_bench.Prelude.{
  ℕ, zero, suc, ◌+◌, ◌-◌, ◌*◌, ◌/◌, ◌%◌, ◌≤◌, ◌<◌, ◌≡◌, ◌↔◌, refl, ap, subst, Bool, if◌then◌else◌,
  true, false, not, ◌||◌, [], ◌∷◌, ◌++◌, Text, length, show, show_onto, leb, ◌==◌, Bool-cases, inl,
  inr, arith,
}
use net_ops_bench.Payload.{
  Json, json_size, utf8_size, escaped_size, sum_of, string_size, utf8_prefix, marker, only_marker,
  compact, compact_fields, compact_json, Fields, end, field, null, bool, number, string, array,
  object,
}

length-show_onto :
    (f n k : ℕ) (acc : Text) → n < 10 ^ suc k → length (show_onto f n acc) ≤ suc k + length acc
unfolding show_onto
length-show_onto zero n k acc h = omega arith
length-show_onto (suc f) n zero acc h = ground arith
length-show_onto (suc f) n (suc k) acc h =
    let bound : n < 10 ^ suc k * 10 = rw pow-suc at h in
    elim (Bool-cases (n / 10 == 0)) [
      | inl done ↦ rw done (omega arith)
      | inr more ↦
          rw more (omega (arith, length-show_onto f (n / 10) k ((48 + n % 10) ∷ acc) (omega arith)))
    ]

-- The digits of a number.
length-show : (n k : ℕ) → n < 10 ^ suc k → length (show n) ≤ suc k
unfolding show
length-show n k h = omega (arith, length-show_onto (suc n) n k [] h)

only_marker-size : (n : ℕ) → json_size (only_marker n) ≡ 52 + length (show n)
unfolding only_marker marker json_size string_size escaped_size utf8_size
only_marker-size n = omega arith

-- What comes out is within the limit, provided that the limit leaves room for the bare truncation marker:
-- 52 bytes and the digits of the original size, which has at most k + 1 of them if it is below
-- 10 ^ (k + 1).
pub compact_json-size :
    (value : Json) (max_bytes k : ℕ)
    → json_size value < 10 ^ suc k
    → 53 + k ≤ max_bytes
    → json_size (compact_json value max_bytes) ≤ max_bytes
unfolding compact_json
compact_json-size value max_bytes k small room =
    let room_for_marker : json_size (only_marker (json_size value)) ≤ max_bytes =
      omega (arith, only_marker-size (json_size value), length-show (json_size value) k small) in
    elim (Bool-cases (leb (json_size value) max_bytes)) [
      | inl fits ↦ rw fits (ground arith)
      | inr large ↦
          rw large
            (elim (Bool-cases
              (leb (json_size (compact value max_bytes (marker (json_size value)))) max_bytes)) [
                | inl compacted ↦ rw compacted (ground arith)
                | inr still ↦ rw still room_for_marker
              ])
    ]

-- Compacting twice is compacting once, provided that the original size is below 10 ^ (k + 1) and that
-- the limit is at least 53 + k bytes.
pub compact_json_idem :
    (value : Json) (max_bytes k : ℕ)
    → json_size value < 10 ^ suc k
    → 53 + k ≤ max_bytes
    → compact_json (compact_json value max_bytes) max_bytes ≡ compact_json value max_bytes
compact_json_idem value max_bytes k small room =
    fits (compact_json value max_bytes) (compact_json-size value max_bytes k small room)
  where
    fits : (v : Json) → json_size v ≤ max_bytes → compact_json v max_bytes ≡ v
    fits v h =
        let yes_fits : leb (json_size v) max_bytes ≡ true = ground arith in
        unfold compact_json in rw yes_fits

abbrev pub is_object : Json → Bool
is_object (object fs) = true
is_object _ = false

either-is_object :
    (b : Bool) (fs : Fields) (y : Json)
    → is_object y ≡ true
    → is_object (elim b [ true ↦ object fs | false ↦ y ]) ≡ true
either-is_object true fs y h = refl
either-is_object false fs y h = h

compact_fields-is_object :
    (fs : Fields) (budget : ℕ) (m : Fields) (total : ℕ) (output : Fields)
    → is_object (compact_fields fs budget m total output) ≡ true
unfolding compact_fields
compact_fields-is_object end budget m total output = refl
compact_fields-is_object (field k v fs) budget m total output =
    either-is_object _ _ _ (compact_fields-is_object fs budget m total _)

compact-is_object :
    (fs : Fields) (budget : ℕ) (m : Fields) → is_object (compact (object fs) budget m) ≡ true
unfolding compact
compact-is_object fs budget m = compact_fields-is_object fs budget m _ _

compact_json-is_object :
    (value : Json) (max_bytes : ℕ)
    → not (is_object value) || is_object (compact_json value max_bytes) ≡ true
unfolding compact_json only_marker
compact_json-is_object (object fs) max_bytes = chosen (leb (json_size (object fs)) max_bytes)
  where
    chosen :
        (b : Bool)
        → is_object (
            if b
            then object fs
            else if leb
                (json_size (compact (object fs) max_bytes (marker (json_size (object fs)))))
                max_bytes
            then compact (object fs) max_bytes (marker (json_size (object fs)))
            else only_marker (json_size (object fs)))
          ≡ true
    chosen true = refl
    chosen false =
        elim (Bool-cases (
          leb (json_size (compact (object fs) max_bytes (marker (json_size (object fs)))))
            max_bytes)) [
              | inl e ↦ rw e (compact-is_object fs max_bytes (marker (json_size (object fs))))
              | inr e ↦ rw e refl
            ]
compact_json-is_object null max_bytes = refl
compact_json-is_object (bool b) max_bytes = refl
compact_json-is_object (number s) max_bytes = refl
compact_json-is_object (string s) max_bytes = refl
compact_json-is_object (array xs) max_bytes = refl

-- A payload is passed on unchanged exactly if it fits; whatever comes out is within the limit, is passed
-- on unchanged from then on, and is an object if the payload is one. The original size is below
-- 10 ^ (k + 1), and the limit is at least 53 + k bytes, so that it leaves room for the bare truncation
-- marker.
pub compact_json-fits :
    (value : Json) (max_bytes k : ℕ)
    → json_size value < 10 ^ suc k
    → 53 + k ≤ max_bytes
    → ((compact_json value max_bytes ≡ value) ↔ (json_size value ≤ max_bytes))
      × (json_size (compact_json value max_bytes) ≤ max_bytes)
      × (compact_json (compact_json value max_bytes) max_bytes ≡ compact_json value max_bytes)
      × (not (is_object value) || is_object (compact_json value max_bytes) ≡ true)
unfolding compact_json
compact_json-fits value max_bytes k small room = (
  (
    λ same.
        subst (λ v. json_size v ≤ max_bytes) same (compact_json-size value max_bytes k small room),
    λ fits.
        let yes_fits : leb (json_size value) max_bytes ≡ true = ground (arith, fits) in
        rw yes_fits refl,
  ),
  compact_json-size value max_bytes k small room,
  compact_json_idem value max_bytes k small room,
  compact_json-is_object value max_bytes,
)

-- A truncated text is a prefix of the text in at most n bytes.
pub utf8_prefix-bounds :
    (n : ℕ) (s : Text)
    → (sum_of utf8_size (utf8_prefix n s) ≤ n) × ((rest : Text) × (s ≡ utf8_prefix n s ++ rest))
unfolding utf8_prefix sum_of
utf8_prefix-bounds n [] = (omega arith, ([], refl))
utf8_prefix-bounds n (c ∷ s) = elim (Bool-cases (leb (utf8_size c) n)) [
  | inl fits ↦
      let (small, (rest, split)) = utf8_prefix-bounds (n - utf8_size c) s in
      rw fits (ground arith, (rest, ap (λ t. c ∷ t) split))
  | inr large ↦ rw large (omega arith, (c ∷ s, refl))
]
