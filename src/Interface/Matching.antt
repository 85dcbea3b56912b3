-- ===== src/Interface/Matching.antt =====
-- The regular expressions of interface_names.py on the labels that the library itself prints.
use net_ops_bench.Prelude.{
  ℕ, ◌≡◌, refl, true, false, none, some, [], ◌∷◌, ◌++◌, Text, codes, lower_code, is_digit, show,
  AllDigits, show-AllDigits, is_empty, is_empty-show, arith, ◌==◌,
}
use net_ops_bench.Interface.{
  match_prefix, span_digits, at_end, match_last_number, match_second_number, sonic_match,
  linux_match, e_style_match, vendor_style_match, eth_name, ethernet_name,
}

span_digits-digits : (s : Text) → AllDigits s → span_digits s ≡ (s, [])
unfolding span_digits
span_digits-digits [] h = refl
span_digits-digits (c ∷ s) h = rw (span_digits-digits s h.1, h.0)

-- The run ends at the first character that is no digit.
span_digits-stop :
    (s : Text) (c : ℕ) (t : Text)
    → AllDigits s
    → is_digit c ≡ false
    → span_digits (s ++ c ∷ t) ≡ (s, c ∷ t)
unfolding span_digits
span_digits-stop [] c t h stop = rw stop
span_digits-stop (d ∷ s) c t h stop = rw (span_digits-stop s c t h.1 stop, h.0)

match_last_number-show : (n : ℕ) → match_last_number (show n) ≡ some (show n)
unfolding match_last_number at_end
match_last_number-show n =
    rw (span_digits-digits (show n) (show-AllDigits n)) (rw (is_empty-show n))

match_second_number-show :
    (separator m n : ℕ)
    → is_digit separator ≡ false
    → (separator == separator) ≡ true
    → match_second_number separator (show m ++ separator ∷ show n) ≡ some (show n)
unfolding match_second_number
match_second_number-show separator m n stop same =
    rw (span_digits-stop (show m) separator (show n) (show-AllDigits m) stop)
      (rw (is_empty-show m) (rw same (match_last_number-show n)))

-- Where two numbers are wanted, one is no match.
match_second_number-one : (separator n : ℕ) → match_second_number separator (show n) ≡ none
unfolding match_second_number
match_second_number-one separator n =
    rw (span_digits-digits (show n) (show-AllDigits n)) (rw (is_empty-show n))

digit-ne : (c p : ℕ) → is_digit c ≡ true → is_digit p ≡ false → (lower_code c == p) ≡ false
unfolding lower_code is_digit
digit-ne c p h k = ground arith

-- A prefix that begins with a letter does not match digits.
match_prefix-digits :
    (p : ℕ) (ps s : Text) → is_digit p ≡ false → AllDigits s → match_prefix (p ∷ ps) s ≡ none
unfolding match_prefix
match_prefix-digits p ps [] k h = refl
match_prefix-digits p ps (c ∷ s) k h = rw (digit-ne c p h.0 k)

match_prefix-digits_then :
    (p : ℕ) (ps s t : Text)
    → is_digit p ≡ false
    → is_empty s ≡ false
    → AllDigits s
    → match_prefix (p ∷ ps) (s ++ t) ≡ none
unfolding match_prefix
match_prefix-digits_then p ps [] t k e h = ground arith
match_prefix-digits_then p ps (c ∷ s) t k e h = rw (digit-ne c p h.0 k)

module _ (n : ℕ) where
  pub sonic_match-ethernet_name : sonic_match (ethernet_name n) ≡ some (show n)
  unfolding sonic_match ethernet_name lower_code
  sonic_match-ethernet_name = match_last_number-show n

  pub linux_match-eth_name : linux_match (eth_name n) ≡ some (show n)
  unfolding linux_match eth_name lower_code
  linux_match-eth_name = match_last_number-show n

  pub sonic_match-eth_name : sonic_match (eth_name n) ≡ none
  unfolding sonic_match eth_name match_prefix lower_code is_digit
  sonic_match-eth_name =
      rw (match_prefix-digits b'e' (codes "rnet") (show n) refl (show-AllDigits n))

module _ (m n : ℕ) where
  abbrev pub e_style : Text
  e_style = codes "e" ++ (show m ++ (b'-' ∷ show n))

  abbrev pub vendor_style : Text
  vendor_style = codes "ethernet-" ++ (show m ++ (b'/' ∷ show n))

  pub e_style_match-e_style : e_style_match e_style ≡ some (show n)
  unfolding e_style_match lower_code is_digit
  e_style_match-e_style = match_second_number-show b'-' m n refl refl

  pub vendor_style_match-vendor_style : vendor_style_match vendor_style ≡ some (show n)
  unfolding vendor_style_match lower_code is_digit
  vendor_style_match-vendor_style = match_second_number-show b'/' m n refl refl

  pub sonic_match-e_style : sonic_match e_style ≡ none
  unfolding sonic_match match_prefix lower_code is_digit
  sonic_match-e_style = rw (
      match_prefix-digits_then b't' (codes "hernet") (show m) (b'-' ∷ show n) refl (is_empty-show m)
        (show-AllDigits m))

  pub linux_match-e_style : linux_match e_style ≡ none
  unfolding linux_match match_prefix lower_code is_digit
  linux_match-e_style = rw (
      match_prefix-digits_then b't' (codes "h") (show m) (b'-' ∷ show n) refl (is_empty-show m)
        (show-AllDigits m))

  pub sonic_match-vendor_style : sonic_match vendor_style ≡ none
  unfolding sonic_match lower_code is_digit
  sonic_match-vendor_style = refl

  pub linux_match-vendor_style : linux_match vendor_style ≡ none
  unfolding linux_match lower_code is_digit
  linux_match-vendor_style = refl

  pub e_style_match-vendor_style : e_style_match vendor_style ≡ none
  unfolding e_style_match lower_code is_digit
  e_style_match-vendor_style = refl
