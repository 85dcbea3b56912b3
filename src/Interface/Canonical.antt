-- ===== src/Interface/Canonical.antt =====
-- What normalize_interface_name, to_linux_interface and to_sonic_interface make of each spelling.
use net_ops_bench.Prelude.{
  ℕ, ◌+◌, ◌-◌, ◌*◌, ◌/◌, ◌%◌, ◌≤◌, ◌≡◌, refl, ap, ◌∙◌, false, none, some, ◌∷◌, Text, is_space,
  is_empty, strip-IsSolid, IsSolid, show, int_of, int_of-show, show-AllDigits, AllDigits-IsSolid,
  All-append, arith,
}
use net_ops_bench.Interface.{
  sonic_match, linux_match, e_style_match, vendor_style_match, eth_name, ethernet_name,
  normalize_other, normalize_raw, normalize_interface_name, to_linux_interface, to_sonic_interface,
}
use net_ops_bench.Interface.Matching.{
  sonic_match-ethernet_name, linux_match-eth_name, sonic_match-eth_name, e_style, vendor_style,
  e_style_match-e_style, vendor_style_match-vendor_style, sonic_match-e_style, linux_match-e_style,
  sonic_match-vendor_style, linux_match-vendor_style, e_style_match-vendor_style,
}

show-IsSolid : (n : ℕ) → IsSolid (show n)
show-IsSolid n = AllDigits-IsSolid (show n) (show-AllDigits n)

pub eth_name-IsSolid : (n : ℕ) → IsSolid (eth_name n)
unfolding eth_name is_space
eth_name-IsSolid n = (refl, (refl, (refl, show-IsSolid n)))

pub ethernet_name-IsSolid : (n : ℕ) → IsSolid (ethernet_name n)
unfolding ethernet_name is_space
ethernet_name-IsSolid n =
    (refl, (refl, (refl, (refl, (refl, (refl, (refl, (refl, show-IsSolid n))))))))

e_style-IsSolid : (m n : ℕ) → IsSolid (e_style m n)
unfolding is_space
e_style-IsSolid m n =
    (refl, All-append _ (show m) (b'-' ∷ show n) (show-IsSolid m) (refl, show-IsSolid n))

vendor_style-IsSolid : (m n : ℕ) → IsSolid (vendor_style m n)
unfolding is_space
vendor_style-IsSolid m n =
    let rest = All-append _ (show m) (b'/' ∷ show n) (show-IsSolid m) (refl, show-IsSolid n) in
    (refl, (refl, (refl, (refl, (refl, (refl, (refl, (refl, (refl, rest)))))))))

-- A name on which the branch of the SONiC form is taken, or one of the others.
module _ (name digits : Text) (solid : IsSolid name) (full : is_empty name ≡ false) where
  unstripped :
      {result : Text} → normalize_raw name ≡ result → normalize_interface_name (some name) ≡ result
  unfolding normalize_interface_name
  unstripped h = ap normalize_raw (strip-IsSolid name solid) ∙ h

  normalize-sonic :
      sonic_match name ≡ some digits
      → int_of digits % 4 ≡ 0
      → normalize_interface_name (some name) ≡ eth_name (int_of digits / 4 + 1)
  unfolding normalize_raw
  normalize-sonic m e = unstripped (rw full (rw m (rw e)))

  normalize-linux :
      sonic_match name ≡ none
      → linux_match name ≡ some digits
      → normalize_interface_name (some name) ≡ eth_name (int_of digits)
  unfolding normalize_raw
  normalize-linux m k = unstripped (rw full (rw m (rw (k, normalize_other))))

  normalize-e_style :
      sonic_match name ≡ none
      → linux_match name ≡ none
      → e_style_match name ≡ some digits
      → normalize_interface_name (some name) ≡ eth_name (int_of digits)
  unfolding normalize_raw
  normalize-e_style m k l = unstripped (rw full (rw m (rw (k, normalize_other) (rw l))))

  normalize-vendor_style :
      sonic_match name ≡ none
      → linux_match name ≡ none
      → e_style_match name ≡ none
      → vendor_style_match name ≡ some digits
      → normalize_interface_name (some name) ≡ eth_name (int_of digits)
  unfolding normalize_raw
  normalize-vendor_style m k l v =
      unstripped (rw full (rw m (rw (k, normalize_other) (rw l (rw v)))))

pub normalize-eth_name : (n : ℕ) → normalize_interface_name (some (eth_name n)) ≡ eth_name n
normalize-eth_name n =
    normalize-linux (eth_name n) (show n) (eth_name-IsSolid n) (unfold eth_name in refl)
      (sonic_match-eth_name n) (linux_match-eth_name n)
    ∙ ap eth_name (int_of-show n)

-- SONiC numbers its ports by lanes: EthernetX with X a multiple of four is port X / 4 + 1.
pub normalize-ethernet_name :
    (n : ℕ) → n % 4 ≡ 0 → normalize_interface_name (some (ethernet_name n)) ≡ eth_name (n / 4 + 1)
normalize-ethernet_name n h =
    normalize-sonic (ethernet_name n) (show n) (ethernet_name-IsSolid n)
      (unfold ethernet_name in refl) (sonic_match-ethernet_name n) (rw (int_of-show n) h)
    ∙ ap (λ k. eth_name (k / 4 + 1)) (int_of-show n)

pub normalize-e_style_name : (m n : ℕ) → normalize_interface_name (some (e_style m n)) ≡ eth_name n
normalize-e_style_name m n =
    normalize-e_style (e_style m n) (show n) (e_style-IsSolid m n) refl (sonic_match-e_style m n)
      (linux_match-e_style m n) (e_style_match-e_style m n)
    ∙ ap eth_name (int_of-show n)

pub normalize-vendor_style_name :
    (m n : ℕ) → normalize_interface_name (some (vendor_style m n)) ≡ eth_name n
normalize-vendor_style_name m n =
    normalize-vendor_style (vendor_style m n) (show n) (vendor_style-IsSolid m n) refl
      (sonic_match-vendor_style m n) (linux_match-vendor_style m n) (e_style_match-vendor_style m n)
      (vendor_style_match-vendor_style m n)
    ∙ ap eth_name (int_of-show n)

-- For every port n from 1 on and every chassis number m, the four spellings ethn, em-n,
-- ethernet-m/n and EthernetX, with X = 4 (n - 1), normalize to ethn.
pub normalize_spellings :
    (m n : ℕ)
    → 1 ≤ n
    → (normalize_interface_name (some (eth_name n)) ≡ eth_name n)
      × (normalize_interface_name (some (e_style m n)) ≡ eth_name n)
      × (normalize_interface_name (some (vendor_style m n)) ≡ eth_name n)
      × (normalize_interface_name (some (ethernet_name ((n - 1) * 4))) ≡ eth_name n)
normalize_spellings m n h = (
  normalize-eth_name n,
  normalize-e_style_name m n,
  normalize-vendor_style_name m n,
  normalize-ethernet_name ((n - 1) * 4) (omega arith) ∙ ap eth_name (omega arith),
)

pub to_linux-normalize :
    (name : Text) (n : ℕ)
    → normalize_interface_name (some name) ≡ eth_name n
    → to_linux_interface (some name) ≡ eth_name n
unfolding to_linux_interface
to_linux-normalize name n h =
    rw (h, to_linux_interface) (rw (linux_match-eth_name n) (ap eth_name (int_of-show n)))

pub to_sonic-normalize :
    (name : Text) (n : ℕ)
    → 1 ≤ n
    → normalize_interface_name (some name) ≡ eth_name n
    → to_sonic_interface (some name) ≡ ethernet_name ((n - 1) * 4)
unfolding to_sonic_interface
to_sonic-normalize name n pos h =
    rw (h, to_sonic_interface) (rw (linux_match-eth_name n) (rw (int_of-show n) (ground arith)))

-- For every port n from 1 on, the SONiC label of ethn converts back to ethn, and the Linux label of
-- EthernetX, X = 4 (n - 1), converts back to EthernetX.
pub to_linux-to_sonic :
    (n : ℕ)
    → 1 ≤ n
    → (to_linux_interface (some (to_sonic_interface (some (eth_name n)))) ≡ eth_name n)
      × (to_sonic_interface (some (to_linux_interface (some (ethernet_name ((n - 1) * 4)))))
          ≡ ethernet_name ((n - 1) * 4))
to_linux-to_sonic n h =
    let spellings = normalize_spellings 1 n h in
    (
      rw (to_sonic-normalize (eth_name n) n h spellings.0)
          (to_linux-normalize (ethernet_name ((n - 1) * 4)) n spellings.3),
      rw (to_linux-normalize (ethernet_name ((n - 1) * 4)) n spellings.3)
          (to_sonic-normalize (eth_name n) n h spellings.0),
    )
