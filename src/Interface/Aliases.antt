-- ===== src/Interface/Aliases.antt =====
-- When two labels count as one interface.
use net_ops_bench.Prelude.{
  ℕ, ◌≤◌, ◌≡◌, refl, ap, ◌∙◌, sym, ◌↔◌, ◌⊎◌, inl, inr, true, false, ◌||◌, Option, some, List, [],
  ◌∷◌, ◌++◌, Text, codes, text_eq, text_eq_iff, text_eq_refl, text_eq_comm, is_empty, strip,
  strip-IsSolid, show, int_of, int_of-show, any, arith, leb, All, Bool-cases, All-append,
}
use net_ops_bench.Interface.{
  linux_match, eth_name, normalize_interface_name, to_linux_interface, to_sonic_interface, add,
  port_aliases, interface_aliases, intersects, are_interfaces_equivalent, port_spellings,
}
use net_ops_bench.Interface.Matching.{linux_match-eth_name}
use net_ops_bench.Interface.Canonical.{
  eth_name-IsSolid, normalize-eth_name, normalize_spellings, to_linux-normalize, to_sonic-normalize,
}

any-text_eq :
    (P : Text → Type 0) (names : List Text) (name : Text)
    → All P names
    → any (text_eq name) names ≡ true
    → P name
any-text_eq P [] name h e = absurd (ground arith)
any-text_eq P (x ∷ names) name h e = elim (Bool-cases (text_eq name x)) [
  | inl same ↦ rw ((text_eq_iff name x).0 same) h.0
  | inr other ↦ any-text_eq P names name h.1 (ground arith)
]

-- Two sets that meet have a member with the properties of both.
pub intersects-common :
    (left right : List Text) (P Q : Text → Type 0)
    → All P left
    → All Q right
    → intersects left right ≡ true
    → (name : Text) × P name × Q name
unfolding intersects
intersects-common [] right P Q hl hr e = absurd (ground arith)
intersects-common (x ∷ left) right P Q hl hr e = elim (Bool-cases (any (text_eq x) right)) [
  | inl found ↦ (x, hl.0, any-text_eq Q right x hr found)
  | inr other ↦ intersects-common left right P Q hl.1 hr (ground arith)
]

any-false : (names : List Text) → any (λ name. any (text_eq name) []) names ≡ false
any-false [] = refl
any-false (x ∷ names) = any-false names

intersects-cons :
    (left right : List Text) (y : Text)
    → intersects left (y ∷ right) ≡ (any (text_eq y) left || intersects left right)
unfolding intersects
intersects-cons [] right y = refl
intersects-cons (x ∷ left) right y = ground (arith, intersects-cons left right y, text_eq_comm x y)

intersects_comm : (left right : List Text) → intersects left right ≡ intersects right left
unfolding intersects
intersects_comm [] right = sym (any-false right)
intersects_comm (x ∷ left) right =
    rw (intersects_comm left right) (sym (intersects-cons right left x))

-- Equivalence does not depend on the order of the two labels.
pub are_interfaces_equivalent_comm :
    (left right : Option Text)
    → are_interfaces_equivalent left right ≡ are_interfaces_equivalent right left
unfolding are_interfaces_equivalent
are_interfaces_equivalent_comm left right = ground (
  arith,
  text_eq_comm (normalize_interface_name left) (normalize_interface_name right),
  intersects_comm (interface_aliases left) (interface_aliases right),
)

-- Every spelling of a port stands in its alias set, and every alias is a spelling of the port.
abbrev IsPort : ℕ → Text → Type 0
IsPort n name = normalize_interface_name (some name) ≡ eth_name n

All-add :
    (P : Text → Type 0) (name : Text) (names : List Text)
    → P name
    → All P names
    → All P (add name names)
All-add P [] names h hs = hs
All-add P (c ∷ name) names h hs = (h, hs)

All-interface_aliases :
    (P : Text → Type 0) (name : Text)
    → strip name ≡ name
    → P name
    → P (normalize_interface_name (some name))
    → P (to_sonic_interface (some name))
    → P (to_linux_interface (some name))
    → All P (port_aliases (linux_match (normalize_interface_name (some name))))
    → All P (interface_aliases (some name))
unfolding interface_aliases
All-interface_aliases P name e h normal sonic linux ports =
    rw e (elim (Bool-cases (is_empty name)) [
      | inl blank ↦ rw blank tt
      | inr full ↦ rw full (
        h,
        All-add P _ _ normal
            (All-append P _ _ ports (All-add P _ _ sonic (All-add P _ [] linux tt))),
      )
    ])

port_spellings-IsPort : (n : ℕ) → 1 ≤ n → All (IsPort n) (port_spellings n)
unfolding port_spellings show
port_spellings-IsPort n h =
    let (eth, e_form, vendor, sonic) = normalize_spellings 1 n h in
    (eth, (e_form, (vendor, (sonic, tt))))

port_aliases-IsPort : (n : ℕ) → 1 ≤ n → All (IsPort n) (port_aliases (some (show n)))
unfolding port_aliases
port_aliases-IsPort n h = rw (int_of-show n) (elim (Bool-cases (leb 1 n)) [
  | inl positive ↦ rw positive (port_spellings-IsPort n h)
  | inr other ↦ absurd (ground arith)
])

interface_aliases-IsPort : (n : ℕ) → 1 ≤ n → All (IsPort n) (interface_aliases (some (eth_name n)))
interface_aliases-IsPort n h =
    let own = normalize-eth_name n in
    let spellings = normalize_spellings 1 n h in
    All-interface_aliases (IsPort n) (eth_name n) (strip-IsSolid _ (eth_name-IsSolid n)) own
      (rw own own) (rw (to_sonic-normalize _ n h own) spellings.3)
      (rw (to_linux-normalize _ n own) own)
      (rw own (rw (linux_match-eth_name n) (port_aliases-IsPort n h)))

abbrev drop_three : Text → Text
drop_three (_ ∷ _ ∷ _ ∷ rest) = rest
drop_three _ = []

eth_name-injective : (m n : ℕ) → eth_name m ≡ eth_name n → m ≡ n
unfolding eth_name
eth_name-injective m n e = sym (int_of-show m) ∙ ap (λ t. int_of (drop_three t)) e ∙ int_of-show n

equivalent_cases :
    (left right : Option Text)
    → are_interfaces_equivalent left right ≡ true
    → (normalize_interface_name left ≡ normalize_interface_name right)
      ⊎ (intersects (interface_aliases left) (interface_aliases right) ≡ true)
unfolding are_interfaces_equivalent
equivalent_cases left right e =
    ground (arith, text_eq_iff (normalize_interface_name left) (normalize_interface_name right))

equivalent_refl : (n : ℕ) → are_interfaces_equivalent (some (eth_name n)) (some (eth_name n)) ≡ true
unfolding are_interfaces_equivalent eth_name
equivalent_refl n = rw (text_eq_refl (normalize_interface_name (some (codes "eth" ++ show n))))

-- Two ports are one interface exactly when their numbers are equal.
pub are_interfaces_equivalent_iff :
    (m n : ℕ)
    → 1 ≤ m
    → 1 ≤ n
    → (are_interfaces_equivalent (some (eth_name m)) (some (eth_name n)) ≡ true) ↔ (m ≡ n)
are_interfaces_equivalent_iff m n hm hn = (
  λ e. elim (equivalent_cases (some (eth_name m)) (some (eth_name n)) e) [
    | inl same ↦ eth_name-injective m n (sym (normalize-eth_name m) ∙ same ∙ normalize-eth_name n)
    | inr meet ↦
        let (name, p, q) =
          intersects-common _ _ (IsPort m) (IsPort n) (interface_aliases-IsPort m hm)
            (interface_aliases-IsPort n hn) meet in
        eth_name-injective m n (sym p ∙ q)
  ],
  λ e. rw e (equivalent_refl n),
)
