-- ===== src/Topology/Collector.antt =====
-- The collector's address is a free host of the management network, and is found where there is room
-- (netopsbench/platform/topology/planning.py).
use net_ops_bench.Prelude.{
  ℕ, ◌+◌, ◌≤◌, ◌<◌, ◌≡◌, refl, sym, ap, subst, ◌∙◌, Bool, true, false, ◌&&◌, List, [], ◌∷◌, map,
  All, any, ltb, ◌==◌, arith, if◌then◌else◌, Bool-cases, inl, inr, Outcome, returned, raised,
}
use net_ops_bench.Topology.{
  Network, ManagementAddressing, broadcast_address, in_network, is_reserved, ipv4_length,
  ipv6_length, ip_address, and_then, checked_host, host_ip, check_offsets, create_addressing,
  is_allocated, unallocated, validate_collector, is_host, fallback_collector, after_last,
  preferred_or, default_collector,
}

-- What returns, returns something with the property.
abbrev Only : {A : Type 0} → (A → Type 0) → Outcome A → Type 0
Only P (returned a) = P a
Only P (raised e) = Unit

and_then-Only :
    {A B : Type 0} (P : B → Type 0) (o : Outcome A) (k : A → Outcome B)
    → ((a : A) → Only P (k a))
    → Only P (and_then o k)
and_then-Only P (returned a) k h = h a
and_then-Only P (raised e) k h = tt

-- A host address that no device has.
abbrev pub IsFree : ManagementAddressing → ℕ → Type 0
IsFree a ip =
    (a.network.network_address < ip)
    × (ip < broadcast_address a.network)
    × (is_allocated a ip ≡ false)

validate_collector-IsFree :
    (a : ManagementAddressing) (candidate : ℕ) → Only (IsFree a) (validate_collector a candidate)
unfolding validate_collector checked_host unallocated is_reserved broadcast_address
validate_collector-IsFree a candidate = elim (Bool-cases (in_network a.network candidate)) [
  | inr out ↦ rw out tt
  | inl inside ↦ elim (Bool-cases (is_reserved a.network candidate)) [
    | inl reserved ↦ rw (inside, reserved) tt
    | inr host ↦ elim (Bool-cases (is_allocated a candidate)) [
      | inl taken ↦ rw (inside, host, taken) tt
      | inr free ↦
          rw (inside, host, free) (ground (arith, inside, host), ground (arith, inside, host), free)
    ]
  ]
]

default_collector-IsFree :
    (a : ManagementAddressing) (last_device_offset : ℕ) (prefer_offset_200 : Bool)
    → Only (IsFree a) (default_collector a last_device_offset prefer_offset_200)
unfolding default_collector preferred_or after_last fallback_collector
default_collector-IsFree a last prefer =
    either (prefer && ltb last 200) _ _
      (and_then-Only (IsFree a) (ip_address (a.network.network_address + 200)) (preferred_or a last)
        (λ preferred.
          either (is_host a.network preferred) _ _ (validate_collector-IsFree a preferred) behind))
      behind
  where
    behind : Only (IsFree a) (after_last a last)
    behind =
        and_then-Only (IsFree a) (ip_address (a.network.network_address + last + 1))
          (fallback_collector a) (λ candidate. validate_collector-IsFree a _)

    either :
        (b : Bool) (x y : Outcome ℕ)
        → Only (IsFree a) x
        → Only (IsFree a) y
        → Only (IsFree a) (if b then x else y)
    either true x y hx hy = hx
    either false x y hx hy = hy

-- Neither the first nor the last address.
abbrev pub IsHostOffset : Network → ℕ → Type 0
IsHostOffset n offset = (0 < offset) × (offset + 1 < n.size)

checked_offset :
    (n : Network) (offset : ℕ) (found : ℕ)
    → host_ip n offset ≡ returned found
    → IsHostOffset n offset
unfolding host_ip checked_host is_reserved broadcast_address
checked_offset n offset found h = ground (arith, h)

check_offsets-All :
    (n : Network) (offsets : List ℕ) (a b : ManagementAddressing)
    → check_offsets n offsets a ≡ returned b
    → All (IsHostOffset n) offsets × (a ≡ b)
unfolding check_offsets
check_offsets-All n [] a b h = (tt, ap (λ o. returned_or a o) h)
  where
    returned_or : ManagementAddressing → Outcome ManagementAddressing → ManagementAddressing
    returned_or other (returned x) = x
    returned_or other (raised e) = other
check_offsets-All n (offset ∷ rest) a b h =
    checked (host_ip n offset) refl h (λ k. check_offsets-All n rest a b k)
  where
    checked :
        (out : Outcome ℕ)
        → host_ip n offset ≡ out
        → and_then out (λ _. check_offsets n rest a) ≡ returned b
        → (check_offsets n rest a ≡ returned b → All (IsHostOffset n) rest × (a ≡ b))
        → All (IsHostOffset n) (offset ∷ rest) × (a ≡ b)
    checked (raised e) f h others = ground (arith, h)
    checked (returned ip) f h others = ((checked_offset n offset ip f, (others h).0), (others h).1)

any_of_map :
    (base ip : ℕ) (offsets : List ℕ)
    → any (λ offset. base + offset == ip) offsets
      ≡ any (λ x. x == ip) (map (λ offset. base + offset) offsets)
any_of_map base ip [] = refl
any_of_map base ip (o ∷ rest) = ground (arith, any_of_map base ip rest)

-- If the addressing is made and the default collector returned, then every offset of a device is that of
-- a host, and the collector's address is inside the network, neither its first nor its last, and no
-- device's.
pub default_collector-free :
    (n : Network) (offsets : List ℕ) (a : ManagementAddressing) (last_device_offset : ℕ)
    (prefer_offset_200 : Bool) (ip : ℕ)
    → create_addressing n offsets ≡ returned a
    → default_collector a last_device_offset prefer_offset_200 ≡ returned ip
    → All (IsHostOffset n) offsets
      × (n.network_address < ip)
      × (ip < broadcast_address n)
      × (any (λ offset. n.network_address + offset == ip) offsets ≡ false)
unfolding create_addressing
default_collector-free n offsets a last prefer ip made found =
    let made_of =
      check_offsets-All n offsets (record { network = n; allocated_offsets = offsets }) a made in
    let free : IsFree a ip =
      subst (Only (IsFree a)) found (default_collector-IsFree a last prefer) in
    let same : IsFree (record { network = n; allocated_offsets = offsets }) ip =
      subst (λ x. IsFree x ip) (sym made_of.1) free in
    (made_of.0, same.0, same.1, any_of_map n.network_address ip offsets ∙ same.2)

not_allocated :
    (base last c : ℕ) (offsets : List ℕ)
    → last < c
    → All (λ offset. offset ≤ last) offsets
    → any (λ ip. ip == base + c) (map (λ offset. base + offset) offsets) ≡ false
not_allocated base last c [] h hs = refl
not_allocated base last c (o ∷ rest) h hs =
    ground (arith, not_allocated base last c rest h hs.1, hs.0)

inside_of_offset :
    (n : Network) (c : ℕ)
    → n.network_address + n.size ≤ ipv4_length
    → c + 1 < n.size
    → in_network n (n.network_address + c) ≡ true
inside_of_offset n c space h = ground (arith, space, h)

unreserved :
    (n : Network) {last : ℕ} (c : ℕ)
    → last < c
    → c + 1 < n.size
    → is_reserved n (n.network_address + c) ≡ false
unfolding is_reserved broadcast_address
unreserved n c h k = ground (arith, h, k)

validate_free :
    (n : Network) (offsets : List ℕ) (last c : ℕ)
    → All (λ offset. offset ≤ last) offsets
    → n.network_address + n.size ≤ ipv4_length
    → last < c
    → c + 1 < n.size
    → validate_collector
        (record { network = n; allocated_offsets = offsets })
        (n.network_address + c)
      ≡ returned (n.network_address + c)
unfolding validate_collector checked_host unallocated
validate_free n offsets last c hs space above below =
    rw
      (
        inside_of_offset n c space below,
        unreserved n c above below,
        not_allocated n.network_address last c offsets above hs,
      )
      refl

host_of_offset :
    (n : Network) (c : ℕ)
    → n.network_address + n.size ≤ ipv4_length
    → 0 < c
    → is_host n (n.network_address + c) ≡ ltb (c + 1) n.size
unfolding is_host is_reserved broadcast_address
host_of_offset n c space h = ground (arith, space, h)

after_last-found :
    (n : Network) (offsets : List ℕ) (last : ℕ)
    → All (λ offset. offset ≤ last) offsets
    → last + 2 < n.size
    → n.network_address + n.size ≤ ipv4_length
    → after_last (record { network = n; allocated_offsets = offsets }) last
      ≡ returned (n.network_address + (last + 1))
unfolding after_last fallback_collector
after_last-found n offsets last hs room space =
    rw (behind, in_space, host)
      (validate_free n offsets last (last + 1) hs space (omega arith) (omega (arith, room)))
  where
    behind : n.network_address + last + 1 ≡ n.network_address + (last + 1)
    behind = omega arith

    in_space : ltb (n.network_address + (last + 1)) ipv6_length ≡ true
    in_space = ground (arith, room, space)

    host : is_host n (n.network_address + (last + 1)) ≡ true
    host = host_of_offset n (last + 1) space (omega arith) ∙ ground (arith, room)

below_space : (ip : ℕ) → ip < ipv6_length → ltb ip ipv6_length ≡ true
below_space ip h = ground (arith, h)

preferred_or-found :
    (n : Network) (offsets : List ℕ) (last : ℕ)
    → All (λ offset. offset ≤ last) offsets
    → last + 2 < n.size
    → n.network_address + n.size ≤ ipv4_length
    → last < 200
    → preferred_or
        (record { network = n; allocated_offsets = offsets })
        last
        (n.network_address + 200)
      ≡ returned (n.network_address + (if ltb 201 n.size then 200 else last + 1))
unfolding preferred_or
preferred_or-found n offsets last hs room space low =
    rw (host_of_offset n 200 space (omega arith)) (chosen (ltb 201 n.size) refl)
  where
    a : ManagementAddressing
    a = record { network = n; allocated_offsets = offsets }

    chosen :
        (b : Bool)
        → ltb 201 n.size ≡ b
        → (if b then validate_collector a (n.network_address + 200) else after_last a last)
          ≡ returned (n.network_address + (if b then 200 else last + 1))
    chosen true e = validate_free n offsets last 200 hs space low (ground (arith, e))
    chosen false e = after_last-found n offsets last hs room space

-- If no device's offset is above the last one, and there is room for one more host behind it, the
-- default collector is found: the host at offset 200 where it is preferred, lies behind the devices and
-- is a host of the network, and else the one behind the last device. The network ends within the
-- IPv4 addresses.
pub default_collector-found :
    (n : Network) (offsets : List ℕ) (last_device_offset : ℕ) (prefer_offset_200 : Bool)
    → All (λ offset. offset ≤ last_device_offset) offsets
    → last_device_offset + 2 < n.size
    → n.network_address + n.size ≤ ipv4_length
    → default_collector
        (record { network = n; allocated_offsets = offsets })
        last_device_offset
        prefer_offset_200
      ≡ returned (
          n.network_address
          + (if prefer_offset_200 && ltb last_device_offset 200
              then (if ltb 201 n.size then 200 else last_device_offset + 1)
              else last_device_offset + 1))
unfolding default_collector
default_collector-found n offsets last prefer hs room space = chosen (prefer && ltb last 200) refl
  where
    a : ManagementAddressing
    a = record { network = n; allocated_offsets = offsets }

    chosen :
        (b : Bool)
        → prefer && ltb last 200 ≡ b
        → (if b
            then and_then (ip_address (n.network_address + 200)) (preferred_or a last)
            else after_last a last)
          ≡ returned (
              n.network_address
              + (if b then (if ltb 201 n.size then 200 else last + 1) else last + 1))
    chosen false e = after_last-found n offsets last hs room space
    chosen true e =
        rw (below_space (n.network_address + 200) (omega (arith, space)))
          (preferred_or-found n offsets last hs room space (ground (arith, e)))
