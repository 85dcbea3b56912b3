-- ===== src/Topology/Manifest/References.antt =====
-- What the validator of a canonical topology guarantees (netopsbench/models/topology.py).
use net_ops_bench.Prelude.{
  ◌≡◌, refl, sym, ap, subst, Bool, true, false, not, Option, none, some, List, [], ◌∷◌, Text,
  text_eq, text_eq_refl, is_empty, is_some, any, length, All, All-both, All-imp, ◌==◌,
  if◌then◌else◌, Outcome, returned, raised, arith, ◌⊎◌, inl, inr, Option-cases,
}
use net_ops_bench.Topology.{value_error, and_then}
use net_ops_bench.Topology.Manifest.{
  Device, LinkEndpoint, Link, Manifest, find_device, is_client, switches, clients, attached_names,
  client_attached_devices, set_of, names_of, by_name, require, for_each, have_no_duplicates,
  check_policy, check_endpoint, check_link, check_switch, check_attached,
  validate_topology_references,
}
use net_ops_bench.Topology.Manifest.Naming.{
  IsUnique, set_of-IsUnique, find_device-name, by_name-find_device, find_device-member,
  find_device-keep,
}
use net_ops_bench.Topology.Manifest.Addresses.{values_of, have_no_duplicates-IsUnique}

and_then-returned :
    {A : Type 0} (out : Outcome (Unit {0})) (k : Unit {0} → Outcome A) (a : A)
    → and_then out k ≡ returned a
    → (out ≡ returned tt) × (k tt ≡ returned a)
and_then-returned (returned tt) k a h = (refl, h)
and_then-returned (raised e) k a h = ground (arith, h)

require-returned : (b : Bool) → require b ≡ returned tt → b ≡ true
require-returned true h = refl
require-returned false h = ground (arith, h)

for_each-All :
    {A : Type 0} (check : A → Outcome (Unit {0})) (xs : List A)
    → for_each check xs ≡ returned tt
    → All (λ x. check x ≡ returned tt) xs
unfolding for_each
for_each-All check [] h = tt
for_each-All check (x ∷ xs) h =
    let r = and_then-returned (check x) (λ _. for_each check xs) tt h in
    (r.0, for_each-All check xs r.1)

-- The endpoint's device is in the manifest.
abbrev pub IsResolved : Manifest → LinkEndpoint → Type 0
IsResolved m e = (d : Device) × (find_device e.device m.devices ≡ some d) × (d.name ≡ e.device)

-- The client's switch is in the manifest, is no client, and is among the switches with clients.
abbrev pub IsAttached : Manifest → Device → Type 0
IsAttached m c =
    (s : Device) × (c.attached_switch ≡ some s.name)
    × (find_device s.name m.devices ≡ some s)
    × (is_client s.role ≡ false)
    × (find_device s.name (client_attached_devices m) ≡ some s)

check_endpoint-IsResolved :
    (m : Manifest) (e : LinkEndpoint)
    → IsUnique (names_of m.devices)
    → check_endpoint m.devices e ≡ returned tt
    → IsResolved m e
unfolding check_endpoint
check_endpoint-IsResolved m e u h = found (Option-cases (find_device e.device m.devices))
  where
    present : is_some (find_device e.device m.devices) ≡ true
    present =
        subst (λ o. is_some o ≡ true) (by_name-find_device e.device m.devices u)
          (require-returned (is_some (by_name e.device m.devices)) h)

    found :
        (find_device e.device m.devices ≡ none)
          ⊎ ((d : Device) × (find_device e.device m.devices ≡ some d))
        → IsResolved m e
    found (inl n) = absurd (ground (arith, present, n))
    found (inr (d, f)) = (d, f, find_device-name e.device m.devices d f)

-- The client's switch is among the names that are attached.
abbrev IsNamed : List Device → Device → Type 0
IsNamed cs c =
    (s : Text)
    → is_empty s ≡ false
    → c.attached_switch ≡ some s
    → any (text_eq s) (attached_names cs) ≡ true

clients-IsNamed : (cs : List Device) → All (IsNamed cs) cs
unfolding attached_names
clients-IsNamed [] = tt
clients-IsNamed (c ∷ cs) = (
  λ s h. here s h c.attached_switch,
  All-imp (IsNamed cs) (IsNamed (c ∷ cs)) cs
      (λ d there s h e. more s c.attached_switch (there s h e)) (clients-IsNamed cs),
)
  where
    with_switch : Option Text → List Text
    with_switch o = elim o [
      | none ↦ attached_names cs
      | some t ↦ if is_empty t then attached_names cs else t ∷ attached_names cs
    ]

    here :
        (s : Text)
        → is_empty s ≡ false
        → (o : Option Text) → o ≡ some s
        → any (text_eq s) (with_switch o) ≡ true
    here s h none e = ground (arith, e)
    here s h (some t) e =
        let same : s ≡ t = ground (arith, e) in
        rw (subst (λ y. is_empty y ≡ false) same h)
          (ground (arith, subst (λ y. text_eq s y ≡ true) same (text_eq_refl s)))

    more :
        (s : Text) (o : Option Text)
        → any (text_eq s) (attached_names cs) ≡ true
        → any (text_eq s) (with_switch o) ≡ true
    more s none e = e
    more s (some t) e = ground (arith, e)

-- What the check of one client's switch establishes.
IsSwitch : List Device → Option Text → Device → Type 0
IsSwitch ds o s =
    (o ≡ some s.name)
    × (find_device s.name ds ≡ some s)
    × (is_client s.role ≡ false)
    × (is_empty s.name ≡ false)

check_attached-inv :
    (ds : List Device) (o : Option Text)
    → IsUnique (names_of ds)
    → check_attached ds o ≡ returned tt
    → (s : Device) × IsSwitch ds o s
unfolding check_attached check_switch IsSwitch
check_attached-inv ds none u h = absurd (ground (arith, h))
check_attached-inv ds (some n) u h = named (is_empty n) refl h
  where
    switch_is :
        is_empty n ≡ false
        → (o : Option Device) → find_device n ds ≡ o
        → check_switch o ≡ returned tt
        → (s : Device) × IsSwitch ds (some n) s
    switch_is e none f k = absurd (ground (arith, k))
    switch_is e (some s) f k =
        let same : s.name ≡ n = find_device-name n ds s f in
        (
          s,
          (
            ap some (sym same),
            subst (λ y. find_device y ds ≡ some s) (sym same) f,
            ground (arith, require-returned (not (is_client s.role)) k),
            subst (λ y. is_empty y ≡ false) (sym same) e,
          ),
        )

    named :
        (b : Bool)
        → is_empty n ≡ b
        → (if b then raised value_error else check_switch (by_name n ds)) ≡ returned tt
        → (s : Device) × IsSwitch ds (some n) s
    named true e k = absurd (ground (arith, k))
    named false e k =
        switch_is e (find_device n ds) refl
          (subst (λ o. check_switch o ≡ returned tt) (by_name-find_device n ds u) k)

check_attached-IsAttached :
    (m : Manifest) (c : Device)
    → IsUnique (names_of m.devices)
    → check_attached m.devices c.attached_switch ≡ returned tt
    → IsNamed (clients m) c
    → IsAttached m c
unfolding client_attached_devices switches IsSwitch
check_attached-IsAttached m c u h is_named =
    let (s, (at, found, switch, filled)) = check_attached-inv m.devices c.attached_switch u h in
    (
      s,
      at,
      found,
      switch,
      find_device-keep s.name (λ d. any (text_eq d.name) (attached_names (clients m))) (switches m)
          s
          (find_device-keep s.name (λ d. not (is_client d.role)) m.devices s found
            (ground (arith, switch)))
          (is_named s.name filled at),
    )

-- Every check of an accepted manifest has passed.
checks-pass :
    (m : Manifest)
    → validate_topology_references m ≡ returned m
    → IsUnique (names_of m.devices)
      × (have_no_duplicates (λ d. d.mgmt_ip) m.devices ≡ returned tt)
      × (have_no_duplicates (λ d. d.data_ip) m.devices ≡ returned tt)
      × (have_no_duplicates (λ d. d.router_id) m.devices ≡ returned tt)
      × (for_each (check_link m.devices) m.links ≡ returned tt)
      × (for_each (λ c. check_attached m.devices c.attached_switch) (clients m) ≡ returned tt)
unfolding validate_topology_references
checks-pass m h =
    let ds : List Device = m.devices in
    let names : List Text = names_of ds in
    let check_clients : Outcome (Unit {0}) =
      for_each (λ c. check_attached ds c.attached_switch) (clients m) in
    let r1 = and_then-returned (require (length names == length (set_of names))) _ m h in
    let r2 = and_then-returned (have_no_duplicates (λ d. d.mgmt_ip) ds) _ m r1.1 in
    let r3 = and_then-returned (have_no_duplicates (λ d. d.data_ip) ds) _ m r2.1 in
    let r4 = and_then-returned (have_no_duplicates (λ d. d.router_id) ds) _ m r3.1 in
    let r5 = and_then-returned (check_policy m) _ m r4.1 in
    let r6 = and_then-returned (for_each (check_link ds) m.links) _ m r5.1 in
    let r7 = and_then-returned check_clients _ m r6.1 in
    let same = require-returned (length names == length (set_of names)) r1.0 in
    ((set_of-IsUnique names (ground (arith, same))).1, r2.0, r3.0, r4.0, r6.0, r7.0)

link-IsResolved :
    (m : Manifest) (link : Link)
    → IsUnique (names_of m.devices)
    → check_link m.devices link ≡ returned tt
    → IsResolved m link.left × IsResolved m link.right
unfolding check_link
link-IsResolved m link u h =
    let r =
      and_then-returned (check_endpoint m.devices link.left)
        (λ _. check_endpoint m.devices link.right) tt h in
    (check_endpoint-IsResolved m link.left u r.0, check_endpoint-IsResolved m link.right u r.1)

-- A manifest that the validator accepts is closed: looking a device up by its name finds that device,
-- both ends of each link are devices of the manifest, and each client is attached to a device of the
-- manifest that is no client and that is among the switches with clients.
pub validate-IsClosed :
    (m : Manifest)
    → validate_topology_references m ≡ returned m
    → All (λ d. find_device d.name m.devices ≡ some d) m.devices
      × All (λ link. IsResolved m link.left × IsResolved m link.right) m.links
      × All (IsAttached m) (clients m)
validate-IsClosed m h =
    let c = checks-pass m h in
    let is_checked : Device → Type 0 =
      λ d. check_attached m.devices d.attached_switch ≡ returned tt in
    (
      find_device-member m.devices c.0,
      All-imp (λ link. check_link m.devices link ≡ returned tt)
          (λ link. IsResolved m link.left × IsResolved m link.right) m.links
          (λ link k. link-IsResolved m link c.0 k)
          (for_each-All (check_link m.devices) m.links c.4),
      All-imp (λ d. is_checked d × IsNamed (clients m) d) (IsAttached m) (clients m)
          (λ d k. check_attached-IsAttached m d c.0 k.0 k.1)
          (All-both is_checked (IsNamed (clients m)) (clients m)
            (for_each-All (λ d. check_attached m.devices d.attached_switch) (clients m) c.5)
            (clients-IsNamed (clients m))),
    )

-- In a manifest that the validator accepts, no two devices have the same management address, the same
-- data address or the same router identity.
pub validate-IsUnique :
    (m : Manifest)
    → validate_topology_references m ≡ returned m
    → IsUnique (values_of (λ d. d.mgmt_ip) m.devices)
      × IsUnique (values_of (λ d. d.data_ip) m.devices)
      × IsUnique (values_of (λ d. d.router_id) m.devices)
validate-IsUnique m h =
    let c = checks-pass m h in
    (
      have_no_duplicates-IsUnique (λ d. d.mgmt_ip) m.devices c.1,
      have_no_duplicates-IsUnique (λ d. d.data_ip) m.devices c.2,
      have_no_duplicates-IsUnique (λ d. d.router_id) m.devices c.3,
    )
