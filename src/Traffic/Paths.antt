-- ===== src/Traffic/Paths.antt =====
-- The additions of a path name each switch once (netopsbench/platform/traffic/estimator.py), and the
-- counters of rates.
use net_ops_bench.Prelude.{
  ℕ, ◌≡◌, Bool, true, false, Option, none, some, List, [], ◌∷◌, Text, text_eq, length,
  if◌then◌else◌, Dict, lookup, lookup_or, IsFunctional, empty-IsFunctional, put-IsFunctional,
}
use net_ops_bench.Traffic.{
  Rates, Devices, add_rate, add_endpoint, add_each, spread, names, pod_of, aggs_of_pod, spread_pod,
  through_pods, through_fabric, between, switch_path_pps,
}
use net_ops_bench.Traffic.Placing.{lookup_or-put}

if-IsFunctional :
    {V : Type 0} (b : Bool) (x y : Dict V)
    → IsFunctional x
    → IsFunctional y
    → IsFunctional (if b then x else y)
if-IsFunctional true x y hx hy = hx
if-IsFunctional false x y hx hy = hy

module _ {R : Type 0} (rates : Rates R) (devices : Devices) where
  add_each-IsFunctional :
      (part : R) (switches : List Text) (d : Dict R)
      → IsFunctional d
      → IsFunctional (add_each rates part switches d)
  unfolding add_each add_rate
  add_each-IsFunctional part [] d h = h
  add_each-IsFunctional part (s ∷ rest) d h =
      add_each-IsFunctional part rest (add_rate rates s part d) (put-IsFunctional s _ d h)

  spread-IsFunctional :
      (pps : R) (switches : List Text) (d : Dict R)
      → IsFunctional d
      → IsFunctional (spread rates pps switches d)
  unfolding spread
  spread-IsFunctional pps switches d h =
      add_each-IsFunctional (rates.divided pps (length switches)) switches d h

  add_endpoint-IsFunctional :
      (pps : R) (endpoint : Option Text) (d : Dict R)
      → IsFunctional d
      → IsFunctional (add_endpoint rates devices pps endpoint d)
  unfolding add_endpoint add_rate
  add_endpoint-IsFunctional pps none d h = h
  add_endpoint-IsFunctional pps (some s) d h = if-IsFunctional _ _ d (put-IsFunctional s _ d h) h

  spread_pod-IsFunctional :
      (pps : R) (pod : Option ℕ) (d : Dict R)
      → IsFunctional d
      → IsFunctional (spread_pod rates devices pps pod d)
  unfolding spread_pod
  spread_pod-IsFunctional pps none d h = h
  spread_pod-IsFunctional pps (some pod) d h =
      spread-IsFunctional pps (aggs_of_pod rates devices (some pod)) d h

  through_fabric-IsFunctional :
      (pps : R) (src dst : Text) (d : Dict R)
      → IsFunctional d
      → IsFunctional (through_fabric rates devices pps src dst d)
  unfolding through_fabric through_pods
  through_fabric-IsFunctional pps src dst d h =
      let from_src = spread_pod rates devices pps (pod_of devices src) d in
      let hs = spread_pod-IsFunctional pps (pod_of devices src) d h in
      if-IsFunctional _ _ _ (spread-IsFunctional pps (names devices.spines) d h) (
        if-IsFunctional _ _ _ hs (
          spread-IsFunctional pps (names devices.cores)
            (spread_pod rates devices pps (pod_of devices dst) from_src)
            (spread_pod-IsFunctional pps (pod_of devices dst) from_src hs)))

  between-IsFunctional :
      (pps : R) (src dst : Option Text) (d : Dict R)
      → IsFunctional d
      → IsFunctional (between rates devices pps src dst d)
  unfolding between
  between-IsFunctional pps none dst d h = h
  between-IsFunctional pps (some src) none d h = h
  between-IsFunctional pps (some src) (some dst) d h =
      if-IsFunctional _ d (through_fabric rates devices pps src dst d) h
        (through_fabric-IsFunctional pps src dst d h)

  pub switch_path_pps-IsFunctional :
      (src dst : Option Text) (pps : R) → IsFunctional (switch_path_pps rates devices src dst pps)
  unfolding switch_path_pps
  switch_path_pps-IsFunctional src dst pps =
      let first = add_endpoint rates devices pps src [] in
      between-IsFunctional pps src dst (add_endpoint rates devices pps dst first) (
        add_endpoint-IsFunctional pps dst first
          (add_endpoint-IsFunctional pps src [] (empty-IsFunctional R)))

module _ {R : Type 0} (rates : Rates R) where
  abbrev pub rate_of : Dict R → Text → R
  rate_of counter name = lookup_or rates.nothing (lookup name counter)

  pub rate_of-raised :
      (counter : Dict R) (k name : Text) (pps : R)
      → rate_of (add_rate rates k pps counter) name
        ≡ (if text_eq k name then rates.plus (rate_of counter k) pps else rate_of counter name)
  unfolding add_rate
  rate_of-raised counter k name pps =
      lookup_or-put rates.nothing (rates.plus (rate_of counter k) pps) k name counter
