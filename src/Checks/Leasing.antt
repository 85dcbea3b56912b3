-- ===== src/Checks/Leasing.antt =====
-- Runs of a lease pool (netopsbench/platform/simulator/runtime.py).
use Prim.Native.Nat.{max}
use net_ops_bench.Prelude.{
  ℕ, ◌+◌, ◌-◌, ◌≤◌, ◌<◌, ◌≡◌, refl, subst, true, false, not, some, [], ◌∷◌, codes, ◌==◌, returned,
  raised, All, arith, ◌⊎◌, lookup, text_eq, none,
}
use net_ops_bench.Leases.{
  WarmRuntime, Runtimes, LeasePool, new_record, set_leased, count_where, acquire, reap_orphans,
  drain, is_stale, active_deadlines, select, next_wait_timeout, runtime_error,
}
use net_ops_bench.Leases.Soundness.{is_held, is_usable, IsSound, empty-IsSound, acquire-IsSound}
use net_ops_bench.Leases.Runs.{Reach, stay, after_step, reaps, Reach-IsSound, Reach-never_again}
use net_ops_bench.Leases.Leasing.{acquire-exclusive}
use net_ops_bench.Leases.Episode.{Runner, Backend, prepare, finish}
use net_ops_bench.Leases.Returning.{held, episode-returns}
use net_ops_bench.Leases.Reaping.{reap_and_drain, next_wait_timeout-bounds}

-- Two runtimes at most; its teardown fails.
abbrev setting : Runtimes ℕ
setting = record {
  max_active_runtimes = 2;
  orphan_lease_ttl = 100;
  provision = λ scale w. (returned tt, w + 1);
  stop_traffic = λ id w. (returned tt, w);
  teardown = λ id w. (raised runtime_error, w);
}

abbrev start : LeasePool ℕ
start = record { runtimes = []; next_id = 0; world = 0 }

abbrev leased : WarmRuntime
leased = set_leased 105 (new_record 0 (codes "s"))

abbrev one_out : LeasePool ℕ
one_out = record { runtimes = (codes "s", leased ∷ []) ∷ []; next_id = 1; world = 1 }

abbrev one : WarmRuntime
one = new_record 0 (codes "s")

acquired : acquire setting 5 5 9 (codes "s") start ≡ (returned (some one), one_out)
unfolding acquire lookup text_eq
acquired = refl

acquire-exclusive_example :
    (count_where (is_held 0) start.runtimes ≡ 0)
    × ((1 ≤ count_where (is_usable 0) start.runtimes) ⊎ (one.id ≡ start.next_id))
    × (count_where (is_held 0) one_out.runtimes ≡ 1)
acquire-exclusive_example =
    acquire-exclusive setting 5 5 9 (codes "s") start one_out one (empty-IsSound setting 0) acquired

-- The first runtime is leased, reaped when its time is over, and cannot be torn down.
abbrev reaped : LeasePool ℕ
reaped = reap_orphans setting 200 one_out

run : Reach setting one_out reaped
run = after_step {middle = one_out} stay (reaps 200)

one_out-IsSound : IsSound setting one_out
one_out-IsSound =
    subst (λ out. IsSound setting out.1) acquired
      (acquire-IsSound setting 5 5 9 (codes "s") start (empty-IsSound setting 0))

Reach-IsSound_example : IsSound setting reaped
Reach-IsSound_example =
    Reach-IsSound setting {before = one_out} {after = reaped} one_out-IsSound run

one_is_revoked : (0 < reaped.next_id) × (count_where (is_usable 0) reaped.runtimes ≤ 0)
unfolding reap_orphans count_where
one_is_revoked = (omega arith, omega arith)

second_acquired :
    (acquire setting 300 300 900 (codes "s") reaped).0 ≡ returned (some (new_record 1 (codes "s")))
unfolding acquire lookup text_eq
second_acquired = refl

Reach-never_again_example : (1 == 0) ≡ false
Reach-never_again_example =
    Reach-never_again setting 0 reaped reaped one_is_revoked stay 300 300 900 (codes "s")
      (new_record 1 (codes "s")) second_acquired

reap_and_drain_example :
    (count_where (is_stale 200) (reap_orphans setting 200 one_out).runtimes ≡ 0)
    × (count_where (λ r. not r.quarantined) (drain setting (λ _. true) one_out).1.runtimes ≡ 0)
reap_and_drain_example = reap_and_drain setting 200 one_out

next_wait_timeout-bounds_example :
    (0 < next_wait_timeout 90 5 one_out.runtimes)
    × (next_wait_timeout 90 5 one_out.runtimes ≤ 90)
    × All
        (λ deadline. next_wait_timeout 90 5 one_out.runtimes ≤ max 10000 (deadline - 5))
        (active_deadlines 5 (select (λ _. true) one_out.runtimes))
next_wait_timeout-bounds_example = next_wait_timeout-bounds 90 5 one_out.runtimes (omega arith)

-- The topology of the leased runtime is not that of the scenario, so the first preparation raises.
abbrev runner : Runner ℕ ℕ ℕ
runner = record {
  require_topology = λ scenario id w. (raised runtime_error, w);
  recover_fault = λ id w. (returned [], w);
  wait_after_recovery = λ id w. (returned tt, w);
  clear_baseline = λ id w. (returned tt, w);
  check_health = λ id w. (returned 0, w);
  ensure_services = λ id w. (returned tt, w);
  traffic_is_complete = λ id w. (returned true, w);
  stop_traffic = λ id w. (returned tt, w);
  setup_traffic = λ scenario id w. (returned tt, w);
  has_baseline = λ scenario id w. (returned true, w);
  gate_errors = λ id w. (returned 0, w);
  store_baseline = λ scenario id w. (returned tt, w);
  prepare_delegate = λ scenario id w. (returned 7, w);
  finish_delegate = λ broken id w. (raised runtime_error, w);
  call_delegate = λ action id w. (returned 8, w);
}

abbrev backend : Backend ℕ
backend = record { leases = start; leased = none; has_delegate = false }

episode-returns_example :
    let after : Backend ℕ =
      (finish setting runner false (prepare setting runner 5 5 9 (codes "s") 3 backend).1).1 in
    ((id : ℕ) → held id after.leases ≤ held id backend.leases) × (after.leased ≡ none)
episode-returns_example = episode-returns setting runner 5 5 9 (codes "s") 3 false backend refl
