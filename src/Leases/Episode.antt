-- ===== src/Leases/Episode.antt =====
-- One environment on a leased runtime: RuntimeEpisodeBackend of
-- netopsbench/platform/simulator/runtime.py.
use net_ops_bench.Prelude.{
  ℕ, Bool, true, false, not, ◌||◌, Option, none, some, List, [], ◌∷◌, Text, codes, text_eq, any,
  ◌==◌, if◌then◌else◌, Exn, Outcome, returned, raised, Action, pure, throw, ◌>>=◌, ◌>>◌,
}
use net_ops_bench.Leases.{
  WarmRuntime, Runtimes, LeasePool, runtime_error, quarantine, release, refresh, acquire,
}

-- What is done to the runtime with the given identity: the executor, the health checks, the traffic and
-- the incident backend of the code. `recover_fault` returns which recoveries succeeded, and
-- `gate_errors` and `check_health` how many errors there are.
pub record Runner (S O W : Type 0) : Type 0 where
  pub require_topology : S → ℕ → Action W (Unit {0})
  pub recover_fault : ℕ → Action W (List Bool)
  pub wait_after_recovery : ℕ → Action W (Unit {0})
  pub clear_baseline : ℕ → Action W (Unit {0})
  pub check_health : ℕ → Action W ℕ
  pub ensure_services : ℕ → Action W (Unit {0})
  pub traffic_is_complete : ℕ → Action W Bool
  pub stop_traffic : ℕ → Action W (Unit {0})
  pub setup_traffic : S → ℕ → Action W (Unit {0})
  pub has_baseline : S → ℕ → Action W Bool
  pub gate_errors : ℕ → Action W ℕ
  pub store_baseline : S → ℕ → Action W (Unit {0})
  pub prepare_delegate : S → ℕ → Action W O
  pub finish_delegate : Bool → ℕ → Action W (Unit {0})
  pub call_delegate : Text → ℕ → Action W O

-- The backend, with the pool that it shares.
pub record Backend (W : Type 0) : Type 0 where
  pub leases : LeasePool W
  pub leased : Option WarmRuntime
  pub has_delegate : Bool

abbrev pub baseline_not_ready : Exn
baseline_not_ready = record {
  error_type = codes "_BaselineNotReadyError";
  message = codes "baseline";
}

abbrev pub is_baseline_error : Exn → Bool
is_baseline_error e = text_eq e.error_type (codes "_BaselineNotReadyError")

module _ {S O W : Type 0} (setting : Runtimes W) (runner : Runner S O W) where
  abbrev pub put_world : Backend W → W → Backend W
  put_world backend w = record backend { leases = record backend.leases { world = w } }

  -- Recoveries that failed raise; after any recovery the runtime settles.
  recovered_or_raise : ℕ → List Bool → Action W (Unit {0})
  recovered_or_raise id [] = pure tt
  recovered_or_raise id (r ∷ rest) =
      if any not (r ∷ rest)
      then throw runtime_error
      else do runner.wait_after_recovery id; runner.clear_baseline id

  -- _health_errors: errors are checked again after a repair.
  repaired : ℕ → ℕ → Action W ℕ
  repaired id errors =
      if errors == 0
      then pure 0
      else do runner.ensure_services id; runner.clear_baseline id; runner.check_health id

  unfoldable pub health_errors : ℕ → Action W ℕ
  unfolding repaired
  health_errors id = runner.check_health id >>= repaired id

  traffic_or_restart : S → ℕ → Bool → Action W (Unit {0})
  traffic_or_restart scenario id complete =
      if complete
      then pure tt
      else do runner.stop_traffic id; runner.setup_traffic scenario id; runner.clear_baseline id

  gated : S → ℕ → ℕ → Action W (Unit {0})
  gated scenario id errors =
      if errors == 0 then runner.store_baseline scenario id else throw baseline_not_ready

  captured : S → ℕ → Bool → Action W (Unit {0})
  unfolding gated
  captured scenario id cached =
      if cached then pure tt else runner.gate_errors id >>= gated scenario id

  -- _ensure_baseline
  unfoldable pub ensure_baseline : S → ℕ → Action W (Unit {0})
  unfolding captured
  ensure_baseline scenario id = runner.has_baseline scenario id >>= captured scenario id

  healthy_or_raise : ℕ → Action W (Unit {0})
  healthy_or_raise errors = if errors == 0 then pure tt else throw runtime_error

  -- The second try block of prepare, up to the delegate.
  unfoldable pub bring_up : S → ℕ → Action W (Unit {0})
  unfolding recovered_or_raise health_errors healthy_or_raise traffic_or_restart ensure_baseline
  bring_up scenario id = do
    recovery ← runner.recover_fault id
    recovered_or_raise id recovery
    errors ← health_errors id
    healthy_or_raise errors
    complete ← runner.traffic_is_complete id
    traffic_or_restart scenario id complete
    ensure_baseline scenario id

  unfoldable pub quarantined_or_raise :
      Bool → Outcome (Unit {0}) × LeasePool W → Outcome (Unit {0}) × LeasePool W
  quarantined_or_raise requested (raised e, pool) = (raised e, pool)
  quarantined_or_raise true (returned _, pool) = (returned tt, pool)
  quarantined_or_raise false (returned _, pool) = (raised runtime_error, pool)

  -- The end of finish: the lease is given back, or the runtime is quarantined; a failure that was not
  -- asked for is raised then.
  unfoldable pub give_back :
      Bool → Bool → WarmRuntime → LeasePool W → Outcome (Unit {0}) × LeasePool W
  unfolding quarantined_or_raise
  give_back requested broken r pool =
      if broken
      then quarantined_or_raise requested (quarantine setting r pool)
      else (returned tt, release setting r pool)

  abbrev pub has_raised : {A : Type 0} → Outcome A → Bool
  has_raised (returned _) = false
  has_raised (raised e) = true

  abbrev pub broken_after : Bool → Outcome (Unit {0}) × W → Bool × W
  broken_after broken (out, w) = (broken || has_raised out, w)

  -- Whether the runtime is broken after its delegate has finished, and the world then.
  unfoldable pub finish_runner : Bool → Bool → ℕ → W → Bool × W
  finish_runner broken has_delegate id w =
      if has_delegate then broken_after broken (runner.finish_delegate broken id w) else (broken, w)

  abbrev pub emptied : Outcome (Unit {0}) × LeasePool W → Outcome (Unit {0}) × Backend W
  emptied (out, pool) = (out, record { leases = pool; leased = none; has_delegate = false })

  unfoldable pub finish_leased :
      Bool → Backend W → Option WarmRuntime → Outcome (Unit {0}) × Backend W
  unfolding give_back finish_runner
  finish_leased broken backend none = (returned tt, backend)
  finish_leased broken backend (some r) =
      let (now_broken, w) = finish_runner broken backend.has_delegate r.id backend.leases.world in
      emptied (give_back broken now_broken r (record backend.leases { world = w }))

  unfoldable pub finish : Bool → Action (Backend W) (Unit {0})
  unfolding finish_leased
  finish broken backend = finish_leased broken backend backend.leased

  -- An exception of the second try block: the runtime is kept for a retry only when its baseline was not
  -- ready.
  unfoldable pub baseline_failed :
      Exn → Outcome (Unit {0}) × Backend W → Outcome (Option O) × Backend W
  baseline_failed e (raised f, backend) = (raised f, backend)
  baseline_failed e (returned _, backend) = (raised e, backend)

  unfoldable pub failed : Exn → Backend W → Outcome (Option O) × Backend W
  unfolding baseline_failed finish
  failed e backend =
      if is_baseline_error e then baseline_failed e (finish false backend) else (raised e, backend)

  unfoldable pub delegated : Backend W → Outcome O × W → Outcome (Option O) × Backend W
  unfolding failed
  delegated backend (raised e, w) = failed e (put_world backend w)
  delegated backend (returned o, w) = (returned (some o), put_world backend w)

  unfoldable pub brought_up :
      S → ℕ → Backend W → Outcome (Unit {0}) × W → Outcome (Option O) × Backend W
  unfolding delegated failed
  brought_up scenario id backend (raised e, w) = failed e (put_world backend w)
  brought_up scenario id backend (returned _, w) =
      delegated (record (put_world backend w) { has_delegate = true })
        (runner.prepare_delegate scenario id w)

  unfoldable pub topology_checked :
      S → WarmRuntime → Backend W → Outcome (Unit {0}) × W → Outcome (Option O) × Backend W
  unfolding brought_up bring_up release
  topology_checked scenario r backend (raised e, w) = (
    raised e,
    record backend { leases = release setting r (put_world backend w).leases; leased = none },
  )
  topology_checked scenario r backend (returned _, w) =
      brought_up scenario r.id (put_world backend w) (bring_up scenario r.id w)

  unfoldable pub leased_or_wait :
      S → Backend W → Outcome (Option WarmRuntime) × LeasePool W → Outcome (Option O) × Backend W
  unfolding topology_checked
  leased_or_wait scenario backend (raised e, pool) = (raised e, record backend { leases = pool })
  leased_or_wait scenario backend (returned none, pool) =
      (returned none, record backend { leases = pool })
  leased_or_wait scenario backend (returned (some r), pool) =
      topology_checked scenario r (record backend { leases = pool; leased = some r })
        (runner.require_topology scenario r.id pool.world)

  -- prepare, from the pass of acquire that ends its wait: `none` if that pass has to wait too.
  unfoldable pub prepare : ℕ → ℕ → ℕ → Text → S → Action (Backend W) (Option O)
  unfolding leased_or_wait acquire
  prepare reaped_at now deadline scale scenario backend =
      leased_or_wait scenario backend (acquire setting reaped_at now deadline scale backend.leases)

  called : Backend W → Outcome O × W → Outcome O × Backend W
  called backend (out, w) = (out, put_world backend w)

  call_leased : Text → Backend W → Option WarmRuntime → Outcome O × Backend W
  unfolding called
  call_leased action backend none = (raised runtime_error, backend)
  call_leased action backend (some r) =
      if backend.has_delegate
      then called backend (runner.call_delegate action r.id backend.leases.world)
      else (raised runtime_error, backend)

  unfoldable pub call_tool : Text → Action (Backend W) O
  unfolding call_leased
  call_tool action backend = call_leased action backend backend.leased

  refresh_leased : ℕ → ℕ → Backend W → Option WarmRuntime → Backend W
  unfolding refresh
  refresh_leased now min_time backend none = backend
  refresh_leased now min_time backend (some r) = record backend {
    leases = refresh setting now min_time r backend.leases;
  }

  unfoldable pub refresh_lease : ℕ → ℕ → Backend W → Backend W
  unfolding refresh_leased
  refresh_lease now min_time backend = refresh_leased now min_time backend backend.leased
