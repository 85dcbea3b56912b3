-- ===== src/Checks/Serving.antt =====
-- Runs of the simulator service (netopsbench/platform/simulator/service.py).
use Prim.Native.Nat.{min}
use net_ops_bench.Prelude.{
  ℕ, ◌+◌, All, keep, not, ◌≡◌, refl, true, false, none, some, [], ◌∷◌, Text, codes, text_eq, arith,
  count_if, Dict, lookup, returned, IsFunctional, put,
}
use net_ops_bench.Service.{
  EnvironmentSlot, Manager, SimulatorService, is_tombstone, is_expired, max_terminal_tombstones,
  prune, create, step,
}
use net_ops_bench.Service.Popping.{is_fresh, is_popped, prune-oldest}
use net_ops_bench.Service.Ordering.{NotEarlier}
use net_ops_bench.Service.Runs.{creates, steps, run}
use net_ops_bench.Service.Endings.{IsTidy, IsRefused, run-IsTidy, step-ends}

-- Environments that end with their first step; the world counts what is done to them.
abbrev manager : Manager Text ℕ Text ℕ
manager = record {
  create = λ scenario w. (returned 7, w + 1);
  reset = λ h w. (returned true, w + 1);
  validate = λ action. some action;
  step = λ h action w. (returned true, w + 1);
  terminate_protocol = λ h w. (returned true, w + 1);
  close_environment = λ h w. (returned tt, w + 1);
  close = λ w. (returned tt, w + 1);
}

abbrev start : SimulatorService Text ℕ ℕ
start = record { scenarios = (codes "case", codes "scenario") ∷ []; environments = []; world = 0 }

abbrev running : SimulatorService Text ℕ ℕ
running = (create manager 10 (codes "e") (codes "case") start).1

abbrev ended : SimulatorService Text ℕ ℕ
ended = (step manager 20 (codes "e") (codes "look") running).1

first_step : step manager 20 (codes "e") (codes "look") running ≡ (returned true, ended)
unfolding step lookup create text_eq put
first_step = refl

other : (text_eq (codes "f") (codes "e") ≡ false) × Unit {0}
unfolding text_eq
other = (refl, tt)

step-ends_example :
    IsRefused manager (run manager (creates 30 (codes "f") (codes "case") ∷ []) ended) (
      step manager 40
        (codes "e")
        (codes "again")
        (run manager (creates 30 (codes "f") (codes "case") ∷ []) ended))
step-ends_example =
    step-ends manager 20 (codes "e") (codes "look") running ended first_step
      (creates 30 (codes "f") (codes "case") ∷ []) other 40 (codes "again")

start-IsTidy : IsTidy start.environments
unfolding IsFunctional
start-IsTidy = (tt, omega arith)

run-IsTidy_example :
    IsTidy
      (run manager
        (creates 1 (codes "e") (codes "case") ∷ steps 2 (codes "e") (codes "a") ∷ [])
        start).environments
run-IsTidy_example =
    run-IsTidy manager (creates 1 (codes "e") (codes "case") ∷ steps 2 (codes "e") (codes "a") ∷ [])
      start start-IsTidy

abbrev live : EnvironmentSlot ℕ
live = record { environment = some 7; case_id = codes "case"; terminal = false; terminal_at = none }

abbrev over : EnvironmentSlot ℕ
over = record { environment = none; case_id = codes "case"; terminal = true; terminal_at = some 5 }

abbrev slots : Dict (EnvironmentSlot ℕ)
slots = (codes "e", live) ∷ (codes "f", over) ∷ []

slots-IsFunctional : IsFunctional slots
unfolding IsFunctional text_eq
slots-IsFunctional = ((refl, tt), (tt, tt))

prune-oldest_example :
    (count_if (λ e. is_expired 100 e.1) (prune 100 slots) ≡ 0)
    × (count_if (λ e. is_tombstone e.1) (prune 100 slots)
        ≡ min max_terminal_tombstones (count_if (λ e. is_fresh 100 e.1) slots))
    × All
        (λ k. All (λ e. NotEarlier e k) (keep (is_popped 100 (prune 100 slots)) slots))
        (keep (λ e. is_tombstone e.1) (prune 100 slots))
    × All (λ e. lookup e.0 (prune 100 slots) ≡ some e.1) (keep (λ e. not (is_tombstone e.1)) slots)
prune-oldest_example = prune-oldest 100 slots slots-IsFunctional
