-- ===== src/Checks/Faulting.antt =====
-- Faults, payloads and recoveries (netopsbench/platform/faults).
use net_ops_bench.Prelude.{
  ◌≡◌, refl, true, false, Option, none, some, [], ◌∷◌, Text, codes, text_eq, is_empty, length,
  IsFunctional, Outcome, returned, raised, arith,
}
use net_ops_bench.Faults.{
  Values, ActiveFault, RecoveryResult, from_dict, to_dict, recover_all, key_error,
}
use net_ops_bench.Faults.Roundtrip.{IsRest, from_dict-to_dict}
use net_ops_bench.Faults.Recovery.{left_over, recover_all-left_over}

-- Values are texts, and None is the empty one.
abbrev values : Values Text
values = record {
  none_value = [];
  true_value = codes "True";
  false_value = codes "False";
  text_value = λ t. t;
  is_none = λ t. is_empty t;
}

abbrev fault : ActiveFault Text
fault = record {
  fault_type = codes "link_down";
  device = codes "leaf1";
  interface = [];
  success = codes "True";
  error = [];
  metadata = (codes "mtu", codes "1400") ∷ [];
}

only_none : (v : Text) → is_empty v ≡ true → v ≡ []
only_none [] h = refl
only_none (c ∷ v) h = ground (arith, h)

fault-IsRest : IsRest fault.metadata
unfolding IsFunctional text_eq
fault-IsRest = record {
  functional = (tt, tt);
  no_type = (refl, tt);
  no_device = (refl, tt);
  no_interface = (refl, tt);
  no_success = (refl, tt);
  no_error = (refl, tt);
}

from_dict-to_dict_example : from_dict values (to_dict values fault) ≡ returned fault
from_dict-to_dict_example = from_dict-to_dict values fault only_none fault-IsRest

-- The recovery of a link raises; nothing else is known.
abbrev recovery : Text → Option (ActiveFault Text → Text → Outcome (RecoveryResult Text) × Text)
recovery t = elim (text_eq t (codes "link_down")) [
  | true ↦ some (λ f w. (raised key_error, w))
  | false ↦ none
]

recover_all-left_over_example :
    (length (recover_all values recovery (fault ∷ fault ∷ []) []).0.0 ≡ 2)
    × ((recover_all values recovery (fault ∷ fault ∷ []) []).0.1
        ≡ left_over (fault ∷ fault ∷ []) (recover_all values recovery (fault ∷ fault ∷ []) []).0.0)
recover_all-left_over_example = recover_all-left_over values recovery (fault ∷ fault ∷ []) []
