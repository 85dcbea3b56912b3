-- ===== src/Faults.antt =====
-- The active faults of an injector: ActiveFault of netopsbench/platform/faults/models.py, the tracker of
-- netopsbench/platform/faults/services/tracking.py, and FaultInjector.recover_all of
-- netopsbench/platform/faults/injector.py.
pub mod Roundtrip
pub mod Recovery
use net_ops_bench.Prelude.{
  Bool, true, false, not, Option, none, some, List, [], ◌∷◌, ◌++◌, Text, codes, keep, if◌then◌else◌,
  Dict, lookup, lookup_or, put, remove, Exn, Outcome, returned, raised,
}

-- The values of a payload: None, True, False and the texts among them.
pub record Values (V : Type 0) : Type 0 where
  pub none_value : V
  pub true_value : V
  pub false_value : V
  pub text_value : Text → V
  pub is_none : V → Bool

pub record ActiveFault (V : Type 0) : Type 0 where
  pub fault_type : V
  pub device : V
  pub interface : V
  pub success : V
  pub error : V
  pub metadata : Dict V

abbrev pub key_error : Exn
key_error = record { error_type = codes "KeyError"; message = codes "type" }

-- d.update(other)
unfoldable pub update_with {ℓ} : {V : Type ℓ} → Dict V → Dict V → Dict V
update_with d [] = d
update_with d ((k, v) ∷ other) = update_with (put k v d) other

module _ {V : Type 0} (values : Values V) where
  -- payload[key] = value, if value is not None
  unfoldable pub put_unless_none : Text → V → Dict V → Dict V
  put_unless_none key value payload =
      if values.is_none value then payload else put key value payload

  unfoldable pub to_dict : ActiveFault V → Dict V
  unfolding put_unless_none update_with
  to_dict fault =
      update_with
        (put_unless_none (codes "interface") fault.interface (
          put_unless_none (codes "device") fault.device (
            (codes "type", fault.fault_type)
            ∷ (codes "success", fault.success)
            ∷ (codes "error", fault.error)
            ∷ [])))
        fault.metadata

  -- What follows metadata.pop("type").
  unfoldable pub fault_of : V → Dict V → ActiveFault V
  fault_of type_ d0 =
      let d1 : Dict V = remove (codes "device") d0 in
      let d2 : Dict V = remove (codes "interface") d1 in
      let d3 : Dict V = remove (codes "success") d2 in
      record {
        fault_type = type_;
        device = lookup_or values.none_value (lookup (codes "device") d0);
        interface = lookup_or values.none_value (lookup (codes "interface") d1);
        success = lookup_or values.true_value (lookup (codes "success") d2);
        error = lookup_or values.none_value (lookup (codes "error") d3);
        metadata = remove (codes "error") d3;
      }

  unfoldable pub typed : Dict V → Option V → Outcome (ActiveFault V)
  unfolding fault_of
  typed payload none = raised key_error
  typed payload (some type_) = returned (fault_of type_ (remove (codes "type") payload))

  unfoldable pub from_dict : Dict V → Outcome (ActiveFault V)
  unfolding typed
  from_dict payload = typed payload (lookup (codes "type") payload)

  tracked :
      List (ActiveFault V)
      → Outcome (ActiveFault V)
      → Outcome (ActiveFault V) × List (ActiveFault V)
  tracked active_faults (raised e) = (raised e, active_faults)
  tracked active_faults (returned fault) = (returned fault, active_faults ++ (fault ∷ []))

  -- FaultTracker.track of a payload
  unfoldable pub track :
      Dict V → List (ActiveFault V) → Outcome (ActiveFault V) × List (ActiveFault V)
  unfolding tracked from_dict
  track payload active_faults = tracked active_faults (from_dict payload)

  unfoldable pub track_residual :
      Dict V → Text → List (ActiveFault V) → Outcome (ActiveFault V) × List (ActiveFault V)
  unfolding track update_with
  track_residual payload error active_faults =
      track
        (update_with payload (
          (codes "success", values.false_value)
          ∷ (codes "error", values.text_value error)
          ∷ (codes "residual_mutation", values.true_value)
          ∷ []))
        active_faults

  unfoldable pub remove_faults :
      (ActiveFault V → Bool) → List (ActiveFault V) → List (ActiveFault V)
  remove_faults predicate active_faults = keep (λ fault. not (predicate fault)) active_faults

-- The fields of a result that are read.
pub record RecoveryResult (V : Type 0) : Type 0 where
  pub result_type : V
  pub recovered : Bool

-- `recovery` is the registry: the recover_active_fault of the spec of a type, if there is one. It acts on
-- a world and may raise.
module _ {V W : Type 0} (values : Values V)
    (recovery : V → Option (ActiveFault V → W → Outcome (RecoveryResult V) × W)) where
  abbrev pub Progress : Type 0
  Progress = List (RecoveryResult V) × List (ActiveFault V)

  -- results.append(...), and remaining_faults.append(...) unless it recovered
  unfoldable pub note : ActiveFault V → RecoveryResult V → Progress → Progress
  note fault result (results, remaining) =
      (results ++ (result ∷ []), if result.recovered then remaining else remaining ++ (fault ∷ []))

  unfoldable pub unrecovered : V → RecoveryResult V
  unrecovered type_ = record { result_type = type_; recovered = false }

  unfoldable pub noted :
      ActiveFault V → V → Progress → Outcome (RecoveryResult V) × W → Progress × W
  unfolding note unrecovered
  noted fault type_ progress (raised e, w) = (note fault (unrecovered type_) progress, w)
  noted fault type_ progress (returned result, w) = (note fault result progress, w)

  unfoldable pub recover_with :
      ActiveFault V
      → V
      → Progress
      → W
      → Option (ActiveFault V → W → Outcome (RecoveryResult V) × W)
      → Progress × W
  unfolding noted note unrecovered
  recover_with fault type_ progress w none = (note fault (unrecovered type_) progress, w)
  recover_with fault type_ progress w (some recover) = noted fault type_ progress (recover fault w)

  -- fault["type"], whose absence is caught
  unfoldable pub recover_typed : ActiveFault V → Progress → W → Option V → Progress × W
  unfolding recover_with note unrecovered
  recover_typed fault progress w none = (note fault (unrecovered values.none_value) progress, w)
  recover_typed fault progress w (some type_) = recover_with fault type_ progress w (recovery type_)

  unfoldable pub recover_each : List (ActiveFault V) → Progress → W → Progress × W
  unfolding recover_typed to_dict
  recover_each [] progress w = (progress, w)
  recover_each (fault ∷ rest) progress w =
      let (after, v) =
        recover_typed fault progress w (lookup (codes "type") (to_dict values fault)) in
      recover_each rest after v

  -- The results, the faults that stay active, and the world.
  unfoldable pub recover_all : List (ActiveFault V) → W → Progress × W
  unfolding recover_each
  recover_all active_faults w = recover_each active_faults ([], []) w
