-- ===== src/Faults/Recovery.antt =====
-- What recover_all reports and leaves (FaultInjector.recover_all of netopsbench/platform/faults/injector.py).
use net_ops_bench.Prelude.{
  ◌≡◌, refl, sym, ap, subst, ◌∙◌, Bool, true, false, Option, none, some, List, [], ◌∷◌, ◌++◌, codes,
  length, arith, if◌then◌else◌, lookup, Outcome, returned, raised,
}
use mathlib.Core.List.{append-nil, append_assoc}
use net_ops_bench.Faults.{
  Values, ActiveFault, to_dict, RecoveryResult, Progress, note, unrecovered, noted, recover_with,
  recover_typed, recover_each, recover_all,
}

-- The faults whose result, in the same place, does not say that they have recovered.
unfoldable pub left_over :
    {V : Type 0} → List (ActiveFault V) → List (RecoveryResult V) → List (ActiveFault V)
left_over [] results = []
left_over (fault ∷ rest) [] = []
left_over (fault ∷ rest) (result ∷ results) =
    let others = left_over rest results in if result.recovered then others else fault ∷ others

module _ {V W : Type 0} (values : Values V)
    (recovery : V → Option (ActiveFault V → W → Outcome (RecoveryResult V) × W)) where
  -- One result was noted.
  abbrev IsNoted : ActiveFault V → Progress values recovery → Progress values recovery × W → Type 0
  IsNoted fault progress out =
      (result : RecoveryResult V) × (out.0 ≡ note values recovery fault result progress)

  noted-IsNoted :
      (fault : ActiveFault V) (type_ : V) (progress : Progress values recovery)
      (out : Outcome (RecoveryResult V) × W)
      → IsNoted fault progress (noted values recovery fault type_ progress out)
  unfolding noted
  noted-IsNoted fault type_ progress (raised e, w) = (unrecovered values recovery type_, refl)
  noted-IsNoted fault type_ progress (returned result, w) = (result, refl)

  recover_with-IsNoted :
      (fault : ActiveFault V) (type_ : V) (progress : Progress values recovery) (w : W)
      (recover : Option (ActiveFault V → W → Outcome (RecoveryResult V) × W))
      → IsNoted fault progress (recover_with values recovery fault type_ progress w recover)
  unfolding recover_with
  recover_with-IsNoted fault type_ progress w none = (unrecovered values recovery type_, refl)
  recover_with-IsNoted fault type_ progress w (some recover) =
      noted-IsNoted fault type_ progress (recover fault w)

  recover_typed-IsNoted :
      (fault : ActiveFault V) (progress : Progress values recovery) (w : W) (type_ : Option V)
      → IsNoted fault progress (recover_typed values recovery fault progress w type_)
  unfolding recover_typed
  recover_typed-IsNoted fault progress w none =
      (unrecovered values recovery values.none_value, refl)
  recover_typed-IsNoted fault progress w (some type_) =
      recover_with-IsNoted fault type_ progress w (recovery type_)

  -- Results for some faults, and those of them that are left over, behind what there was.
  abbrev IsFollowedUp :
      List (ActiveFault V) → Progress values recovery → Progress values recovery → Type 0
  IsFollowedUp faults before after =
      (results : List (RecoveryResult V)) × (length results ≡ length faults)
      × (after.0 ≡ before.0 ++ results)
      × (after.1 ≡ before.1 ++ left_over faults results)

  note-IsFollowedUp :
      (fault : ActiveFault V) (rest : List (ActiveFault V)) (result : RecoveryResult V)
      (before after : Progress values recovery)
      → IsFollowedUp rest (note values recovery fault result before) after
      → IsFollowedUp (fault ∷ rest) before after
  unfolding note left_over
  note-IsFollowedUp fault rest result before after h = (
    result ∷ h.0,
    omega (arith, h.1),
    h.2 ∙ append_assoc before.0 (result ∷ []) h.0,
    h.3 ∙ kept result.recovered,
  )
    where
      kept :
          (b : Bool)
          → (if b then before.1 else before.1 ++ (fault ∷ [])) ++ left_over rest h.0
            ≡ before.1 ++ (if b then left_over rest h.0 else fault ∷ left_over rest h.0)
      kept true = refl
      kept false = append_assoc before.1 (fault ∷ []) (left_over rest h.0)

  recover_each-IsFollowedUp :
      (faults : List (ActiveFault V)) (progress : Progress values recovery) (w : W)
      → IsFollowedUp faults progress (recover_each values recovery faults progress w).0
  unfolding recover_each left_over
  recover_each-IsFollowedUp [] progress w =
      ([], refl, sym (append-nil progress.0), sym (append-nil progress.1))
  recover_each-IsFollowedUp (fault ∷ rest) progress w =
      let step : Progress values recovery × W =
        recover_typed values recovery fault progress w
          (lookup (codes "type") (to_dict values fault)) in
      let one =
        recover_typed-IsNoted fault progress w (lookup (codes "type") (to_dict values fault)) in
      note-IsFollowedUp fault rest one.0 progress
        (recover_each values recovery rest step.0 step.1).0
        (subst (λ p. IsFollowedUp rest p (recover_each values recovery rest step.0 step.1).0) one.1
          (recover_each-IsFollowedUp rest step.0 step.1))

  -- recover_all gives one result for each active fault, in their order, whatever the recoveries do or
  -- raise, and leaves active exactly the faults whose result does not say that they have recovered.
  pub recover_all-left_over :
      (active_faults : List (ActiveFault V)) (w : W)
      → let progress : Progress values recovery = (recover_all values recovery active_faults w).0 in
        (length progress.0 ≡ length active_faults)
        × (progress.1 ≡ left_over active_faults progress.0)
  unfolding recover_all
  recover_all-left_over active_faults w =
      let out = recover_each-IsFollowedUp active_faults ([], []) w in
      (ap length out.2 ∙ out.1, out.3 ∙ ap (left_over active_faults) (sym out.2))
