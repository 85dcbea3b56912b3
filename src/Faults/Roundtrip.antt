-- ===== src/Faults/Roundtrip.antt =====
-- A fault and its payload (ActiveFault.from_dict and to_dict of netopsbench/platform/faults/models.py).
use net_ops_bench.Prelude.{
  ◌≡◌, refl, sym, ap, ◌∙◌, Bool, true, false, none, [], ◌∷◌, ◌++◌, All, Text, codes, text_eq,
  text_eq_comm, if◌then◌else◌, Dict, lookup, put, remove, IsFunctional, returned,
}
use mathlib.Core.List.{append-nil, append_assoc}
use net_ops_bench.Faults.{
  Values, ActiveFault, update_with, put_unless_none, to_dict, fault_of, typed, from_dict,
}

-- The dict has not this key.
abbrev pub IsAbsent {ℓ} : {V : Type ℓ} → Text → Dict V → Type 0
IsAbsent k d = All (λ e. text_eq k e.0 ≡ false) d

module _ {V : Type 0} where
  put-append : (k : Text) (v : V) (d : Dict V) → IsAbsent k d → put k v d ≡ d ++ ((k, v) ∷ [])
  unfolding put
  put-append k v [] h = refl
  put-append k v ((i, w) ∷ d) h =
      rw (text_eq_comm i k ∙ h.0) (ap (λ t. (i, w) ∷ t) (put-append k v d h.1))

  lookup-absent : (k : Text) (d : Dict V) → IsAbsent k d → lookup k d ≡ none
  unfolding lookup
  lookup-absent k [] h = refl
  lookup-absent k ((i, w) ∷ d) h = rw (text_eq_comm i k ∙ h.0) (lookup-absent k d h.1)

  remove-absent : (k : Text) (d : Dict V) → IsAbsent k d → remove k d ≡ d
  unfolding remove
  remove-absent k [] h = refl
  remove-absent k ((i, w) ∷ d) h =
      rw (text_eq_comm i k ∙ h.0) (ap (λ t. (i, w) ∷ t) (remove-absent k d h.1))

  -- No key of the second dict is one of the first.
  abbrev AreApart : Dict V → Dict V → Type 0
  AreApart d [] = Unit
  AreApart d ((k, v) ∷ other) = IsAbsent k d × AreApart d other

  snoc-IsAbsent :
      (k j : Text) (v : V) (d : Dict V)
      → IsAbsent k d
      → text_eq k j ≡ false
      → IsAbsent k (d ++ ((j, v) ∷ []))
  snoc-IsAbsent k j v [] h e = (e, tt)
  snoc-IsAbsent k j v (x ∷ d) h e = (h.0, snoc-IsAbsent k j v d h.1 e)

  snoc-AreApart :
      (k : Text) (v : V) (d other : Dict V)
      → AreApart d other
      → IsAbsent k other
      → AreApart (d ++ ((k, v) ∷ [])) other
  snoc-AreApart k v d [] h hk = tt
  snoc-AreApart k v d ((j, w) ∷ other) h hk =
      (snoc-IsAbsent j k v d h.0 (text_eq_comm j k ∙ hk.0), snoc-AreApart k v d other h.1 hk.1)

  update_with-append :
      (d other : Dict V) → AreApart d other → IsFunctional other → update_with d other ≡ d ++ other
  unfolding update_with IsFunctional
  update_with-append d [] h f = sym (append-nil d)
  update_with-append d ((k, v) ∷ other) h f = rw (put-append k v d h.0) (
      update_with-append (d ++ ((k, v) ∷ [])) other (snoc-AreApart k v d other h.1 f.0) f.1
      ∙ append_assoc d ((k, v) ∷ []) other)

  cons-AreApart :
      (k : Text) (v : V) (d other : Dict V)
      → IsAbsent k other
      → AreApart d other
      → AreApart ((k, v) ∷ d) other
  cons-AreApart k v d [] h hd = tt
  cons-AreApart k v d ((j, w) ∷ other) h hd =
      ((text_eq_comm j k ∙ h.0, hd.0), cons-AreApart k v d other h.1 hd.1)

  nil-AreApart : (other : Dict V) → AreApart [] other
  nil-AreApart [] = tt
  nil-AreApart ((j, w) ∷ other) = (tt, nil-AreApart other)

-- Metadata that could have been left by from_dict: no key twice, and none of the five fields.
pub record IsRest {V : Type 0} (metadata : Dict V) : Type 0 where
  pub functional : IsFunctional metadata
  pub no_type : IsAbsent (codes "type") metadata
  pub no_device : IsAbsent (codes "device") metadata
  pub no_interface : IsAbsent (codes "interface") metadata
  pub no_success : IsAbsent (codes "success") metadata
  pub no_error : IsAbsent (codes "error") metadata

module _ {V : Type 0} (values : Values V) (fault : ActiveFault V) where
  head_of : Bool → Bool → Dict V
  head_of device_is_none interface_is_none =
      let base : Dict V =
        (codes "type", fault.fault_type)
        ∷ (codes "success", fault.success)
        ∷ (codes "error", fault.error)
        ∷ [] in
      let with_device : Dict V =
        if device_is_none then base else put (codes "device") fault.device base in
      if interface_is_none then with_device else put (codes "interface") fault.interface with_device

  apart_of_rest : (a b : Bool) → IsRest fault.metadata → AreApart (head_of a b) fault.metadata
  unfolding head_of put text_eq
  apart_of_rest a b r = by_cases a b
    where
      with_rest :
          (d : Dict V)
          → AreApart d fault.metadata
          → AreApart
              ((codes "type", fault.fault_type)
                ∷ (codes "success", fault.success)
                ∷ (codes "error", fault.error)
                ∷ d)
              fault.metadata
      with_rest d h =
          cons-AreApart (codes "type") fault.fault_type
            ((codes "success", fault.success) ∷ (codes "error", fault.error) ∷ d) fault.metadata
            r.no_type
            (cons-AreApart (codes "success") fault.success ((codes "error", fault.error) ∷ d)
              fault.metadata r.no_success
              (cons-AreApart (codes "error") fault.error d fault.metadata r.no_error h))

      by_cases : (a b : Bool) → AreApart (head_of a b) fault.metadata
      by_cases true true = with_rest [] (nil-AreApart fault.metadata)
      by_cases true false = with_rest ((codes "interface", fault.interface) ∷ []) (
          cons-AreApart (codes "interface") fault.interface [] fault.metadata r.no_interface
            (nil-AreApart fault.metadata))
      by_cases false true = with_rest ((codes "device", fault.device) ∷ []) (
          cons-AreApart (codes "device") fault.device [] fault.metadata r.no_device
            (nil-AreApart fault.metadata))
      by_cases false false =
          with_rest ((codes "device", fault.device) ∷ (codes "interface", fault.interface) ∷ []) (
            cons-AreApart (codes "device") fault.device ((codes "interface", fault.interface) ∷ [])
              fault.metadata r.no_device
              (cons-AreApart (codes "interface") fault.interface [] fault.metadata r.no_interface
                (nil-AreApart fault.metadata)))

  from_head :
      (a b : Bool)
      → (a ≡ true → fault.device ≡ values.none_value)
      → (b ≡ true → fault.interface ≡ values.none_value)
      → IsRest fault.metadata
      → from_dict values (head_of a b ++ fault.metadata) ≡ returned fault
  unfolding head_of from_dict typed fault_of lookup remove put text_eq
  from_head true true hd hi r =
      rw
        (
          remove-absent (codes "type") fault.metadata r.no_type,
          lookup-absent (codes "device") fault.metadata r.no_device,
          remove-absent (codes "device") fault.metadata r.no_device,
          lookup-absent (codes "interface") fault.metadata r.no_interface,
          remove-absent (codes "interface") fault.metadata r.no_interface,
          remove-absent (codes "success") fault.metadata r.no_success,
          remove-absent (codes "error") fault.metadata r.no_error,
        )
        (ap (λ x. returned (record fault { device = x; interface = values.none_value }))
            (sym (hd refl))
          ∙ ap (λ x. returned (record fault { interface = x })) (sym (hi refl)))
  from_head true false hd hi r =
      rw
        (
          remove-absent (codes "type") fault.metadata r.no_type,
          lookup-absent (codes "device") fault.metadata r.no_device,
          remove-absent (codes "device") fault.metadata r.no_device,
          remove-absent (codes "interface") fault.metadata r.no_interface,
          remove-absent (codes "success") fault.metadata r.no_success,
          remove-absent (codes "error") fault.metadata r.no_error,
        )
        (ap (λ x. returned (record fault { device = x })) (sym (hd refl)))
  from_head false true hd hi r =
      rw
        (
          remove-absent (codes "type") fault.metadata r.no_type,
          remove-absent (codes "device") fault.metadata r.no_device,
          lookup-absent (codes "interface") fault.metadata r.no_interface,
          remove-absent (codes "interface") fault.metadata r.no_interface,
          remove-absent (codes "success") fault.metadata r.no_success,
          remove-absent (codes "error") fault.metadata r.no_error,
        )
        (ap (λ x. returned (record fault { interface = x })) (sym (hi refl)))
  from_head false false hd hi r =
      rw
        (
          remove-absent (codes "type") fault.metadata r.no_type,
          remove-absent (codes "device") fault.metadata r.no_device,
          remove-absent (codes "interface") fault.metadata r.no_interface,
          remove-absent (codes "success") fault.metadata r.no_success,
          remove-absent (codes "error") fault.metadata r.no_error,
        )
        (refl)

  to_dict_head :
      to_dict values fault
      ≡ update_with
          (head_of (values.is_none fault.device) (values.is_none fault.interface))
          fault.metadata
  unfolding to_dict put_unless_none head_of
  to_dict_head = refl

  -- A fault whose metadata has no key twice and none of the five fields is got back from its payload,
  -- if None is the only value that is taken for None.
  pub from_dict-to_dict :
      ((v : V) → values.is_none v ≡ true → v ≡ values.none_value)
      → IsRest fault.metadata
      → from_dict values (to_dict values fault) ≡ returned fault
  from_dict-to_dict only r =
      let a : Bool = values.is_none fault.device in
      let b : Bool = values.is_none fault.interface in
      ap (from_dict values) (
        to_dict_head
        ∙ update_with-append (head_of a b) fault.metadata (apart_of_rest a b r) r.functional)
      ∙ from_head a b (only fault.device) (only fault.interface) r
