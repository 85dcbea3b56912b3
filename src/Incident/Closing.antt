-- ===== src/Incident/Closing.antt =====
-- Closing an incident: PreparedIncident.close, called any number of times.
use net_ops_bench.Prelude.{
  ◌≡◌, refl, Bool, true, false, ◌||◌, some, arith, codes, Outcome, returned, raised, gets, ◌>>=◌,
  if◌then◌else◌, Bool-cases, Option-cases, inl, inr,
}
use net_ops_bench.Incident.{
  is_broken, is_closed, is_not_started, closing, closed, broken, succeeded, failed, Setting,
  Incident, cleanup, close, finish_backend, finished, notify_close,
}
use net_ops_bench.Incident.Lifecycle.{IsSettled, close-IsSettled}

module _ {W : Type 0} (setting : Setting W) where
  notify_close-cleanup_status :
      (s : Incident W) → (notify_close setting s).1.cleanup_status ≡ s.cleanup_status
  unfolding notify_close
  notify_close-cleanup_status s = elim (Bool-cases s.close_notified) [
    | inl told ↦ rw told refl
    | inr untold ↦ elim (Option-cases setting.on_close) [
      | inl e ↦ rw (untold, e) refl
      | inr (f, e) ↦ rw (untold, e) refl
    ]
  ]

  notify_close-cleaned :
      (s : Incident W)
      → is_not_started s.cleanup_status ≡ false
      → is_not_started (notify_close setting s).1.cleanup_status ≡ false
  notify_close-cleaned s h = rw (notify_close-cleanup_status s) h

  finished-cleaned :
      (b : Bool) (r : Outcome Unit) (s : Incident W)
      → is_not_started (finished setting b r s).1.cleanup_status ≡ false
  unfolding finished
  finished-cleaned b (returned _) s =
      notify_close-cleaned
        (record s { cleanup_status = succeeded; state = if b then broken else closed }) refl
  finished-cleaned b (raised e) s =
      notify_close-cleaned
        (record s {
          cleanup_status = failed;
          cleanup_failure = some (record {
            domain = cleanup;
            phase = codes "cleanup";
            message = e.message;
            error_type = some e.error_type;
          });
          state = broken;
        })
        refl

  finish_backend-cleaned :
      (b : Bool) (s : Incident W)
      → is_not_started (finish_backend setting b s).1.cleanup_status ≡ false
  unfolding finish_backend
  finish_backend-cleaned b s =
      finished-cleaned b (setting.finish b s.world).0
        (record s { world = (setting.finish b s.world).1 })

  begun-cleaned :
      (b : Bool) (s : Incident W)
      → is_not_started
          ((finish_backend setting b >>= λ _. gets (λ t. t.cleanup_status)) s).1.cleanup_status
        ≡ false
  begun-cleaned b s = ground (arith, finish_backend-cleaned b s)

  close-cleaned :
      (s : Incident W) → IsSettled s → is_not_started (close setting s).1.cleanup_status ≡ false
  unfolding close
  close-cleaned s h = elim (Bool-cases (is_closed s.state)) [
    | inl done ↦ rw done (closed_cleaned s h done)
    | inr open_ ↦ elim (Bool-cases (is_not_started s.cleanup_status)) [
      | inr cleaned ↦ rw (open_, cleaned) cleaned
      | inl n ↦
          rw (open_, n)
            (begun-cleaned (is_broken s.state)
              (if is_broken s.state then s else record s { state = closing }))
    ]
  ]
    where
      closed_cleaned :
          (s : Incident W)
          → IsSettled s
          → is_closed s.state ≡ true
          → is_not_started s.cleanup_status ≡ false
      closed_cleaned s h c = ground arith

  cleaned-ended :
      (s : Incident W)
      → IsSettled s
      → is_not_started s.cleanup_status ≡ false
      → is_closed s.state || is_broken s.state ≡ true
  cleaned-ended s h c = ground arith

  cleaned-close :
      (s : Incident W)
      → is_not_started s.cleanup_status ≡ false
      → close setting s ≡ (returned s.cleanup_status, s)
  unfolding close
  cleaned-close s c = elim (Bool-cases (is_closed s.state)) [
    | inl done ↦ rw done refl
    | inr open_ ↦ rw (open_, c) refl
  ]

  -- Closing a settled incident, whether that returns or raises, leaves it closed or broken with its
  -- cleanup done, and closing it again returns the cleanup status and changes nothing, so that it
  -- makes no call of the backend or of the callback.
  pub close-close :
      (s : Incident W)
      → IsSettled s
      → (is_closed (close setting s).1.state || is_broken (close setting s).1.state ≡ true)
        × (is_not_started (close setting s).1.cleanup_status ≡ false)
        × (close setting (close setting s).1
            ≡ (returned (close setting s).1.cleanup_status, (close setting s).1))
  close-close s h =
      let c = close-cleaned s h in
      (
        cleaned-ended (close setting s).1 (close-IsSettled setting s h) c,
        c,
        cleaned-close (close setting s).1 c,
      )
