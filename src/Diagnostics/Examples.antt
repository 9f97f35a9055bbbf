-- ===== src/Diagnostics/Examples.antt =====
-- Runs and instances of the theorems about crates/app/src/consumer/stats/diagnostics.rs.
use terrasync_rs.Base.{
  ℕ, zero, suc, ◌≡◌, refl, true, false, List, [], ◌∷◌, ◌||◌, ◌+◌, ◌++◌, length, none, some, arith,
}
use terrasync_rs.Diagnostics.Recovery.{
  CallbackState, running, TraversalRecoveryCounters, is_recovering, has_failed, restore_checkpoint,
  apply,
}
use terrasync_rs.Diagnostics.Recovery.Restart.{Notice, restore_checkpoint-notices}
use terrasync_rs.Diagnostics.Text.{
  is_char_boundary, contains, url_mark, secret_key, safe_diagnostic_label, safe_diagnostic_text,
}
use terrasync_rs.Diagnostics.Text.Redaction.{safe_diagnostic_text-hides}
use terrasync_rs.Diagnostics.Outbox.{
  DiagnosticBatch, new, identifier, is_empty, validate_identity, event_of, set_attempt, new_batch,
  no_events, safe_path, enqueue, prepare_batch, ack, is_digest,
}
use terrasync_rs.Diagnostics.Outbox.Branches.{
  event_counted, Operation, enqueues, prepares, acks_batch, sets_attempt, performed_all,
}
use terrasync_rs.Diagnostics.Outbox.Conditions.{IsValid}
use terrasync_rs.Diagnostics.Outbox.Identity.{new-IsValid, performed_all-IsValid}
use terrasync_rs.Diagnostics.Outbox.Acknowledgement.{history-acknowledged}
use terrasync_rs.Diagnostics.Outbox.Delivery.{history, fresh, history-delivered}

-- "ok a://b Token x"
abbrev leak : List ℕ
leak = 111 ∷ 107 ∷ 32 ∷ 97 ∷ 58 ∷ 47 ∷ 47 ∷ 98 ∷ 32 ∷ 84 ∷ 111 ∷ 107 ∷ 101 ∷ 110 ∷ 32 ∷ 120 ∷ []

-- "ok [redacted] [redacted]"
leak_redacted :
    safe_diagnostic_text leak
    ≡ 111 ∷ 107 ∷ 32 ∷ 91 ∷ 114 ∷ 101 ∷ 100 ∷ 97 ∷ 99 ∷ 116 ∷ 101 ∷ 100 ∷ 93 ∷ 32 ∷ 91 ∷ 114 ∷ 101
      ∷ 100 ∷ 97 ∷ 99 ∷ 116 ∷ 101 ∷ 100 ∷ 93 ∷ []
unfolding safe_diagnostic_text terrasync_rs.Diagnostics.Text.sliced
    terrasync_rs.Diagnostics.Text.is_char_boundary terrasync_rs.Diagnostics.Text.is_whitespace
    secret_key contains terrasync_rs.Diagnostics.Text.printable
    terrasync_rs.Diagnostics.Text.is_control
leak_redacted = refl

safe_diagnostic_text-hides_example :
    (contains url_mark (safe_diagnostic_text leak) || secret_key (safe_diagnostic_text leak))
    ≡ false
safe_diagnostic_text-hides_example = safe_diagnostic_text-hides leak

abbrev repeated : ℕ → List ℕ
repeated zero = []
repeated (suc n) = 48 ∷ repeated n

-- In place of BLAKE3, the digest of every text.
abbrev zeros : List ℕ → List ℕ
zeros text = repeated 64

zeros-is_digest : (text : List ℕ) → is_digest (zeros text) ≡ true
unfolding is_digest
zeros-is_digest text = refl

-- Two events for room for one, a batch, and a third event while it is in flight.
abbrev calls : List Operation
calls =
    enqueues (115 ∷ []) (99 ∷ []) leak none
    ∷ enqueues [] [] [] (some leak)
    ∷ prepares
    ∷ sets_attempt (98 ∷ [])
    ∷ enqueues [] [] [] none
    ∷ []

performed_all-IsValid_example : IsValid (performed_all zeros calls (new (114 ∷ []) (97 ∷ []) 1 8))
unfolding new is_empty
performed_all-IsValid_example =
    performed_all-IsValid zeros zeros-is_digest calls (new (114 ∷ []) (97 ∷ []) 1 8)
      (tt, (tt, (tt, (refl, (tt, tt))))) refl (omega arith) (new-IsValid (114 ∷ []) (97 ∷ []) 1 8)

history-delivered_example :
    let h =
      history zeros (calls ++ acks_batch (zeros []) ∷ []) (fresh (new (114 ∷ []) (97 ∷ []) 1 8)) in
    (h.delivered ++ h.outbox.pending ≡ h.taken) × (h.reported + h.outbox.omitted_count ≡ h.omitted)
history-delivered_example =
    history-delivered zeros (calls ++ acks_batch (zeros []) ∷ []) (114 ∷ []) (97 ∷ []) 1 8

-- One event is taken; the batch carries it and one omission, and one more is still to report.
delivered :
    let h =
      history zeros (calls ++ acks_batch (zeros []) ∷ []) (fresh (new (114 ∷ []) (97 ∷ []) 1 8)) in
    (length h.taken ≡ 1) × (length h.delivered ≡ 1) × (h.reported ≡ 1) × (h.omitted ≡ 2)
unfolding history new enqueue prepare_batch ack set_attempt new_batch identifier no_events event_of
    safe_path safe_diagnostic_text safe_diagnostic_label terrasync_rs.Diagnostics.Text.sliced
    terrasync_rs.Diagnostics.Text.is_char_boundary terrasync_rs.Diagnostics.Text.is_whitespace
    secret_key contains terrasync_rs.Diagnostics.Text.printable
    terrasync_rs.Diagnostics.Text.is_control
delivered = (refl, refl, refl, refl)

-- The first event's batch.
abbrev first : List Operation
first = enqueues (115 ∷ []) (99 ∷ []) leak none ∷ []

abbrev others : List Operation
others = enqueues [] [] [] none ∷ sets_attempt (98 ∷ []) ∷ prepares ∷ []

abbrev first_batch : DiagnosticBatch
first_batch = record {
  batch_id = zeros [];
  events =
      event_of zeros (event_counted (new (114 ∷ []) (97 ∷ []) 1 8)) (115 ∷ []) (99 ∷ []) leak none
      ∷ [];
  omitted_count = 0;
}

history-acknowledged_example :
    let s =
      (history zeros
        (prepares ∷ others)
        (history zeros first (fresh (new (114 ∷ []) (97 ∷ []) 1 8)))).outbox in
    ((prepare_batch zeros s).value ≡ some first_batch) × ((ack (zeros []) s).value ≡ true)
unfolding history new enqueue prepare_batch ack set_attempt new_batch identifier no_events
history-acknowledged_example =
    history-acknowledged zeros first others (114 ∷ []) (97 ∷ []) 1 8 first_batch refl
      (tt, (tt, (tt, tt))) (λ e. ground arith)

-- The callback of round "r" that was saved, that of the new attempt, and what it restores.
abbrev callback : List ℕ → CallbackState
unfolding new
callback attempt = record {
  identity = record {
    round_id = 114 ∷ [];
    attempt_id = attempt;
    round_started_at_millis = 5;
    attempt_started_at_millis = 7;
    sequence = 0;
  };
  outbox = new (114 ∷ []) attempt 4 2;
  runtime = record {
    state = running;
    network_faults = 0;
    recovery_attempts = 0;
    successful_recoveries = 0;
    current_error = none;
  };
}

abbrev restored : CallbackState
restored = record (callback (98 ∷ [])) {
  outbox = set_attempt (98 ∷ []) (callback (97 ∷ [])).outbox;
}

abbrev no_recoveries : TraversalRecoveryCounters
no_recoveries = record { network_faults = 0; reconnect_attempts = 0; successful_recoveries = 0 }

-- A first fault, and the failure that ends the recovery from it.
abbrev fault : Notice
fault = record {
  counters = record { network_faults = 1; reconnect_attempts = 1; successful_recoveries = 0 };
  state = is_recovering (record { text = leak; path = 97 ∷ [] });
}

restore_checkpoint-notices_example :
    let u = apply zeros leak no_recoveries fault.counters fault.state restored in
    (validate_identity u.identity.round_id u.identity.attempt_id u.outbox ≡ true)
    × ((apply zeros leak no_recoveries fault.counters
          (has_failed (record { text = leak; path = [] }))
          u).outbox
        ≡ u.outbox)
unfolding callback new restore_checkpoint validate_identity is_empty terrasync_rs.Base.bytes_eq
    terrasync_rs.Diagnostics.Outbox.pending_valid terrasync_rs.Diagnostics.Outbox.in_flight_valid
restore_checkpoint-notices_example =
    restore_checkpoint-notices zeros zeros-is_digest leak (callback (97 ∷ [])) (callback (98 ∷ []))
      restored no_recoveries [] fault (has_failed (record { text = leak; path = [] })) refl refl
      refl (omega arith)
