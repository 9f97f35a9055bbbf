-- ===== src/Diagnostics/Recovery.antt =====
-- crates/app/src/consumer/stats/callback_state.rs and recovery_progress.rs: the state of a scan's
-- callback, and what a notice of the traversal's recovery does to it. BLAKE3 is the parameter of the
-- outbox; the storage library's failure is its text and its path.
pub mod Restart
use terrasync_rs.Base.{
  ℕ, ◌+◌, ◌/◌, ◌^◌, ◌≤◌, ◌<◌, min, List, [], ◌∷◌, ◌++◌, Bool, true, false, not, Option, none, some,
  ltb, ◌==◌, bytes_eq, if◌then◌else◌, ◌≡◌, refl, sym, ap, ◌∙◌, inl, inr, Bool-cases, le→ltb-false,
  arith,
}
use terrasync_rs.Diagnostics.Text.{safe_diagnostic_text}
use terrasync_rs.Diagnostics.Outbox.{
  DiagnosticOutbox, max_u64, new, validate_identity, set_attempt, enqueue, decimal, saturating_add,
}

pub record CallbackIdentity : Type 0 where
  pub round_id : List ℕ
  pub attempt_id : List ℕ
  pub round_started_at_millis : ℕ
  pub attempt_started_at_millis : ℕ
  pub sequence : ℕ

pub data ScanRuntimePhase : Type 0 where
  running recovering failed : ScanRuntimePhase

pub record ScanRuntimeState : Type 0 where
  pub state : ScanRuntimePhase
  pub network_faults : ℕ
  pub recovery_attempts : ℕ
  pub successful_recoveries : ℕ
  pub current_error : Option (List ℕ)

pub record CallbackState : Type 0 where
  pub identity : CallbackIdentity
  pub outbox : DiagnosticOutbox
  pub runtime : ScanRuntimeState

-- Of a round that is given as nanoseconds from 1970 on; an earlier one is refused.
unfoldable pub initialize_scan : (job_id : List ℕ) → Option ℕ → CallbackState → CallbackState
unfolding bytes_eq new decimal
initialize_scan job_id none s = s
initialize_scan job_id (some round) s =
    let round_id = job_id ++ 58 ∷ decimal round in
    record s {
      outbox =
          if not (bytes_eq s.identity.round_id round_id)
          then new round_id s.identity.attempt_id 512 64
          else s.outbox;
      identity = record (s.identity) {
        round_id = round_id;
        round_started_at_millis = round / 1000000;
      };
    }

-- `none` is the error of an outbox with another identity.
unfoldable pub restore_checkpoint : CallbackState → CallbackState → Option CallbackState
unfolding set_attempt
restore_checkpoint saved s =
    if not (validate_identity saved.identity.round_id saved.identity.attempt_id saved.outbox)
    then none
    else some (record {
      identity = record (s.identity) {
        round_id = saved.identity.round_id;
        round_started_at_millis = saved.identity.round_started_at_millis;
      };
      outbox = set_attempt s.identity.attempt_id saved.outbox;
      runtime = saved.runtime;
    })

pub record TraversalRecoveryCounters : Type 0 where
  pub network_faults : ℕ
  pub reconnect_attempts : ℕ
  pub successful_recoveries : ℕ

pub record Failure : Type 0 where
  pub text : List ℕ
  pub path : List ℕ

pub data TraversalRecoveryState : Type 0 where
  is_running : TraversalRecoveryState
  is_recovering has_failed : Failure → TraversalRecoveryState

-- "storage", "network_recovered", "network_fault"
abbrev pub storage_origin : List ℕ
storage_origin = 115 ∷ 116 ∷ 111 ∷ 114 ∷ 97 ∷ 103 ∷ 101 ∷ []

abbrev pub network_recovered : List ℕ
network_recovered =
    110 ∷ 101 ∷ 116 ∷ 119 ∷ 111 ∷ 114 ∷ 107 ∷ 95 ∷ 114 ∷ 101 ∷ 99 ∷ 111 ∷ 118 ∷ 101 ∷ 114 ∷ 101
    ∷ 100 ∷ []

abbrev pub network_fault : List ℕ
network_fault = 110 ∷ 101 ∷ 116 ∷ 119 ∷ 111 ∷ 114 ∷ 107 ∷ 95 ∷ 102 ∷ 97 ∷ 117 ∷ 108 ∷ 116 ∷ []

-- `recovered_text` is the sentence that tells of a recovery.
module _ (blake3_hex : List ℕ → List ℕ) (recovered_text : List ℕ) where
  -- The event of a new fault, by the state that is told with it.
  unfoldable pub told : TraversalRecoveryState → DiagnosticOutbox → DiagnosticOutbox
  told is_running outbox =
      (enqueue blake3_hex storage_origin network_recovered recovered_text none outbox).outbox
  told (is_recovering failure) outbox =
      (enqueue blake3_hex storage_origin network_fault failure.text (some failure.path)
        outbox).outbox
  told (has_failed failure) outbox =
      (enqueue blake3_hex storage_origin network_fault failure.text (some failure.path)
        outbox).outbox

  unfoldable pub phase_of : TraversalRecoveryState → ScanRuntimePhase
  phase_of is_running = running
  phase_of (is_recovering failure) = recovering
  phase_of (has_failed failure) = failed

  unfoldable pub error_of : TraversalRecoveryState → Option (List ℕ)
  error_of is_running = none
  error_of (is_recovering failure) = some (safe_diagnostic_text failure.text)
  error_of (has_failed failure) = some (safe_diagnostic_text failure.text)

  unfoldable pub apply :
      (baseline counters : TraversalRecoveryCounters)
      → TraversalRecoveryState
      → CallbackState
      → CallbackState
  unfolding told phase_of error_of
  apply baseline counters state s =
      let faults = saturating_add baseline.network_faults counters.network_faults in
      record s {
        outbox = if ltb s.runtime.network_faults faults then told state s.outbox else s.outbox;
        runtime = record {
          state = phase_of state;
          network_faults = faults;
          recovery_attempts =
              saturating_add baseline.reconnect_attempts counters.reconnect_attempts;
          successful_recoveries =
              saturating_add baseline.successful_recoveries counters.successful_recoveries;
          current_error = error_of state;
        };
      }
