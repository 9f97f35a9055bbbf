-- ===== src/FlowControl/Receiver.antt =====
-- crates/transport/src/flow_control.rs: `ReceiverCreditState`, the delayed grants.
use terrasync_rs.Base.{
  ℕ, ◌+◌, ◌/◌, ◌^◌, max, List, [], ◌∷◌, Option, none, some, ltb, if◌then◌else◌, ◌≡◌, sym, ap, ◌∙◌,
  inl, inr, Option-cases, arith,
}
use terrasync_rs.FlowControl.{
  TransportError, credit_accounting_overflow, Result, ok, err, validate_window, ReceiverMsg,
  credit_grant, default_credit_window_bytes,
}

pub record ReceiverCreditState : Type 0 where
  pub grant_threshold : ℕ
  pub accepted_pending : ℕ

pub data ReceiverCreditOutcome (M : Type 0) : Type 0 where
  pending : ReceiverCreditOutcome M
  grant : ReceiverMsg M → ReceiverCreditOutcome M

made : ℕ → Option TransportError → Result ReceiverCreditState
made window_bytes (some e) = err e
made window_bytes none =
    ok (record { grant_threshold = max (window_bytes / 2) 1; accepted_pending = 0 })

unfoldable pub new : ℕ → Result ReceiverCreditState
unfolding made validate_window
new window_bytes = made window_bytes (validate_window window_bytes)

ok_of : ReceiverCreditState → Result ReceiverCreditState → ReceiverCreditState
ok_of s (err e) = s
ok_of s (ok other) = other

pub new-ok :
    (window : ℕ) (s : ReceiverCreditState)
    → new window ≡ ok s
    → (s.grant_threshold ≡ max (window / 2) 1) × (s.accepted_pending ≡ 0)
unfolding new made ok_of
new-ok window s e = elim (Option-cases (validate_window window)) [
  | inl valid ↦
      let same = sym (ap (ok_of s) (ap (made window) (sym valid) ∙ e)) in
      (ap (λ r. r.grant_threshold) same, ap (λ r. r.accepted_pending) same)
  | inr (bad, invalid) ↦
      absurd (let clash : err bad ≡ ok s = ap (made window) (sym invalid) ∙ e in ground arith)
]

unfoldable pub default : ReceiverCreditState
default = record { grant_threshold = default_credit_window_bytes / 2; accepted_pending = 0 }

-- u64::checked_add
unfoldable pub checked_add : ℕ → ℕ → Option ℕ
checked_add a b = if ltb (a + b) (2 ^ 64) then some (a + b) else none

-- Drops the accounting of a connection that is replaced.
unfoldable pub reset : ReceiverCreditState → ReceiverCreditState
reset s = record s { accepted_pending = 0 }

-- What a call hands to the transport, and its error if it has one. The transport's own answer to
-- a message is an argument of the call.
pub record Sent (M : Type 0) : Type 0 where
  pub state : ReceiverCreditState
  pub error : Option TransportError
  pub messages : List (ReceiverMsg M)

module _ {M : Type 0} where
  unfoldable pub recorded :
      ReceiverCreditState → Option ℕ → ReceiverCreditState × Result (ReceiverCreditOutcome M)
  recorded s none = (s, err credit_accounting_overflow)
  recorded s (some total) =
      if ltb total s.grant_threshold
      then (record s { accepted_pending = total }, ok pending)
      else (record s { accepted_pending = 0 }, ok (grant (credit_grant total none)))

  -- Counts bytes that the disk accepted; at the threshold, all that is pending is granted.
  unfoldable pub record_accepted :
      ReceiverCreditState → ℕ → ReceiverCreditState × Result (ReceiverCreditOutcome M)
  unfolding recorded checked_add
  record_accepted s bytes = recorded s (checked_add s.accepted_pending bytes)

  unfoldable pub take_pending_grant :
      ReceiverCreditState → ReceiverCreditState × Option (ReceiverMsg M)
  take_pending_grant s = (
    record s { accepted_pending = 0 },
    if ltb 0 s.accepted_pending then some (credit_grant s.accepted_pending none) else none,
  )

  deliver : Option TransportError → ReceiverCreditState × Result (ReceiverCreditOutcome M) → Sent M
  deliver answer (s, err e) = record { state = s; error = some e; messages = [] }
  deliver answer (s, ok pending) = record { state = s; error = none; messages = [] }
  deliver answer (s, ok (grant m)) = record { state = s; error = answer; messages = m ∷ [] }

  unfoldable pub accepted : Option TransportError → ReceiverCreditState → ℕ → Sent M
  unfolding deliver record_accepted
  accepted answer s bytes = deliver answer (record_accepted s bytes)

  hand_over : Option TransportError → ReceiverCreditState × Option (ReceiverMsg M) → Sent M
  hand_over answer (s, none) = record { state = s; error = none; messages = [] }
  hand_over answer (s, some m) = record { state = s; error = answer; messages = m ∷ [] }

  unfoldable pub flush : Option TransportError → ReceiverCreditState → Sent M
  unfolding hand_over take_pending_grant
  flush answer s = hand_over answer (take_pending_grant s)
