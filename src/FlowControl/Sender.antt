-- ===== src/FlowControl/Sender.antt =====
-- crates/transport/src/flow_control.rs: `SenderCreditState`, the ledger behind the lock.
use terrasync_rs.Base.{
  ℕ, ◌+◌, ◌-◌, min, Bool, true, false, Option, none, some, ltb, leb, if◌then◌else◌, ◌≤◌, ◌≡◌, sym,
  ap, inl, inr, Bool-cases, Option-cases, ◌∙◌, leb→le, arith,
}
use terrasync_rs.FlowControl.{
  TransportError, credit_cost_exceeds_window, send_failed, Result, ok, err, validate_window,
  valid_small, max_credit_window_bytes, ReceiverMsg, credit_grant, message,
}

pub record SenderCreditLedger : Type 0 where
  pub available : ℕ
  pub capacity : ℕ
  pub closed : Bool

pub record CreditGrantOutcome : Type 0 where
  pub applied : ℕ
  pub discarded : ℕ

pub data SenderCreditOutcome (M : Type 0) : Type 0 where
  consumed : CreditGrantOutcome → SenderCreditOutcome M
  forward : ReceiverMsg M → SenderCreditOutcome M

made : ℕ → Option TransportError → Result SenderCreditLedger
made window_bytes (some e) = err e
made window_bytes none =
    ok (record { available = window_bytes; capacity = window_bytes; closed = false })

unfoldable pub new : ℕ → Result SenderCreditLedger
unfolding made validate_window
new window_bytes = made window_bytes (validate_window window_bytes)

ok_of : SenderCreditLedger → Result SenderCreditLedger → SenderCreditLedger
ok_of ledger (err e) = ledger
ok_of ledger (ok other) = other

pub new-ok :
    (window : ℕ) (ledger : SenderCreditLedger)
    → new window ≡ ok ledger
    → (window ≤ max_credit_window_bytes) × (ledger.available ≡ window) × (ledger.capacity ≡ window)
unfolding new made ok_of
new-ok window ledger e = elim (Option-cases (validate_window window)) [
  | inl valid ↦
      let same = sym (ap (ok_of ledger) (ap (made window) (sym valid) ∙ e)) in
      (valid_small window valid, ap (λ l. l.available) same, ap (λ l. l.capacity) same)
  | inr (bad, invalid) ↦
      absurd (let clash : err bad ≡ ok ledger = ap (made window) (sym invalid) ∙ e in ground arith)
]

-- The first test of `acquire`: a cost that can never be granted.
unfoldable pub too_large : SenderCreditLedger → ℕ → Option TransportError
too_large ledger bytes =
    if ltb ledger.capacity bytes
    then some (credit_cost_exceeds_window bytes ledger.capacity)
    else none

-- One pass of the loop of `acquire` under the lock.
pub data Attempt : Type 0 where
  refused : TransportError → Attempt
  taken : SenderCreditLedger → Attempt
  waits : Attempt

unfoldable pub attempt : SenderCreditLedger → ℕ → Attempt
attempt ledger bytes =
    if ledger.closed
    then refused send_failed
    else if leb bytes ledger.available
    then taken (record ledger { available = ledger.available - bytes })
    else waits

ledger_of : SenderCreditLedger → Attempt → SenderCreditLedger
ledger_of ledger (refused e) = ledger
ledger_of ledger (taken after) = after
ledger_of ledger waits = ledger

-- An attempt that takes credit finds the window open and the credit there.
pub attempt-taken :
    (ledger after : SenderCreditLedger) (bytes : ℕ)
    → attempt ledger bytes ≡ taken after
    → (ledger.closed ≡ false)
      × (bytes ≤ ledger.available)
      × (after.available ≡ ledger.available - bytes)
      × (after.capacity ≡ ledger.capacity)
      × (after.closed ≡ false)
unfolding attempt ledger_of
attempt-taken ledger after bytes e = elim (Bool-cases ledger.closed) [
  | inl shut ↦ absurd (ground arith)
  | inr unclosed ↦ elim (Bool-cases (leb bytes ledger.available)) [
    | inl fits ↦
        let same = sym (ap (ledger_of ledger) (rw (unclosed, fits) at e)) in
        (
          unclosed,
          leb→le bytes ledger.available fits,
          ap (λ l. l.available) same,
          ap (λ l. l.capacity) same,
          ap (λ l. l.closed) same,
        )
    | inr lacks ↦ absurd (ground arith)
  ]
]

-- saturating_sub is the subtraction of ℕ.
unfoldable pub applied : SenderCreditLedger → ℕ → ℕ
applied ledger bytes = min bytes (ledger.capacity - ledger.available)

unfoldable pub grant : SenderCreditLedger → ℕ → SenderCreditLedger × CreditGrantOutcome
unfolding applied
grant ledger bytes = (
  if ltb 0 (applied ledger bytes)
      then record ledger { available = ledger.available + applied ledger bytes }
      else ledger,
  record { applied = applied ledger bytes; discarded = bytes - applied ledger bytes },
)

unfoldable pub apply_incoming :
    {M : Type 0} → SenderCreditLedger → ReceiverMsg M → SenderCreditLedger × SenderCreditOutcome M
unfolding grant
apply_incoming ledger (credit_grant bytes ndx) =
    let (after, outcome) = grant ledger bytes in (after, consumed outcome)
apply_incoming ledger (message m) = (ledger, forward (message m))

unfoldable pub close : SenderCreditLedger → SenderCreditLedger
close ledger = record ledger { closed = true }
