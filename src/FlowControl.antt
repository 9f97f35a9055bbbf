-- ===== src/FlowControl.antt =====
-- crates/transport/src/flow_control.rs: byte credits between the sender and the receiver of one
-- connection. The two ledgers are the children Receiver and Sender; the others are their proofs.
pub mod Receiver
pub mod Sender
pub mod Waiters
pub mod Deliveries
pub mod Conservation
mod Examples
use terrasync_rs.Base.{
  ℕ, ◌-◌, ◌*◌, ◌^◌, ◌||◌, Option, none, some, ltb, ◌==◌, if◌then◌else◌, ◌≡◌, ◌≤◌, Bool-cases, inl,
  inr, ltb-false, ltb→lt, arith,
}

abbrev pub default_credit_window_bytes : ℕ
default_credit_window_bytes = 64 * 1024 * 1024

-- u32::MAX
abbrev pub max_credit_window_bytes : ℕ
max_credit_window_bytes = 2 ^ 32 - 1

-- The errors of crates/transport/src/error.rs that this file returns.
pub data TransportError : Type 0 where
  credit_accounting_overflow : TransportError
  credit_cost_exceeds_window : (cost window : ℕ) → TransportError
  send_failed : TransportError
  invalid_credit_configuration : TransportError

pub data Result (A : Type 0) : Type 0 where
  ok : A → Result A
  err : TransportError → Result A

-- `none` is Ok(()).
unfoldable pub validate_window : ℕ → Option TransportError
validate_window window_bytes =
    if window_bytes == 0 || ltb max_credit_window_bytes window_bytes
    then some invalid_credit_configuration
    else none

pub valid_small : (w : ℕ) → validate_window w ≡ none → w ≤ max_credit_window_bytes
unfolding validate_window
valid_small w e = elim (Bool-cases (ltb max_credit_window_bytes w)) [
  | inl large ↦ absurd (ground arith)
  | inr small ↦ ltb-false max_credit_window_bytes w small
]

-- A message of the receiver: a grant, or any other, of a type M of its own.
pub data ReceiverMsg (M : Type 0) : Type 0 where
  credit_grant : (bytes : ℕ) (ndx : Option ℕ) → ReceiverMsg M
  message : M → ReceiverMsg M
