-- ===== src/FlowControl/Examples.antt =====
-- Runs and instances of the theorems about crates/transport/src/flow_control.rs.
use terrasync_rs.Base.{ℕ, ◌+◌, ◌≡◌, refl, true, false, [], ◌∷◌, none, arith}
use terrasync_rs.FlowControl.{credit_grant}
use terrasync_rs.FlowControl.Sender.{
  SenderCreditLedger, Attempt, taken, waits, attempt, apply_incoming, consumed, grant,
}
use terrasync_rs.FlowControl.Sender
use terrasync_rs.FlowControl.Receiver.{ReceiverCreditState, accepted, flush}
use terrasync_rs.FlowControl.Receiver
use terrasync_rs.FlowControl.Conservation.{
  Connection, Reachable, connects, steps, sends, accepts, Reachable-total, Reachable-accepted,
  Reachable-grant, idle-attempt,
}
use terrasync_rs.FlowControl.Deliveries.{sum, granted}
use terrasync_rs.FlowControl.Waiters.{Window, Caller, opens, calls, parks, parked-waits}
use terrasync_rs.FlowControl.Waiters

abbrev ten : SenderCreditLedger
ten = record { available = 10; capacity = 10; closed = false }

abbrev half : ReceiverCreditState
half = record { grant_threshold = 5; accepted_pending = 0 }

-- A window of 10 in which the sender's other messages are numbers.
abbrev c0 : Connection ℕ
c0 = record { ledger = ten; wire = []; receiver = half; grants = [] }

abbrev c1 : Connection ℕ
c1 = record {
  ledger = record { available = 4; capacity = 10; closed = false };
  wire = 6 ∷ [];
  receiver = half;
  grants = [];
}

abbrev c2 : Connection ℕ
c2 = record {
  ledger = record { available = 4; capacity = 10; closed = false };
  wire = [];
  receiver = half;
  grants = credit_grant 6 none ∷ [];
}

c0-Reachable : Reachable 10 c0
unfolding Sender.new Receiver.new
c0-Reachable = connects ten half refl refl

c1-Reachable : Reachable 10 c1
unfolding attempt
c1-Reachable = steps c0 c1 c0-Reachable (sends c0 6 c1.ledger refl)

c2-Reachable : Reachable 10 c2
unfolding accepted
c2-Reachable = steps c1 c2 c1-Reachable (accepts c1 [] [] 6 refl)

Reachable-total_example : 4 + (sum [] + (0 + granted c2.grants)) ≡ 10
Reachable-total_example = Reachable-total 10 c2 c2-Reachable

Reachable-accepted_example : (accepted {M = ℕ} none half 6).error ≡ none
Reachable-accepted_example = Reachable-accepted 10 c1 [] [] 6 c1-Reachable refl

Reachable-grant_example :
    (apply_incoming {M = ℕ} c2.ledger (credit_grant 6 none)).1
    ≡ consumed (record { applied = 6; discarded = 0 })
Reachable-grant_example = Reachable-grant 10 c2 6 none [] c2-Reachable refl

idle-attempt_example :
    attempt ten 6 ≡ taken (record { available = 4; capacity = 10; closed = false })
idle-attempt_example = idle-attempt 10 c0 6 c0-Reachable refl refl refl (omega arith)

-- A caller that needs 8 when 4 are left.
abbrev four : SenderCreditLedger
four = record { available = 4; capacity = 10; closed = false }

abbrev parked : Caller
parked = record { bytes = 8; parked = true; notified = false }

parked-waits_example : attempt four 8 ≡ waits
unfolding attempt Sender.too_large
parked-waits_example =
    parked-waits (record { ledger = four; callers = parked ∷ []; signals = 0 }) [] [] parked
      (Waiters.steps w1 w2 (Waiters.steps w0 w1 (opens four) (calls w0 8 refl))
        (parks w1 [] [] (Waiters.registered 8) refl refl refl))
      refl refl refl refl
  where
    w0 : Window
    w0 = record { ledger = four; callers = []; signals = 0 }

    w1 : Window
    w1 = record { ledger = four; callers = Waiters.registered 8 ∷ []; signals = 0 }

    w2 : Window
    w2 = record { ledger = four; callers = parked ∷ []; signals = 0 }
