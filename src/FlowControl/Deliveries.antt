-- ===== src/FlowControl/Deliveries.antt =====
-- crates/transport/src/flow_control.rs: lemmas on what one call adds to the wire and takes off
-- it.
use terrasync_rs.Base.{
  ℕ, ◌+◌, ◌-◌, ◌<◌, ◌≤◌, ◌≡◌, refl, ap, ◌∙◌, List, [], ◌∷◌, ◌++◌, none, ltb, Bool-cases, lt→ltb,
  ltb→lt, ltb-false, ◌^◌, inl, inr, arith,
}
use terrasync_rs.FlowControl.{ReceiverMsg, credit_grant, message, max_credit_window_bytes}
use terrasync_rs.FlowControl.Sender.{SenderCreditLedger, grant, applied}
use terrasync_rs.FlowControl.Receiver.{
  ReceiverCreditState, accepted, flush, record_accepted, checked_add, take_pending_grant,
}

unfoldable pub sum : List ℕ → ℕ
sum [] = 0
sum (n ∷ ns) = n + sum ns

unfoldable pub granted : {M : Type 0} → List (ReceiverMsg M) → ℕ
granted [] = 0
granted (credit_grant bytes ndx ∷ ms) = bytes + granted ms
granted (message m ∷ ms) = granted ms

pub sum-split : (ns xs ys : List ℕ) (n : ℕ) → ns ≡ xs ++ n ∷ ys → sum ns ≡ n + sum (xs ++ ys)
unfolding sum
sum-split ns xs ys n e = ap sum e ∙ go xs
  where
    go : (zs : List ℕ) → sum (zs ++ n ∷ ys) ≡ n + sum (zs ++ ys)
    go [] = refl
    go (z ∷ zs) = omega (arith, go zs)

pub granted-append :
    {M : Type 0} (ms ns : List (ReceiverMsg M)) → granted (ms ++ ns) ≡ granted ms + granted ns
unfolding granted
granted-append [] ns = omega arith
granted-append (credit_grant bytes ndx ∷ ms) ns = omega (arith, granted-append ms ns)
granted-append (message m ∷ ms) ns = granted-append ms ns

-- A grant that the ledger has room for is added in full.
pub grant_lem :
    (l : SenderCreditLedger) (bytes : ℕ)
    → l.available + bytes ≤ l.capacity
    → ((grant l bytes).0.available ≡ l.available + bytes)
      × ((grant l bytes).0.capacity ≡ l.capacity)
      × ((grant l bytes).1 ≡ record { applied = bytes; discarded = 0 })
unfolding grant applied
grant_lem l bytes room =
    let all : applied l bytes ≡ bytes = omega arith in
    let outcome : (grant l bytes).1 ≡ record { applied = bytes; discarded = 0 } =
      ap (λ n. record { applied = n; discarded = bytes - n }) all
      ∙ ap (λ n. record { applied = bytes; discarded = n }) (omega arith) in
    elim (Bool-cases (ltb 0 (applied l bytes))) [
      | inl some_room ↦ rw (some_room, grant) (omega arith, refl, outcome)
      | inr nothing ↦
          let none_left = ltb-false 0 (applied l bytes) nothing in
          rw (nothing, grant) (omega arith, refl, outcome)
    ]

-- What `accepted` does with no overflow: what was pending and the new bytes stay pending or are
-- granted, and the rest is below the threshold.
pub accepted_lem :
    (M : Type 0) (s : ReceiverCreditState) (bytes : ℕ)
    → s.accepted_pending + bytes ≤ max_credit_window_bytes
    → 0 < s.grant_threshold
    → ((accepted {M = M} none s bytes).error ≡ none)
      × ((accepted {M = M} none s bytes).state.grant_threshold ≡ s.grant_threshold)
      × ((accepted {M = M} none s bytes).state.accepted_pending < s.grant_threshold)
      × ((accepted {M = M} none s bytes).state.accepted_pending
            + granted (accepted {M = M} none s bytes).messages
          ≡ s.accepted_pending + bytes)
unfolding accepted record_accepted checked_add granted
accepted_lem M s bytes small pos =
    let fits = lt→ltb (s.accepted_pending + bytes) (2 ^ 64) (omega arith) in
    elim (Bool-cases (ltb (s.accepted_pending + bytes) s.grant_threshold)) [
      | inl below ↦
          rw (fits, below, accepted)
            (refl, refl, ltb→lt (s.accepted_pending + bytes) s.grant_threshold below, omega arith)
      | inr full ↦ rw (fits, full, accepted) (refl, refl, pos, omega arith)
    ]

pub flush_lem :
    (M : Type 0) (s : ReceiverCreditState)
    → 0 < s.grant_threshold
    → ((flush {M = M} none s).state.grant_threshold ≡ s.grant_threshold)
      × ((flush {M = M} none s).state.accepted_pending < s.grant_threshold)
      × ((flush {M = M} none s).state.accepted_pending + granted (flush {M = M} none s).messages
          ≡ s.accepted_pending)
unfolding flush take_pending_grant granted
flush_lem M s pos = elim (Bool-cases (ltb 0 s.accepted_pending)) [
  | inl some_left ↦ rw (some_left, flush) (refl, pos, omega arith)
  | inr nothing ↦
      rw (nothing, flush) (refl, pos, omega (arith, ltb-false 0 s.accepted_pending nothing))
]
