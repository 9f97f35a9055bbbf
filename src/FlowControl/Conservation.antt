-- ===== src/FlowControl/Conservation.antt =====
-- crates/transport/src/flow_control.rs: both ends of one connection and what is on the wire
-- between them. The data streams deliver in any order among each other; the grants come one after
-- the other. The transport accepts every message here: when it does not, the connection and with
-- it both ledgers are given up.
use terrasync_rs.Base.{
  ℕ, ◌+◌, ◌-◌, ◌/◌, ◌<◌, ◌≤◌, max, ◌≡◌, ap, ◌∙◌, false, List, [], ◌∷◌, ◌++◌, Option, none, leb,
  if◌then◌else◌, le→leb, arith,
}
use terrasync_rs.FlowControl.{
  send_failed, ok, ReceiverMsg, credit_grant, message, max_credit_window_bytes,
}
use terrasync_rs.FlowControl.Sender.{
  SenderCreditLedger, Attempt, refused, taken, waits, attempt, attempt-taken, SenderCreditOutcome,
  consumed, forward, apply_incoming, close, too_large, grant, applied,
}
use terrasync_rs.FlowControl.Sender
use terrasync_rs.FlowControl.Receiver.{
  ReceiverCreditState, accepted, flush, Sent, record_accepted, recorded, checked_add,
  take_pending_grant,
}
use terrasync_rs.FlowControl.Receiver
use terrasync_rs.FlowControl.Deliveries.{
  sum, granted, sum-split, granted-append, grant_lem, accepted_lem, flush_lem,
}

pub record Connection (M : Type 0) : Type 0 where
  pub ledger : SenderCreditLedger
  pub wire : List ℕ
  pub receiver : ReceiverCreditState
  pub grants : List (ReceiverMsg M)

module _ {M : Type 0} where
  pub data Step : Connection M → Connection M → Type 0 where
    sends :
        (c : Connection M) (bytes : ℕ) (after : SenderCreditLedger)
        → attempt c.ledger bytes ≡ taken after
        → Step c (record c { ledger = after; wire = bytes ∷ c.wire })
    accepts :
        (c : Connection M) (xs ys : List ℕ) (bytes : ℕ)
        → c.wire ≡ xs ++ bytes ∷ ys
        → Step c (record c {
          wire = xs ++ ys;
          receiver = (accepted {M = M} none c.receiver bytes).state;
          grants = c.grants ++ (accepted none c.receiver bytes).messages;
        })
    flushes :
        (c : Connection M)
        → Step c (record c {
          receiver = (flush {M = M} none c.receiver).state;
          grants = c.grants ++ (flush none c.receiver).messages;
        })
    says : (c : Connection M) (m : M) → Step c (record c { grants = c.grants ++ message m ∷ [] })
    arrives :
        (c : Connection M) (m : ReceiverMsg M) (ms : List (ReceiverMsg M))
        → c.grants ≡ m ∷ ms
        → Step c (record c { ledger = (apply_incoming c.ledger m).0; grants = ms })
    closes : (c : Connection M) → Step c (record c { ledger = close c.ledger })

  -- What a connection with windows of the given size may come to.
  pub data Reachable (window : ℕ) : Connection M → Type 0 where
    connects :
        (ledger : SenderCreditLedger) (receiver : ReceiverCreditState)
        → Sender.new window ≡ ok ledger
        → Receiver.new window ≡ ok receiver
        → Reachable window (record { ledger = ledger; wire = []; receiver = receiver; grants = [] })
    steps : (c d : Connection M) → Reachable window c → Step c d → Reachable window d

  record IsBalanced (window : ℕ) (c : Connection M) : Type 0 where
    pub small : window ≤ max_credit_window_bytes
    pub capacity : c.ledger.capacity ≡ window
    pub threshold : c.receiver.grant_threshold ≡ max (window / 2) 1
    pub below : c.receiver.accepted_pending < c.receiver.grant_threshold
    pub total :
        c.ledger.available + (sum c.wire + (c.receiver.accepted_pending + granted c.grants))
        ≡ window

  Step-IsBalanced :
      (window : ℕ) (c d : Connection M) → Step c d → IsBalanced window c → IsBalanced window d
  unfolding sum granted apply_incoming close
  Step-IsBalanced window c d (sends b bytes after e) v =
      let (_, fits, less, same, _) = attempt-taken b.ledger after bytes e in
      record {
        small = v.small;
        capacity = omega (arith, v.capacity);
        threshold = v.threshold;
        below = v.below;
        total = omega (arith, v.total);
      }
  Step-IsBalanced window c d (accepts b xs ys bytes e) v =
      let split = sum-split b.wire xs ys bytes e in
      let (_, kept, low, total) =
        accepted_lem M b.receiver bytes (omega (arith, v.total, v.small))
          (omega (arith, v.below)) in
      let more = granted-append b.grants (accepted none b.receiver bytes).messages in
      record {
        small = v.small;
        capacity = v.capacity;
        threshold = kept ∙ v.threshold;
        below = omega arith;
        total = omega (arith, v.total);
      }
  Step-IsBalanced window c d (flushes b) v =
      let (kept, low, total) = flush_lem M b.receiver (omega (arith, v.below)) in
      let more = granted-append b.grants (flush none b.receiver).messages in
      record {
        small = v.small;
        capacity = v.capacity;
        threshold = kept ∙ v.threshold;
        below = omega arith;
        total = omega (arith, v.total);
      }
  Step-IsBalanced window c d (says b m) v =
      let more = granted-append b.grants (message m ∷ []) in
      record {
        small = v.small;
        capacity = v.capacity;
        threshold = v.threshold;
        below = v.below;
        total = omega (arith, v.total);
      }
  Step-IsBalanced window c d (arrives b (credit_grant bytes ndx) ms e) v =
      let total : granted b.grants ≡ bytes + granted ms = ap granted e in
      let (more, same, _) = grant_lem b.ledger bytes (omega (arith, v.total, v.capacity)) in
      record {
        small = v.small;
        capacity = same ∙ v.capacity;
        threshold = v.threshold;
        below = v.below;
        total = omega (arith, v.total);
      }
  Step-IsBalanced window c d (arrives b (message m) ms e) v =
      let total : granted b.grants ≡ granted ms = ap granted e in
      record {
        small = v.small;
        capacity = v.capacity;
        threshold = v.threshold;
        below = v.below;
        total = omega (arith, v.total);
      }
  Step-IsBalanced window c d (closes b) v = record {
    small = v.small;
    capacity = v.capacity;
    threshold = v.threshold;
    below = v.below;
    total = v.total;
  }

  -- A window that both ends accept.
  connect-IsBalanced :
      (window : ℕ) (ledger : SenderCreditLedger) (receiver : ReceiverCreditState)
      → Sender.new window ≡ ok ledger
      → Receiver.new window ≡ ok receiver
      → IsBalanced window (record { ledger = ledger; wire = []; receiver = receiver; grants = [] })
  unfolding sum granted
  connect-IsBalanced window ledger receiver e f =
      let (small, all, capacity) = Sender.new-ok window ledger e in
      let (threshold, nothing) = Receiver.new-ok window receiver f in
      record {
        small = small;
        capacity = capacity;
        threshold = threshold;
        below = omega arith;
        total = omega arith;
      }

  Reachable-IsBalanced : (window : ℕ) (c : Connection M) → Reachable window c → IsBalanced window c
  Reachable-IsBalanced window c (connects ledger receiver e f) =
      connect-IsBalanced window ledger receiver e f
  Reachable-IsBalanced window c (steps b c₁ r s) =
      Step-IsBalanced window b c₁ s (Reachable-IsBalanced window b r)

  -- At every moment of a connection the credit is accounted for once: what the sender has left,
  -- what is on the wire, what the receiver has pending and what the grants on the wire carry are
  -- together the window.
  pub Reachable-total :
      (window : ℕ) (c : Connection M)
      → Reachable window c
      → c.ledger.available + (sum c.wire + (c.receiver.accepted_pending + granted c.grants))
        ≡ window
  Reachable-total window c r = (Reachable-IsBalanced window c r).total

  -- No message that arrives on a connection overflows the receiver's count: its acceptance
  -- returns no error of its own.
  pub Reachable-accepted :
      (window : ℕ) (c : Connection M) (xs ys : List ℕ) (bytes : ℕ)
      → Reachable window c
      → c.wire ≡ xs ++ bytes ∷ ys
      → (accepted {M = M} none c.receiver bytes).error ≡ none
  Reachable-accepted window c xs ys bytes r e =
      let v = Reachable-IsBalanced window c r in
      let split = sum-split c.wire xs ys bytes e in
      (accepted_lem M c.receiver bytes (omega (arith, v.total, v.small)) (omega (arith, v.below))).0

  abbrev grant_message : ℕ → Option ℕ → ReceiverMsg M
  grant_message bytes ndx = credit_grant bytes ndx

  -- No grant that arrives on a connection is cut: the ledger applies all of it and discards
  -- nothing.
  pub Reachable-grant :
      (window : ℕ) (c : Connection M) (bytes : ℕ) (ndx : Option ℕ) (ms : List (ReceiverMsg M))
      → Reachable window c
      → c.grants ≡ credit_grant bytes ndx ∷ ms
      → (apply_incoming c.ledger (grant_message bytes ndx)).1
        ≡ consumed (record { applied = bytes; discarded = 0 })
  unfolding granted apply_incoming
  Reachable-grant window c bytes ndx ms r e =
      let v = Reachable-IsBalanced window c r in
      let total : granted c.grants ≡ bytes + granted ms = ap granted e in
      ap consumed (grant_lem c.ledger bytes (omega (arith, v.total, v.capacity))).2

  -- With nothing on the wire, an open window has credit for every cost up to the window less what
  -- the receiver may keep pending, which is its threshold less one: the sender does not wait for
  -- a grant that will not come.
  pub idle-attempt :
      (window : ℕ) (c : Connection M) (bytes : ℕ)
      → Reachable window c
      → c.wire ≡ []
      → c.grants ≡ []
      → c.ledger.closed ≡ false
      → bytes + max (window / 2) 1 ≤ window + 1
      → attempt c.ledger bytes
        ≡ taken (record (c.ledger) { available = c.ledger.available - bytes })
  unfolding attempt sum granted
  idle-attempt window c bytes r empty quiet unclosed small =
      let v = Reachable-IsBalanced window c r in
      let on_wire : sum c.wire ≡ 0 = ap sum empty in
      let on_way : granted c.grants ≡ 0 = ap granted quiet in
      let fits = le→leb bytes c.ledger.available (omega (arith, v.total, v.below, v.threshold)) in
      ap
        (λ b.
          if b
          then refused send_failed
          else if leb bytes c.ledger.available
          then taken (record (c.ledger) { available = c.ledger.available - bytes })
          else waits)
        unclosed
      ∙ ap
          (λ b.
            if b
            then taken (record (c.ledger) { available = c.ledger.available - bytes })
            else waits)
          fits
