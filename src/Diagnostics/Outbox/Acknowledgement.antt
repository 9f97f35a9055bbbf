-- ===== src/Diagnostics/Outbox/Acknowledgement.antt =====
-- crates/app/src/consumer/stats/diagnostics.rs: proofs about the batch in flight, from
-- `prepare_batch` to its acknowledgement.
use terrasync_rs.Base.{
  ℕ, List, [], ◌∷◌, Bool, true, false, Option, some, All, bytes_eq_refl, ltb, le→ltb-false, ◌==◌,
  ◌≡◌, ◌≢◌, refl, sym, ◌∙◌, subst, arith,
}
use terrasync_rs.Diagnostics.Outbox.Conditions.{events_eq_refl}
use terrasync_rs.Diagnostics.Outbox.{
  DiagnosticEvent, DiagnosticBatch, DiagnosticOutbox, max_u64, new, set_attempt, Returned,
  prepare_batch, ack, ack_with, acked,
}
use terrasync_rs.Diagnostics.Outbox.Branches.{
  Enqueued, exhausted, omits, keeps, Prepared, repeats, idle, sends, enqueue-Enqueued,
  prepare_batch-Prepared, Operation, enqueues, prepares, acks_batch, sets_attempt,
}
use terrasync_rs.Diagnostics.Outbox.Delivery.{
  History, step, history, fresh, Flies, history-Accounted, new-Accounted,
}

-- A call that is no acknowledgement.
abbrev pub IsLocal : Operation → Type 0
IsLocal (enqueues origin code message path) = Unit
IsLocal prepares = Unit
IsLocal (acks_batch batch_id) = ⊥
IsLocal (sets_attempt attempt_id) = Unit

enqueue-in_flight :
    (s : DiagnosticOutbox) (event : DiagnosticEvent) (r : Returned Bool)
    → Enqueued s event r
    → r.outbox.in_flight ≡ s.in_flight
enqueue-in_flight s event _ (exhausted spent) = refl
enqueue-in_flight s event _ (omits left) = refl
enqueue-in_flight s event _ (keeps left room) = refl

-- What `prepare_batch` returns is what is in flight then.
prepare-in_flight :
    (s : DiagnosticOutbox) (batch : DiagnosticBatch) (r : Returned (Option DiagnosticBatch))
    → Prepared s batch r
    → r.outbox.in_flight ≡ r.value
prepare-in_flight s batch _ (repeats b e) = e
prepare-in_flight s batch _ (idle e) = e
prepare-in_flight s batch _ (sends e left) = refl

prepare-again :
    (s : DiagnosticOutbox) (batch b : DiagnosticBatch) (r : Returned (Option DiagnosticBatch))
    → s.in_flight ≡ some b
    → Prepared s batch r
    → r.value ≡ some b
prepare-again s batch b _ flies (repeats old e) = sym e ∙ flies
prepare-again s batch b _ flies (idle e) = absurd (ground (arith, sym e ∙ flies))
prepare-again s batch b _ flies (sends e left) = absurd (ground (arith, sym e ∙ flies))

ack-matching :
    (s : DiagnosticOutbox) (b : DiagnosticBatch)
    → s.in_flight ≡ some b
    → Flies s (some b)
    → s.revision ≢ max_u64
    → (ack b.batch_id s).value ≡ true
unfolding ack ack_with acked
ack-matching s b flies f left =
    let unspent : (s.revision == max_u64) ≡ false = ground arith in
    let counted : ltb s.omitted_count b.omitted_count ≡ false =
      le→ltb-false s.omitted_count b.omitted_count f.2 in
    rw (unspent, flies, bytes_eq_refl b.batch_id, counted, sym f.0, events_eq_refl b.events) refl

module _ (blake3_hex : List ℕ → List ℕ) where
  step-in_flight :
      (op : Operation) (h : History) (b : DiagnosticBatch)
      → IsLocal op
      → h.outbox.in_flight ≡ some b
      → (step blake3_hex op h).outbox.in_flight ≡ some b
  unfolding step set_attempt
  step-in_flight (enqueues origin code message path) h b l e =
      enqueue-in_flight h.outbox _ _ (enqueue-Enqueued blake3_hex origin code message path h.outbox)
      ∙ e
  step-in_flight prepares h b l e =
      prepare-in_flight h.outbox _ _ (prepare_batch-Prepared blake3_hex h.outbox)
      ∙ prepare-again h.outbox _ b _ e (prepare_batch-Prepared blake3_hex h.outbox)
  step-in_flight (acks_batch batch_id) h b l e = absurd l
  step-in_flight (sets_attempt attempt_id) h b l e = e

  history-in_flight :
      (ops : List Operation) (h : History) (b : DiagnosticBatch)
      → All IsLocal ops
      → h.outbox.in_flight ≡ some b
      → (history blake3_hex ops h).outbox.in_flight ≡ some b
  unfolding history
  history-in_flight [] h b l e = e
  history-in_flight (op ∷ ops) h b l e =
      history-in_flight ops (step blake3_hex op h) b l.1 (step-in_flight op h b l.0 e)

  -- A batch that prepare_batch returns after any calls on a new outbox is returned again after
  -- any further calls without an acknowledgement, and its acknowledgement is accepted then,
  -- unless the revision has reached its maximum.
  pub history-acknowledged :
      (before after : List Operation) (round_id attempt_id : List ℕ) (capacity batch_size : ℕ)
      (b : DiagnosticBatch)
      → (prepare_batch blake3_hex
          (history blake3_hex before
            (fresh (new round_id attempt_id capacity batch_size))).outbox).value
        ≡ some b
      → All IsLocal after
      → (history blake3_hex (prepares ∷ after) (
          history blake3_hex before
            (fresh (new round_id attempt_id capacity batch_size)))).outbox.revision
        ≢ max_u64
      → let s =
          (history blake3_hex (prepares ∷ after) (
            history blake3_hex before
              (fresh (new round_id attempt_id capacity batch_size)))).outbox in
        ((prepare_batch blake3_hex s).value ≡ some b) × ((ack b.batch_id s).value ≡ true)
  unfolding history step
  history-acknowledged before after round_id attempt_id capacity batch_size b returned l left =
      let h = history blake3_hex before (fresh (new round_id attempt_id capacity batch_size)) in
      let accounted = history-Accounted blake3_hex (prepares ∷ after) h (
        history-Accounted blake3_hex before _
          (new-Accounted blake3_hex round_id attempt_id capacity batch_size)) in
      let flies =
        history-in_flight after (step blake3_hex prepares h) b l (
          prepare-in_flight h.outbox _ _ (prepare_batch-Prepared blake3_hex h.outbox) ∙ returned) in
      let s = (history blake3_hex (prepares ∷ after) h).outbox in
      (
        prepare-again s _ b _ flies (prepare_batch-Prepared blake3_hex s),
        ack-matching s b flies (subst (Flies s) flies accounted.flight) left,
      )
