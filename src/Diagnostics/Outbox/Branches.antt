-- ===== src/Diagnostics/Outbox/Branches.antt =====
-- crates/app/src/consumer/stats/diagnostics.rs: the branches of the outbox's operations, with what
-- holds on each of them.
use terrasync_rs.Base.{
  ℕ, ◌+◌, ◌-◌, ◌≤◌, ◌<◌, min, List, [], ◌∷◌, ◌++◌, Bool, true, false, not, ◌||◌, Option, none, some,
  length, take, drop, ◌&&◌, ltb, leb, ◌==◌, bytes_eq, if-cases, ◌≡◌, ◌≢◌, refl, arith,
}
use terrasync_rs.Diagnostics.Outbox.{
  DiagnosticEvent, DiagnosticBatch, DiagnosticOutbox, max_u64, events_eq, Returned, event_of,
  enqueue, no_events, new_batch, prepare_with, prepare_batch, ack_with, ack, set_attempt,
}

-- The outbox with a call and an event, or a batch, counted up.
abbrev pub event_counted : DiagnosticOutbox → DiagnosticOutbox
event_counted s = record s { revision = s.revision + 1; next_event = s.next_event + 1 }

abbrev pub batch_counted : DiagnosticOutbox → DiagnosticOutbox
batch_counted s = record s { revision = s.revision + 1; next_batch = s.next_batch + 1 }

pub data Enqueued (s : DiagnosticOutbox) (event : DiagnosticEvent) : Returned Bool → Type 0 where
  exhausted : s.revision ≡ max_u64 → Enqueued s event (record { outbox = s; value = false })
  omits :
      s.revision ≢ max_u64
      → Enqueued s event (record {
        outbox = record s {
          revision = s.revision + 1;
          omitted_count = min (s.omitted_count + 1) max_u64;
        };
        value = false;
      })
  keeps :
      s.revision ≢ max_u64
      → length s.pending < s.capacity
      → Enqueued s event (record {
        outbox = record (event_counted s) { pending = s.pending ++ event ∷ [] };
        value = true;
      })

pub data Prepared (s : DiagnosticOutbox) (batch : DiagnosticBatch)
    : Returned (Option DiagnosticBatch) → Type 0 where
  repeats :
      (b : DiagnosticBatch)
      → s.in_flight ≡ some b
      → Prepared s batch (record { outbox = s; value = some b })
  idle : s.in_flight ≡ none → Prepared s batch (record { outbox = s; value = none })
  sends :
      s.in_flight ≡ none
      → s.revision ≢ max_u64
      → Prepared s batch (record {
        outbox = record (batch_counted s) { in_flight = some batch };
        value = some batch;
      })

pub data Acked (s : DiagnosticOutbox) (batch_id : List ℕ) : Returned Bool → Type 0 where
  refuses : Acked s batch_id (record { outbox = s; value = false })
  acks :
      (b : DiagnosticBatch)
      → s.in_flight ≡ some b
      → s.revision ≢ max_u64
      → bytes_eq b.batch_id batch_id ≡ true
      → b.omitted_count ≤ s.omitted_count
      → events_eq (take (length b.events) s.pending) b.events ≡ true
      → Acked s batch_id (record {
        outbox = record s {
          pending = drop (length b.events) s.pending;
          omitted_count = s.omitted_count - b.omitted_count;
          in_flight = none;
          revision = s.revision + 1;
        };
        value = true;
      })

unequal : (a b : ℕ) → (a == b) ≡ false → a ≢ b
unequal a b h = λ e. ground arith

module _ (blake3_hex : List ℕ → List ℕ) where
  pub enqueue-Enqueued :
      (origin code message : List ℕ) (path : Option (List ℕ)) (s : DiagnosticOutbox)
      → Enqueued s
          (event_of blake3_hex (event_counted s) origin code message path)
          (enqueue blake3_hex origin code message path s)
  unfolding enqueue
  enqueue-Enqueued origin code message path s =
      let event = event_of blake3_hex (event_counted s) origin code message path in
      if-cases (Enqueued s event) (s.revision == max_u64) _ _
        (λ spent. exhausted (ground (arith, spent)))
        (λ left.
          if-cases (Enqueued s event) (leb s.capacity (length s.pending) || s.next_event == max_u64)
            _ _ (λ full. omits (unequal s.revision max_u64 left))
            (λ room. keeps (unequal s.revision max_u64 left) (ground (arith, room))))

  pub prepare_batch-Prepared :
      (s : DiagnosticOutbox)
      → Prepared s (new_batch blake3_hex (batch_counted s)) (prepare_batch blake3_hex s)
  unfolding prepare_batch
  prepare_batch-Prepared s = go s.in_flight refl
    where
      batch : DiagnosticBatch
      batch = new_batch blake3_hex (batch_counted s)

      go :
          (flight : Option DiagnosticBatch)
          → s.in_flight ≡ flight
          → Prepared s batch (prepare_with blake3_hex flight s)
      go (some b) e = repeats b e
      go none e =
          if-cases (Prepared s batch)
            ((no_events s.pending && s.omitted_count == 0)
              || s.next_batch == max_u64
              || s.revision == max_u64)
            _ _ (λ spent. idle e)
            (λ left. sends e (unequal s.revision max_u64 (ground (arith, left))))

pub ack-Acked : (batch_id : List ℕ) (s : DiagnosticOutbox) → Acked s batch_id (ack batch_id s)
unfolding ack
ack-Acked batch_id s =
    if-cases (Acked s batch_id) (s.revision == max_u64) _ _ (λ spent. refuses)
      (λ left. go (unequal s.revision max_u64 left) s.in_flight refl)
  where
    go :
        (s.revision ≢ max_u64)
        → (flight : Option DiagnosticBatch) → s.in_flight ≡ flight
        → Acked s batch_id (ack_with batch_id flight s)
    go left none e = refuses
    go left (some b) e =
        if-cases (Acked s batch_id) (not (bytes_eq b.batch_id batch_id)) _ _ (λ other. refuses)
          (λ same.
            if-cases (Acked s batch_id)
              (ltb s.omitted_count b.omitted_count
                || not (events_eq (take (length b.events) s.pending) b.events))
              _ _ (λ changed. refuses)
              (λ kept.
                acks b e left (ground (arith, same)) (ground (arith, kept)) (ground (arith, kept))))

-- The calls that change an outbox.
pub data Operation : Type 0 where
  enqueues : (origin code message : List ℕ) → Option (List ℕ) → Operation
  prepares : Operation
  acks_batch : List ℕ → Operation
  sets_attempt : List ℕ → Operation

module _ (blake3_hex : List ℕ → List ℕ) where
  unfoldable pub performed : Operation → DiagnosticOutbox → DiagnosticOutbox
  performed (enqueues origin code message path) s =
      (enqueue blake3_hex origin code message path s).outbox
  performed prepares s = (prepare_batch blake3_hex s).outbox
  performed (acks_batch batch_id) s = (ack batch_id s).outbox
  performed (sets_attempt attempt_id) s = set_attempt attempt_id s

  unfoldable pub performed_all : List Operation → DiagnosticOutbox → DiagnosticOutbox
  unfolding performed
  performed_all [] s = s
  performed_all (op ∷ ops) s = performed_all ops (performed op s)
