-- ===== src/Diagnostics/Outbox/Identity.antt =====
-- crates/app/src/consumer/stats/diagnostics.rs: `validate_identity`, which the restart of a scan asks
-- of the outbox that it finds, over the outbox's own operations.
use terrasync_rs.Base.{
  ℕ, ◌+◌, ◌≤◌, List, [], ◌∷◌, Bool, true, false, ◌&&◌, Option, none, some, length, take,
  length-take, append-nil, take-min, leb, le→leb, bytes_eq_refl, ◌≡◌, refl, sym, ap, ◌∙◌, All,
  arith,
}
use terrasync_rs.Diagnostics.Text.{
  max_diagnostic_text_bytes, max_diagnostic_label_bytes, text_len, text_prefix_len,
  safe_diagnostic_text, safe_diagnostic_label,
}
use terrasync_rs.Diagnostics.Outbox.Branches.{
  event_counted, batch_counted, Enqueued, exhausted, omits, keeps, Prepared, repeats, idle, sends,
  Acked, refuses, acks, enqueue-Enqueued, prepare_batch-Prepared, ack-Acked, Operation, enqueues,
  prepares, acks_batch, sets_attempt, performed, performed_all,
}
use terrasync_rs.Diagnostics.Outbox.{
  DiagnosticEvent, DiagnosticBatch, DiagnosticOutbox, max_u64, new, is_digest, path_is_bounded,
  is_bounded, is_empty, pending_valid, in_flight_valid, set_attempt, event_kind, batch_kind,
  Returned, identifier, safe_path, event_of, new_batch,
}
use terrasync_rs.Diagnostics.Outbox.Conditions.{
  events_eq_refl, IsValid, Valid, Valid-IsValid, IsValid-Valid, in_flight_valid-grown,
  enqueue-Valid, prepare-Valid, ack-Valid,
}

module _ (blake3_hex : List ℕ → List ℕ)
    (hex : (text : List ℕ) → is_digest (blake3_hex text) ≡ true) where
  label_len : (text : List ℕ) → text_len (safe_diagnostic_label text) ≤ 128
  unfolding safe_diagnostic_label
  label_len text = text_prefix_len (safe_diagnostic_text text) max_diagnostic_label_bytes

  text_len-safe : (text : List ℕ) → text_len (safe_diagnostic_text text) ≤ 2048
  unfolding safe_diagnostic_text
  text_len-safe text = text_prefix_len _ max_diagnostic_text_bytes

  path_len : (path : Option (List ℕ)) → path_is_bounded (safe_path blake3_hex path) ≡ true
  unfolding path_is_bounded safe_path
  path_len none = refl
  path_len (some text) = le→leb _ _ (text_len-safe text)

  identifier-is_digest :
      (s : DiagnosticOutbox) (kind : List ℕ) (n : ℕ)
      → is_digest (identifier blake3_hex s kind n) ≡ true
  unfolding identifier
  identifier-is_digest s kind n = hex _

  event_of-is_bounded :
      (s : DiagnosticOutbox) (origin code message : List ℕ) (path : Option (List ℕ))
      → is_bounded (event_of blake3_hex s origin code message path) ≡ true
  unfolding is_bounded event_of
  event_of-is_bounded s origin code message path =
      rw
        (
          identifier-is_digest s event_kind s.next_event,
          le→leb _ _ (label_len origin),
          le→leb _ _ (label_len code),
          le→leb _ _ (text_len-safe message),
          path_len path,
        )
        refl

-- A call that sets no empty attempt, and the outbox between such calls.
abbrev pub IsNamed : Operation → Type 0
IsNamed (enqueues origin code message path) = Unit
IsNamed prepares = Unit
IsNamed (acks_batch batch_id) = Unit
IsNamed (sets_attempt attempt_id) = is_empty attempt_id ≡ false

pub record Between (s : DiagnosticOutbox) : Type 0 where
  pub valid : Valid s
  pub named : is_empty s.attempt_id ≡ false
  pub counted : s.omitted_count ≤ max_u64

module _ (blake3_hex : List ℕ → List ℕ)
    (hex : (text : List ℕ) → is_digest (blake3_hex text) ≡ true) where
  event_of-valid :
      (s : DiagnosticOutbox) (origin code message : List ℕ) (path : Option (List ℕ))
      → is_empty s.attempt_id ≡ false
      → pending_valid s.round_id (event_of blake3_hex s origin code message path ∷ []) ≡ true
  unfolding pending_valid event_of
  event_of-valid s origin code message path named =
      rw
        (
          bytes_eq_refl s.round_id,
          named,
          event_of-is_bounded blake3_hex hex s origin code message path,
        )
        refl

  new_batch-valid :
      (s : DiagnosticOutbox)
      → (leb 1 s.batch_size && leb s.batch_size 64) ≡ true
      → in_flight_valid s (some (new_batch blake3_hex (batch_counted s))) ≡ true
  unfolding in_flight_valid new_batch
  new_batch-valid s sized =
      let fits : leb (length (take s.batch_size s.pending)) s.batch_size ≡ true =
        le→leb _ _ (omega (arith, length-take s.batch_size s.pending)) in
      let same : take (length (take s.batch_size s.pending)) s.pending
          ≡ take s.batch_size s.pending =
        ap (λ n. take n s.pending) (length-take s.batch_size s.pending)
        ∙ take-min s.batch_size s.pending in
      rw
        (
          identifier-is_digest blake3_hex hex (batch_counted s) batch_kind (s.next_batch + 1),
          fits,
          le→leb s.omitted_count s.omitted_count (omega arith),
          same,
          events_eq_refl (take s.batch_size s.pending),
        )
        refl

  enqueue-Between :
      (s : DiagnosticOutbox) (event : DiagnosticEvent) (r : Returned Bool)
      → pending_valid s.round_id (event ∷ []) ≡ true
      → Enqueued s event r
      → Between s
      → Between r.outbox
  enqueue-Between s event _ fine (exhausted spent) b = b
  enqueue-Between s event r fine (omits left) b = record {
    valid = enqueue-Valid s event r fine b.counted (omits left) b.valid;
    named = b.named;
    counted = omega arith;
  }
  enqueue-Between s event r fine (keeps left room) b = record {
    valid = enqueue-Valid s event r fine b.counted (keeps left room) b.valid;
    named = b.named;
    counted = b.counted;
  }

  prepare-Between :
      (s : DiagnosticOutbox) (batch : DiagnosticBatch) (r : Returned (Option DiagnosticBatch))
      → in_flight_valid s (some batch) ≡ true
      → Prepared s batch r
      → Between s
      → Between r.outbox
  prepare-Between s batch _ fine (repeats old e) b = b
  prepare-Between s batch _ fine (idle e) b = b
  prepare-Between s batch r fine (sends e left) b = record {
    valid = prepare-Valid s batch r fine (sends e left) b.valid;
    named = b.named;
    counted = b.counted;
  }

  ack-Between :
      (s : DiagnosticOutbox) (batch_id : List ℕ) (r : Returned Bool)
      → Acked s batch_id r
      → Between s
      → Between r.outbox
  ack-Between s batch_id _ refuses b = b
  ack-Between s batch_id r (acks old e left same le equal) b = record {
    valid = ack-Valid s batch_id r (acks old e left same le equal) b.valid;
    named = b.named;
    counted = omega (arith, b.counted);
  }

  pub performed-Between :
      (op : Operation) (s : DiagnosticOutbox)
      → IsNamed op
      → Between s
      → Between (performed blake3_hex op s)
  unfolding performed set_attempt in_flight_valid
  performed-Between (enqueues origin code message path) s n b =
      enqueue-Between s _ _ (event_of-valid (event_counted s) origin code message path b.named)
        (enqueue-Enqueued blake3_hex origin code message path s) b
  performed-Between prepares s n b =
      prepare-Between s _ _ (new_batch-valid s b.valid.batch) (prepare_batch-Prepared blake3_hex s)
        b
  performed-Between (acks_batch batch_id) s n b = ack-Between s batch_id _ (ack-Acked batch_id s) b
  performed-Between (sets_attempt attempt_id) s n b = record {
    valid = record {
      capacity = b.valid.capacity;
      batch = b.valid.batch;
      room = b.valid.room;
      events = b.valid.events;
      flight =
          in_flight_valid-grown s (set_attempt attempt_id s) [] s.in_flight
            (sym (append-nil s.pending)) refl (omega arith) b.valid.flight;
    };
    named = n;
    counted = b.counted;
  }

  performed_all-Between :
      (ops : List Operation) (s : DiagnosticOutbox)
      → All IsNamed ops
      → Between s
      → Between (performed_all blake3_hex ops s)
  unfolding performed_all
  performed_all-Between [] s n b = b
  performed_all-Between (op ∷ ops) s n b =
      performed_all-Between ops (performed blake3_hex op s) n.1 (performed-Between op s n.0 b)

  -- If hash texts are digests, an outbox that passes validate_identity under its own identity,
  -- with an attempt that is not empty and a count of omissions of 64 bits, passes it after any
  -- calls that set no empty attempt.
  pub performed_all-IsValid :
      (ops : List Operation) (s : DiagnosticOutbox)
      → All IsNamed ops
      → is_empty s.attempt_id ≡ false
      → s.omitted_count ≤ max_u64
      → IsValid s
      → IsValid (performed_all blake3_hex ops s)
  performed_all-IsValid ops s n named counted valid =
      Valid-IsValid _
        (performed_all-Between ops s n
          (record { valid = IsValid-Valid s valid; named = named; counted = counted })).valid

pub new-IsValid :
    (round_id attempt_id : List ℕ) (capacity batch_size : ℕ)
    → IsValid (new round_id attempt_id capacity batch_size)
unfolding new pending_valid in_flight_valid
new-IsValid round_id attempt_id capacity batch_size = Valid-IsValid _ (record {
  capacity = le→leb _ _ (omega arith);
  batch = ground arith;
  room = le→leb _ _ (omega arith);
  events = refl;
  flight = refl;
})
