-- ===== src/Diagnostics/Outbox/Conditions.antt =====
-- crates/app/src/consumer/stats/diagnostics.rs: the conditions of `validate_identity`, on each branch
-- of the outbox's operations.
use terrasync_rs.Base.{
  ℕ, zero, suc, ◌≤◌, List, [], ◌∷◌, ◌++◌, Bool, true, ◌&&◌, Option, none, some, length, take, drop,
  length-take, length-drop, length-append, append-nil, take-append, leb, leb→le, le→leb,
  bytes_eq_refl, ◌≡◌, refl, sym, ap, ◌∙◌, arith,
}
use terrasync_rs.Diagnostics.Outbox.Branches.{
  Enqueued, exhausted, omits, keeps, Prepared, repeats, idle, sends, Acked, refuses, acks,
}
use terrasync_rs.Diagnostics.Outbox.{
  DiagnosticEvent, DiagnosticBatch, DiagnosticOutbox, max_u64, is_digest, path_eq, event_eq,
  events_eq, pending_valid, in_flight_valid, validate_identity, Returned,
}

&&-intro : (a b : Bool) → a ≡ true → b ≡ true → (a && b) ≡ true
&&-intro a b ha hb = ground arith

path_eq_refl : (p : Option (List ℕ)) → path_eq p p ≡ true
unfolding path_eq
path_eq_refl none = refl
path_eq_refl (some p) = bytes_eq_refl p

event_eq_refl : (e : DiagnosticEvent) → event_eq e e ≡ true
unfolding event_eq
event_eq_refl e =
    rw
      (
        bytes_eq_refl e.event_id,
        bytes_eq_refl e.round_id,
        bytes_eq_refl e.attempt_id,
        bytes_eq_refl e.origin,
        bytes_eq_refl e.code,
        bytes_eq_refl e.message,
      )
      (path_eq_refl e.path)

pub events_eq_refl : (es : List DiagnosticEvent) → events_eq es es ≡ true
unfolding events_eq
events_eq_refl [] = refl
events_eq_refl (e ∷ es) = rw (event_eq_refl e) (events_eq_refl es)

events_eq-length : (xs ys : List DiagnosticEvent) → events_eq xs ys ≡ true → length xs ≡ length ys
unfolding events_eq
events_eq-length [] [] h = refl
events_eq-length [] (y ∷ ys) h = absurd (ground arith)
events_eq-length (x ∷ xs) [] h = absurd (ground arith)
events_eq-length (x ∷ xs) (y ∷ ys) h = ground (arith, events_eq-length xs ys)

pending_valid-append :
    (round : List ℕ) (es fs : List DiagnosticEvent)
    → pending_valid round es ≡ true
    → pending_valid round fs ≡ true
    → pending_valid round (es ++ fs) ≡ true
unfolding pending_valid
pending_valid-append round [] fs hes hfs = hfs
pending_valid-append round (e ∷ es) fs hes hfs = ground (arith, pending_valid-append round es fs)

pending_valid-drop :
    (round : List ℕ) (n : ℕ) (es : List DiagnosticEvent)
    → pending_valid round es ≡ true
    → pending_valid round (drop n es) ≡ true
unfolding pending_valid
pending_valid-drop round zero es h = h
pending_valid-drop round (suc n) [] h = h
pending_valid-drop round (suc n) (e ∷ es) h = ground (arith, pending_valid-drop round n es)

-- What `validate_identity` asks of an outbox with the identity that it has.
abbrev pub IsValid : DiagnosticOutbox → Type 0
IsValid s = validate_identity s.round_id s.attempt_id s ≡ true

-- The six conditions of `validate_identity` that do not compare identities.
pub record Valid (s : DiagnosticOutbox) : Type 0 where
  pub capacity : leb s.capacity 512 ≡ true
  pub batch : (leb 1 s.batch_size && leb s.batch_size 64) ≡ true
  pub room : leb (length s.pending) s.capacity ≡ true
  pub events : pending_valid s.round_id s.pending ≡ true
  pub flight : in_flight_valid s s.in_flight ≡ true

pub Valid-IsValid : (s : DiagnosticOutbox) → Valid s → IsValid s
unfolding validate_identity
Valid-IsValid s v =
    rw
      (
        bytes_eq_refl s.round_id,
        bytes_eq_refl s.attempt_id,
        v.capacity,
        v.batch,
        v.room,
        v.events,
        v.flight,
      )
      refl

pub IsValid-Valid : (s : DiagnosticOutbox) → IsValid s → Valid s
unfolding validate_identity
IsValid-Valid s h = record {
  capacity = ground (arith, h);
  batch = ground (arith, h);
  room = ground (arith, h);
  events = ground (arith, h);
  flight = ground (arith, h);
}

pub in_flight_valid-grown :
    (s t : DiagnosticOutbox) (more : List DiagnosticEvent) (flight : Option DiagnosticBatch)
    → t.pending ≡ s.pending ++ more
    → t.batch_size ≡ s.batch_size
    → s.omitted_count ≤ t.omitted_count
    → in_flight_valid s flight ≡ true
    → in_flight_valid t flight ≡ true
unfolding in_flight_valid
in_flight_valid-grown s t more none grown same le h = refl
in_flight_valid-grown s t more (some b) grown same le h =
    let parts : (is_digest b.batch_id ≡ true)
        × (leb (length b.events) s.batch_size ≡ true)
        × (leb b.omitted_count s.omitted_count ≡ true)
        × (events_eq (take (length b.events) s.pending) b.events ≡ true) =
      ground arith in
    let fewer = leb→le b.omitted_count s.omitted_count parts.2 in
    let short = events_eq-length _ b.events parts.3 in
    let prefix : take (length b.events) t.pending ≡ take (length b.events) s.pending =
      ap (take (length b.events)) grown
      ∙ take-append (length b.events) s.pending more
          (omega (arith, short, length-take (length b.events) s.pending)) in
    let counted : leb b.omitted_count t.omitted_count ≡ true = le→leb _ _ (omega (arith, fewer)) in
    rw (parts.0, same, parts.1, counted, prefix, parts.3) refl

pub enqueue-Valid :
    (s : DiagnosticOutbox) (event : DiagnosticEvent) (r : Returned Bool)
    → pending_valid s.round_id (event ∷ []) ≡ true
    → s.omitted_count ≤ max_u64
    → Enqueued s event r
    → Valid s
    → Valid r.outbox
enqueue-Valid s event _ fine le (exhausted spent) v = v
enqueue-Valid s event r fine le (omits left) v = record {
  capacity = v.capacity;
  batch = v.batch;
  room = v.room;
  events = v.events;
  flight =
      in_flight_valid-grown s r.outbox [] s.in_flight (sym (append-nil s.pending)) refl
        (omega (arith, le)) v.flight;
}
enqueue-Valid s event r fine le (keeps left room) v = record {
  capacity = v.capacity;
  batch = v.batch;
  room = le→leb _ _ (omega (arith, room, length-append s.pending (event ∷ [])));
  events = pending_valid-append s.round_id s.pending (event ∷ []) v.events fine;
  flight =
      in_flight_valid-grown s r.outbox (event ∷ []) s.in_flight refl refl (omega arith) v.flight;
}

pub prepare-Valid :
    (s : DiagnosticOutbox) (batch : DiagnosticBatch) (r : Returned (Option DiagnosticBatch))
    → in_flight_valid s (some batch) ≡ true
    → Prepared s batch r
    → Valid s
    → Valid r.outbox
unfolding in_flight_valid
prepare-Valid s batch _ fine (repeats b e) v = v
prepare-Valid s batch _ fine (idle e) v = v
prepare-Valid s batch _ fine (sends e left) v = record {
  capacity = v.capacity;
  batch = v.batch;
  room = v.room;
  events = v.events;
  flight = fine;
}

pub ack-Valid :
    (s : DiagnosticOutbox) (batch_id : List ℕ) (r : Returned Bool)
    → Acked s batch_id r
    → Valid s
    → Valid r.outbox
unfolding in_flight_valid
ack-Valid s batch_id _ refuses v = v
ack-Valid s batch_id _ (acks b e left same le equal) v = record {
  capacity = v.capacity;
  batch = v.batch;
  room = le→leb _ _ (
      omega (
        arith,
        length-drop (length b.events) s.pending,
        leb→le (length s.pending) s.capacity v.room,
      ));
  events = pending_valid-drop s.round_id (length b.events) s.pending v.events;
  flight = refl;
}
