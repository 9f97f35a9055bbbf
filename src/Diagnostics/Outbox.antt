-- ===== src/Diagnostics/Outbox.antt =====
-- crates/app/src/consumer/stats/diagnostics.rs: `DiagnosticOutbox`, the queue of events of which one
-- batch at a time is in flight. `identifier` hashes with BLAKE3, which is the parameter of the
-- operations that make identifiers: the digest of a text, in hex digits.
pub mod Branches
pub mod Conditions
pub mod Identity
pub mod Delivery
pub mod Acknowledgement
use terrasync_rs.Base.{
  ℕ, zero, suc, ◌+◌, ◌-◌, ◌/◌, ◌%◌, ◌^◌, min, max, List, [], ◌∷◌, ◌++◌, Bool, true, false, not,
  ◌&&◌, ◌||◌, Option, none, some, length, take, drop, ltb, leb, ◌==◌, bytes_eq, if◌then◌else◌,
}
use terrasync_rs.Diagnostics.Text.{
  max_diagnostic_text_bytes, max_diagnostic_label_bytes, text_len, safe_diagnostic_text,
  safe_diagnostic_label,
}

pub record DiagnosticEvent : Type 0 where
  pub event_id : List ℕ
  pub round_id : List ℕ
  pub attempt_id : List ℕ
  pub origin : List ℕ
  pub code : List ℕ
  pub message : List ℕ
  pub path : Option (List ℕ)

pub record DiagnosticBatch : Type 0 where
  pub batch_id : List ℕ
  pub events : List DiagnosticEvent
  pub omitted_count : ℕ

abbrev pub max_diagnostic_batch_events : ℕ
max_diagnostic_batch_events = 64

abbrev pub max_diagnostic_queue_events : ℕ
max_diagnostic_queue_events = 512

pub record DiagnosticOutbox : Type 0 where
  pub round_id : List ℕ
  pub attempt_id : List ℕ
  pub capacity : ℕ
  pub batch_size : ℕ
  pub revision : ℕ
  pub next_event : ℕ
  pub next_batch : ℕ
  pub omitted_count : ℕ
  pub pending : List DiagnosticEvent
  pub in_flight : Option DiagnosticBatch

-- u64::MAX
abbrev pub max_u64 : ℕ
max_u64 = 2 ^ 64 - 1

unfoldable pub new : (round_id attempt_id : List ℕ) (capacity batch_size : ℕ) → DiagnosticOutbox
new round_id attempt_id capacity batch_size = record {
  round_id = round_id;
  attempt_id = attempt_id;
  capacity = min capacity max_diagnostic_queue_events;
  batch_size = min (max batch_size 1) max_diagnostic_batch_events;
  revision = 0;
  next_event = 0;
  next_batch = 0;
  omitted_count = 0;
  pending = [];
  in_flight = none;
}

-- u8::is_ascii_hexdigit
unfoldable pub is_hexdigit : ℕ → Bool
is_hexdigit c = (leb 48 c && leb c 57) || (leb 65 c && leb c 70) || (leb 97 c && leb c 102)

unfoldable pub all_hexdigits : List ℕ → Bool
unfolding is_hexdigit
all_hexdigits [] = true
all_hexdigits (c ∷ cs) = is_hexdigit c && all_hexdigits cs

-- `all_hexdigits` on the bytes: a hex digit is a character of one byte.
unfoldable pub is_digest : List ℕ → Bool
unfolding all_hexdigits
is_digest value = text_len value == 64 && all_hexdigits value

unfoldable pub path_is_bounded : Option (List ℕ) → Bool
path_is_bounded none = true
path_is_bounded (some text) = leb (text_len text) max_diagnostic_text_bytes

unfoldable pub is_bounded : DiagnosticEvent → Bool
is_bounded e =
    is_digest e.event_id
    && leb (text_len e.origin) max_diagnostic_label_bytes
    && leb (text_len e.code) max_diagnostic_label_bytes
    && leb (text_len e.message) max_diagnostic_text_bytes
    && path_is_bounded e.path

unfoldable pub path_eq : Option (List ℕ) → Option (List ℕ) → Bool
path_eq none none = true
path_eq none (some q) = false
path_eq (some p) none = false
path_eq (some p) (some q) = bytes_eq p q

-- The derived equality of events.
unfoldable pub event_eq : DiagnosticEvent → DiagnosticEvent → Bool
unfolding path_eq bytes_eq
event_eq a b =
    bytes_eq a.event_id b.event_id
    && bytes_eq a.round_id b.round_id
    && bytes_eq a.attempt_id b.attempt_id
    && bytes_eq a.origin b.origin
    && bytes_eq a.code b.code
    && bytes_eq a.message b.message
    && path_eq a.path b.path

unfoldable pub events_eq : List DiagnosticEvent → List DiagnosticEvent → Bool
unfolding event_eq
events_eq [] [] = true
events_eq [] (b ∷ bs) = false
events_eq (a ∷ xs) [] = false
events_eq (a ∷ xs) (b ∷ bs) = event_eq a b && events_eq xs bs

unfoldable pub is_empty : List ℕ → Bool
is_empty [] = true
is_empty (c ∷ cs) = false

unfoldable pub pending_valid : List ℕ → List DiagnosticEvent → Bool
pending_valid round [] = true
pending_valid round (e ∷ es) =
    (bytes_eq e.round_id round && not (is_empty e.attempt_id) && is_bounded e)
    && pending_valid round es

unfoldable pub in_flight_valid : DiagnosticOutbox → Option DiagnosticBatch → Bool
in_flight_valid s none = true
in_flight_valid s (some batch) =
    is_digest batch.batch_id
    && leb (length batch.events) s.batch_size
    && leb batch.omitted_count s.omitted_count
    && events_eq (take (length batch.events) s.pending) batch.events

unfoldable pub validate_identity : List ℕ → List ℕ → DiagnosticOutbox → Bool
validate_identity round_id attempt_id s =
    bytes_eq s.round_id round_id
    && bytes_eq s.attempt_id attempt_id
    && leb s.capacity max_diagnostic_queue_events
    && (leb 1 s.batch_size && leb s.batch_size max_diagnostic_batch_events)
    && leb (length s.pending) s.capacity
    && pending_valid s.round_id s.pending
    && in_flight_valid s s.in_flight

unfoldable pub set_attempt : List ℕ → DiagnosticOutbox → DiagnosticOutbox
set_attempt attempt_id s = record s { attempt_id = attempt_id }

-- u64::saturating_add
abbrev pub saturating_add : ℕ → ℕ → ℕ
saturating_add a b = min (a + b) max_u64

-- The decimal digits of a number below 10 ^ fuel, before `digits`.
unfoldable pub decimal_loop : ℕ → ℕ → List ℕ → List ℕ
decimal_loop zero n digits = digits
decimal_loop (suc fuel) n digits =
    let longer = (48 + n % 10) ∷ digits in
    let rest = decimal_loop fuel (n / 10) longer in if ltb n 10 then longer else rest

-- A number of 64 bits as text: at most 20 digits.
unfoldable pub decimal : ℕ → List ℕ
unfolding decimal_loop
decimal n = decimal_loop 20 n []

-- "event"
abbrev pub event_kind : List ℕ
event_kind = 101 ∷ 118 ∷ 101 ∷ 110 ∷ 116 ∷ []

-- "batch"
abbrev pub batch_kind : List ℕ
batch_kind = 98 ∷ 97 ∷ 116 ∷ 99 ∷ 104 ∷ []

-- The outbox after a call, and what the call returns.
pub record Returned (R : Type 0) : Type 0 where
  pub outbox : DiagnosticOutbox
  pub value : R

unfoldable pub no_events : List DiagnosticEvent → Bool
no_events [] = true
no_events (e ∷ es) = false

module _ (blake3_hex : List ℕ → List ℕ) where
  unfoldable pub identifier : DiagnosticOutbox → List ℕ → ℕ → List ℕ
  identifier s kind sequence = blake3_hex (
      decimal (text_len s.round_id)
      ++ 58 ∷ (s.round_id ++ 58 ∷ (s.attempt_id ++ 58 ∷ (kind ++ 58 ∷ decimal sequence))))

  unfoldable pub safe_path : Option (List ℕ) → Option (List ℕ)
  safe_path none = none
  safe_path (some path) = some (safe_diagnostic_text path)

  -- The event of number `next_event`, which has been counted up already.
  unfoldable pub event_of :
      DiagnosticOutbox → (origin code message : List ℕ) → Option (List ℕ) → DiagnosticEvent
  event_of s origin code message path = record {
    event_id = identifier s event_kind s.next_event;
    round_id = s.round_id;
    attempt_id = s.attempt_id;
    origin = safe_diagnostic_label origin;
    code = safe_diagnostic_label code;
    message = safe_diagnostic_text message;
    path = safe_path path;
  }

  unfoldable pub enqueue :
      (origin code message : List ℕ) → Option (List ℕ) → DiagnosticOutbox → Returned Bool
  enqueue origin code message path s =
      if s.revision == max_u64
      then record { outbox = s; value = false }
      else if leb s.capacity (length s.pending) || s.next_event == max_u64
      then record {
        outbox = record s {
          revision = s.revision + 1;
          omitted_count = saturating_add s.omitted_count 1;
        };
        value = false;
      }
      else (let counted = record s { revision = s.revision + 1; next_event = s.next_event + 1 } in
          record {
            outbox = record counted {
              pending = s.pending ++ event_of counted origin code message path ∷ [];
            };
            value = true;
          })

  unfoldable pub new_batch : DiagnosticOutbox → DiagnosticBatch
  new_batch s = record {
    batch_id = identifier s batch_kind s.next_batch;
    events = take s.batch_size s.pending;
    omitted_count = s.omitted_count;
  }

  unfoldable pub prepare_new : DiagnosticOutbox → Returned (Option DiagnosticBatch)
  prepare_new s =
      if (no_events s.pending && s.omitted_count == 0)
        || s.next_batch == max_u64
        || s.revision == max_u64
      then record { outbox = s; value = none }
      else (let counted = record s { revision = s.revision + 1; next_batch = s.next_batch + 1 } in
          record {
            outbox = record counted { in_flight = some (new_batch counted) };
            value = some (new_batch counted);
          })

  unfoldable pub prepare_with :
      Option DiagnosticBatch → DiagnosticOutbox → Returned (Option DiagnosticBatch)
  unfolding prepare_new
  prepare_with (some batch) s = record { outbox = s; value = some batch }
  prepare_with none s = prepare_new s

  unfoldable pub prepare_batch : DiagnosticOutbox → Returned (Option DiagnosticBatch)
  unfolding prepare_with
  prepare_batch s = prepare_with s.in_flight s

-- `batch` is the one in flight.
unfoldable pub acked : List ℕ → DiagnosticBatch → DiagnosticOutbox → Returned Bool
unfolding bytes_eq events_eq
acked batch_id batch s =
    if not (bytes_eq batch.batch_id batch_id)
    then record { outbox = s; value = false }
    else if ltb s.omitted_count batch.omitted_count
        || not (events_eq (take (length batch.events) s.pending) batch.events)
    then record { outbox = s; value = false }
    else record {
      outbox = record s {
        pending = drop (length batch.events) s.pending;
        omitted_count = s.omitted_count - batch.omitted_count;
        in_flight = none;
        revision = s.revision + 1;
      };
      value = true;
    }

unfoldable pub ack_with : List ℕ → Option DiagnosticBatch → DiagnosticOutbox → Returned Bool
unfolding acked
ack_with batch_id none s = record { outbox = s; value = false }
ack_with batch_id (some batch) s = acked batch_id batch s

unfoldable pub ack : List ℕ → DiagnosticOutbox → Returned Bool
unfolding ack_with
ack batch_id s =
    if s.revision == max_u64
    then record { outbox = s; value = false }
    else ack_with batch_id s.in_flight s
