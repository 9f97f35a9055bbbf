-- ===== src/Diagnostics/Outbox/Delivery.antt =====
-- crates/app/src/consumer/stats/diagnostics.rs: what becomes of the events and of the count of
-- omitted ones over a history of calls.
use terrasync_rs.Base.{
  ℕ, ◌+◌, ◌≤◌, ◌<◌, List, [], ◌∷◌, ◌++◌, append-nil, append_assoc, Bool, false, Option, none, some,
  length, take, drop, length-take, length-append, take-append, take-append-drop, take-min, ◌||◌,
  ◌==◌, if◌then◌else◌, ◌≡◌, refl, sym, ap, ◌∙◌, subst, arith,
}
use terrasync_rs.Diagnostics.Outbox.{
  DiagnosticEvent, DiagnosticBatch, DiagnosticOutbox, max_u64, new, set_attempt, Returned, event_of,
  enqueue, new_batch, prepare_batch, ack,
}
use terrasync_rs.Diagnostics.Outbox.Branches.{
  event_counted, Enqueued, exhausted, omits, keeps, Prepared, repeats, idle, sends, Acked, refuses,
  acks, enqueue-Enqueued, prepare_batch-Prepared, ack-Acked, Operation, enqueues, prepares,
  acks_batch, sets_attempt,
}

-- An outbox with what its calls have done so far: the events that it took, in order, the calls that
-- it counted as omitted, and the events and the omissions of the batches acknowledged to it.
pub record History : Type 0 where
  pub outbox : DiagnosticOutbox
  pub taken : List DiagnosticEvent
  pub omitted : ℕ
  pub delivered : List DiagnosticEvent
  pub reported : ℕ

abbrev pub events_of : Option DiagnosticBatch → List DiagnosticEvent
events_of none = []
events_of (some b) = b.events

abbrev pub omissions_of : Option DiagnosticBatch → ℕ
omissions_of none = 0
omissions_of (some b) = b.omitted_count

abbrev after_enqueue : DiagnosticEvent → History → Returned Bool → History
after_enqueue event h r = record h {
  outbox = r.outbox;
  taken = if r.value then h.taken ++ event ∷ [] else h.taken;
  omitted = if r.value || h.outbox.revision == max_u64 then h.omitted else h.omitted + 1;
}

abbrev after_ack : History → Returned Bool → History
after_ack h r = record h {
  outbox = r.outbox;
  delivered = if r.value then h.delivered ++ events_of h.outbox.in_flight else h.delivered;
  reported = if r.value then h.reported + omissions_of h.outbox.in_flight else h.reported;
}

module _ (blake3_hex : List ℕ → List ℕ) where
  unfoldable pub step : Operation → History → History
  step (enqueues origin code message path) h =
      after_enqueue (event_of blake3_hex (event_counted h.outbox) origin code message path) h
        (enqueue blake3_hex origin code message path h.outbox)
  step prepares h = record h { outbox = (prepare_batch blake3_hex h.outbox).outbox }
  step (acks_batch batch_id) h = after_ack h (ack batch_id h.outbox)
  step (sets_attempt attempt_id) h = record h { outbox = set_attempt attempt_id h.outbox }

  unfoldable pub history : List Operation → History → History
  unfolding step
  history [] h = h
  history (op ∷ ops) h = history ops (step op h)

abbrev pub fresh : DiagnosticOutbox → History
fresh s = record { outbox = s; taken = []; omitted = 0; delivered = []; reported = 0 }

-- The batch in flight is a first part of the events pending, and its omissions are counted.
abbrev pub Flies : DiagnosticOutbox → Option DiagnosticBatch → Type 0
Flies s none = Unit
Flies s (some b) =
    (b.events ≡ take (length b.events) s.pending)
    × (length b.events ≤ length s.pending)
    × (b.omitted_count ≤ s.omitted_count)

pub record Accounted (h : History) : Type 0 where
  pub events : h.taken ≡ h.delivered ++ h.outbox.pending
  pub omissions : h.omitted ≡ h.reported + h.outbox.omitted_count
  pub counted : h.outbox.omitted_count ≤ h.outbox.revision
  pub revised : h.outbox.revision ≤ max_u64
  pub flight : Flies h.outbox h.outbox.in_flight

Flies-grown :
    (s t : DiagnosticOutbox) (more : List DiagnosticEvent) (flight : Option DiagnosticBatch)
    → t.pending ≡ s.pending ++ more
    → s.omitted_count ≤ t.omitted_count
    → Flies s flight
    → Flies t flight
Flies-grown s t more none grown le f = tt
Flies-grown s t more (some b) grown le f = (
  f.0 ∙ sym (ap (take (length b.events)) grown ∙ take-append (length b.events) s.pending more f.1),
  subst (λ p. length b.events ≤ length p) (sym grown)
      (omega (arith, f.1, length-append s.pending more)),
  omega (arith, f.2),
)

enqueue-Accounted :
    (h : History) (event : DiagnosticEvent) (r : Returned Bool)
    → Enqueued h.outbox event r
    → Accounted h
    → Accounted (after_enqueue event h r)
enqueue-Accounted h event _ (exhausted spent) a = record {
  events = a.events;
  omissions = rw (spent) a.omissions;
  counted = a.counted;
  revised = a.revised;
  flight = a.flight;
}
enqueue-Accounted h event r (omits left) a = record {
  events = a.events;
  omissions =
      let uncounted : (h.outbox.revision == max_u64) ≡ false = ground arith in
      let below : h.outbox.revision < max_u64 = ground (arith, a.revised) in
      rw uncounted (omega (arith, a.omissions, a.counted, below));
  counted = omega (arith, a.counted);
  revised = ground (arith, a.revised, left);
  flight =
      Flies-grown h.outbox r.outbox [] h.outbox.in_flight (sym (append-nil h.outbox.pending))
        (omega (arith, a.counted, a.revised)) a.flight;
}
enqueue-Accounted h event r (keeps left room) a = record {
  events =
      ap (λ es. es ++ event ∷ []) a.events ∙ append_assoc h.delivered h.outbox.pending (event ∷ []);
  omissions = a.omissions;
  counted = omega (arith, a.counted);
  revised = ground (arith, a.revised, left);
  flight =
      Flies-grown h.outbox r.outbox (event ∷ []) h.outbox.in_flight refl (omega arith) a.flight;
}

prepare-Accounted :
    (h : History) (r : Returned (Option DiagnosticBatch)) (id : List ℕ)
    → Prepared h.outbox
        (record {
          batch_id = id;
          events = take h.outbox.batch_size h.outbox.pending;
          omitted_count = h.outbox.omitted_count;
        })
        r
    → Accounted h
    → Accounted (record h { outbox = r.outbox })
prepare-Accounted h _ id (repeats b e) a = a
prepare-Accounted h _ id (idle e) a = a
prepare-Accounted h r id (sends e left) a = record {
  events = a.events;
  omissions = a.omissions;
  counted = omega (arith, a.counted);
  revised = ground (arith, a.revised, left);
  flight = (
    sym (
        ap (λ n. take n h.outbox.pending) (length-take h.outbox.batch_size h.outbox.pending)
        ∙ take-min h.outbox.batch_size h.outbox.pending),
    omega (arith, length-take h.outbox.batch_size h.outbox.pending),
    omega arith,
  );
}

ack-Accounted :
    (h : History) (batch_id : List ℕ) (r : Returned Bool)
    → Acked h.outbox batch_id r
    → Accounted h
    → Accounted (after_ack h r)
ack-Accounted h batch_id _ refuses a = a
ack-Accounted h batch_id r (acks b e left same le equal) a =
    let f = subst (Flies h.outbox) e a.flight in
    record {
      events =
          a.events
          ∙ ap (◌++◌ h.delivered) (
              sym (take-append-drop (length b.events) h.outbox.pending)
              ∙ ap (λ es. es ++ drop (length b.events) h.outbox.pending) (sym f.0))
          ∙ sym (append_assoc h.delivered b.events (drop (length b.events) h.outbox.pending))
          ∙ ap (λ o. (h.delivered ++ events_of o) ++ drop (length b.events) h.outbox.pending)
              (sym e);
      omissions = rw (e) (omega (arith, a.omissions, le));
      counted = omega (arith, a.counted);
      revised = ground (arith, a.revised, left);
      flight = tt;
    }

module _ (blake3_hex : List ℕ → List ℕ) where
  step-Accounted : (op : Operation) (h : History) → Accounted h → Accounted (step blake3_hex op h)
  unfolding step set_attempt new_batch
  step-Accounted (enqueues origin code message path) h a =
      enqueue-Accounted h _ _ (enqueue-Enqueued blake3_hex origin code message path h.outbox) a
  step-Accounted prepares h a =
      prepare-Accounted h _ _ (prepare_batch-Prepared blake3_hex h.outbox) a
  step-Accounted (acks_batch batch_id) h a =
      ack-Accounted h batch_id _ (ack-Acked batch_id h.outbox) a
  step-Accounted (sets_attempt attempt_id) h a = record {
    events = a.events;
    omissions = a.omissions;
    counted = a.counted;
    revised = a.revised;
    flight =
        Flies-grown h.outbox (set_attempt attempt_id h.outbox) [] h.outbox.in_flight
          (sym (append-nil h.outbox.pending)) (omega arith) a.flight;
  }

  pub history-Accounted :
      (ops : List Operation) (h : History) → Accounted h → Accounted (history blake3_hex ops h)
  unfolding history
  history-Accounted [] h a = a
  history-Accounted (op ∷ ops) h a =
      history-Accounted ops (step blake3_hex op h) (step-Accounted op h a)

  pub new-Accounted :
      (round_id attempt_id : List ℕ) (capacity batch_size : ℕ)
      → Accounted (fresh (new round_id attempt_id capacity batch_size))
  unfolding new
  new-Accounted round_id attempt_id capacity batch_size = record {
    events = refl;
    omissions = refl;
    counted = omega arith;
    revised = omega arith;
    flight = tt;
  }

  -- After any calls on a new outbox, the events of the acknowledged batches followed by those
  -- still pending are exactly the events that enqueue took, once each and in order; and the
  -- omissions of the acknowledged batches with those still to report are exactly the calls that
  -- enqueue counted as omitted.
  pub history-delivered :
      (ops : List Operation) (round_id attempt_id : List ℕ) (capacity batch_size : ℕ)
      → let h = history blake3_hex ops (fresh (new round_id attempt_id capacity batch_size)) in
        (h.delivered ++ h.outbox.pending ≡ h.taken)
        × (h.reported + h.outbox.omitted_count ≡ h.omitted)
  history-delivered ops round_id attempt_id capacity batch_size =
      let a = history-Accounted ops _ (new-Accounted round_id attempt_id capacity batch_size) in
      (sym a.events, sym a.omissions)
