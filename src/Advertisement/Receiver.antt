-- ===== src/Advertisement/Receiver.antt =====
-- crates/app/src/remote_advertisement.rs: `RemoteAdvertisementReceiver`, which takes one event after
-- the other, and `receive`, which takes them all.
use terrasync_rs.Base.{
  ℕ, Bool, true, false, not, ◌&&◌, ◌||◌, Option, none, some, List, [], ◌∷◌, ◌++◌, length, ltb, ◌==◌,
  if◌then◌else◌,
}
use terrasync_rs.Advertisement.{
  entry_scope, backend_session, runtime, AdvertisementFailureScope, AdvertisementFailure,
  AdvertisedObservation, ObservationPage, AdvertisementTerminal, completed, cancelled, failed,
  AdvertisementEvent, page, entry_failure, terminal, protocol_error, snapshot_decode,
  count_mismatch, remote_cancelled, peer_failed, Result, ok, err, Numbered, RemoteAdvertisement,
  Snapshots, checked_next, no_entries,
}

-- The validator of the other side.
pub record RemoteAdvertisementReceiver : Type 0 where
  pub maximum_page_entries : ℕ
  pub expected_page : ℕ
  pub expected_ndx : ℕ
  pub entry_failures : ℕ
  pub terminated : Bool

pub data AdvertisementReceipt (E : Type 0) : Type 0 where
  page_received : (sequence : ℕ) → List (Numbered E) → AdvertisementReceipt E
  failure_received : AdvertisementFailure → AdvertisementReceipt E
  all_received : (page_count observed_entries entry_failures : ℕ) → AdvertisementReceipt E

-- The receiver after a call, and what the call returns.
pub record Accepted (E : Type 0) : Type 0 where
  pub receiver : RemoteAdvertisementReceiver
  pub receipt : Result (AdvertisementReceipt E)

-- The number to expect after the entries of a page, and the entries, the first first.
pub record Decoded (E : Type 0) : Type 0 where
  pub expected_ndx : ℕ
  pub entries : Result (List (Numbered E))

unfoldable pub new_receiver : ℕ → RemoteAdvertisementReceiver
new_receiver maximum_page_entries = record {
  maximum_page_entries = maximum_page_entries;
  expected_page = 0;
  expected_ndx = 0;
  entry_failures = 0;
  terminated = false;
}

unfoldable pub is_entry_scope : AdvertisementFailureScope → Bool
is_entry_scope entry_scope = true
is_entry_scope backend_session = false
is_entry_scope runtime = false

-- `validate_counts`, and what follows it.
unfoldable pub validated :
    {E : Type 0}
    → (observed failures reported_observed reported_failures : ℕ) → Result (AdvertisementReceipt E)
    → Result (AdvertisementReceipt E)
validated observed failures reported_observed reported_failures next =
    if observed == reported_observed && failures == reported_failures
    then next
    else err (count_mismatch observed failures reported_observed reported_failures)

module _ {E : Type 0} (snapshots : Snapshots E) where
  unfoldable pub with_entry : Numbered E → Result (List (Numbered E)) → Result (List (Numbered E))
  with_entry n (ok es) = ok (n ∷ es)
  with_entry n (err e) = err e

  -- One entry, after its number, with the rest of the page for the next number.
  unfoldable pub decoded_entry : ℕ → Option E → Option ℕ → (ℕ → Decoded E) → Decoded E
  unfolding with_entry
  decoded_entry ndx none next rest = record { expected_ndx = ndx; entries = err snapshot_decode }
  decoded_entry ndx (some e) none rest = record { expected_ndx = ndx; entries = err protocol_error }
  decoded_entry ndx (some e) (some next) rest = record {
    expected_ndx = (rest next).expected_ndx;
    entries = with_entry (record { ndx = ndx; entry = e }) (rest next).entries;
  }

  unfoldable pub decode_entries : List AdvertisedObservation → ℕ → Decoded E
  unfolding decoded_entry checked_next
  decode_entries [] expected = record { expected_ndx = expected; entries = ok [] }
  decode_entries (a ∷ advertised) expected =
      let read =
        decoded_entry expected (snapshots.decode_snapshot a.snapshot) (checked_next expected)
          (decode_entries advertised) in
      if not (a.ndx == expected)
      then record { expected_ndx = expected; entries = err protocol_error }
      else read

  -- `r` expects the entries behind the page already.
  unfoldable pub page_accepted :
      ObservationPage
      → Result (List (Numbered E))
      → Option ℕ
      → RemoteAdvertisementReceiver
      → Accepted E
  page_accepted p (err e) next r = record { receiver = r; receipt = err e }
  page_accepted p (ok es) none r = record { receiver = r; receipt = err protocol_error }
  page_accepted p (ok es) (some next) r = record {
    receiver = record r { expected_page = next };
    receipt = ok (page_received p.sequence es);
  }

  unfoldable pub failure_accepted :
      AdvertisementFailure → Option ℕ → RemoteAdvertisementReceiver → Accepted E
  failure_accepted f none r = record { receiver = r; receipt = err protocol_error }
  failure_accepted f (some next) r = record {
    receiver = record r { entry_failures = next };
    receipt = ok (failure_received f);
  }

  unfoldable pub concluded :
      AdvertisementTerminal → RemoteAdvertisementReceiver → Result (AdvertisementReceipt E)
  unfolding validated
  concluded (completed observed failures) r =
      validated r.expected_ndx r.entry_failures observed failures
        (ok (all_received r.expected_page r.expected_ndx r.entry_failures))
  concluded (cancelled observed failures) r =
      validated r.expected_ndx r.entry_failures observed failures
        (err (remote_cancelled r.expected_ndx r.entry_failures))
  concluded (failed observed failures f) r =
      validated r.expected_ndx r.entry_failures observed failures (err (peer_failed f.diagnostic))

  -- The match of `accept`, on a receiver that is not terminated.
  unfoldable pub accepted_event : AdvertisementEvent → RemoteAdvertisementReceiver → Accepted E
  unfolding decode_entries page_accepted checked_next failure_accepted is_entry_scope concluded
      no_entries
  accepted_event (page p) r =
      if not (p.sequence == r.expected_page)
      then record { receiver = r; receipt = err protocol_error }
      else if no_entries p.entries || ltb r.maximum_page_entries (length p.entries)
      then record { receiver = r; receipt = err protocol_error }
      else (let read = decode_entries p.entries r.expected_ndx in
          page_accepted p read.entries (checked_next r.expected_page)
            (record r { expected_ndx = read.expected_ndx }))
  accepted_event (entry_failure f) r =
      if not (is_entry_scope f.scope)
      then record { receiver = r; receipt = err protocol_error }
      else failure_accepted f (checked_next r.entry_failures) r
  accepted_event (terminal t) r =
      let ended_receiver = record r { terminated = true } in
      record { receiver = ended_receiver; receipt = concluded t ended_receiver }

  unfoldable pub accept : AdvertisementEvent → RemoteAdvertisementReceiver → Accepted E
  unfolding accepted_event
  accept event r =
      if r.terminated
      then record { receiver = r; receipt = err protocol_error }
      else accepted_event event r

  -- `entries.extend(page.entries)`, one after the other.
  unfoldable pub extend : List (Numbered E) → List (Numbered E) → List (Numbered E)
  extend [] entries = entries
  extend (n ∷ ns) entries = extend ns (n ∷ entries)

  unfoldable pub only_terminal :
      List AdvertisementEvent → RemoteAdvertisement E → Result (RemoteAdvertisement E)
  only_terminal [] ledger = ok ledger
  only_terminal (event ∷ events) ledger = err protocol_error

  -- What `receive` does with a receipt; `later` is the loop on the events behind it.
  unfoldable pub received :
      AdvertisementReceipt E
      → List AdvertisementEvent
      → List (Numbered E)
      → List AdvertisementFailure
      → (List (Numbered E) → List AdvertisementFailure → Result (RemoteAdvertisement E))
      → Result (RemoteAdvertisement E)
  unfolding extend only_terminal
  received (page_received sequence es) events entries failures later =
      later (extend es entries) failures
  received (failure_received f) events entries failures later = later entries (failures ++ f ∷ [])
  received (all_received pages observed failed_count) events entries failures later =
      only_terminal events (record {
        entries = entries;
        failures = failures;
        page_count = pages;
        observed_entries = observed;
        entry_failures = failed_count;
      })

  unfoldable pub received_or :
      Result (AdvertisementReceipt E)
      → List AdvertisementEvent
      → List (Numbered E)
      → List AdvertisementFailure
      → (List (Numbered E) → List AdvertisementFailure → Result (RemoteAdvertisement E))
      → Result (RemoteAdvertisement E)
  unfolding received
  received_or (err e) events entries failures later = err e
  received_or (ok receipt) events entries failures later =
      received receipt events entries failures later

  unfoldable pub receive :
      List AdvertisementEvent
      → RemoteAdvertisementReceiver
      → List (Numbered E)
      → List AdvertisementFailure
      → Result (RemoteAdvertisement E)
  unfolding accept received_or
  receive [] r entries failures = err protocol_error
  receive (event ∷ events) r entries failures =
      let step = accept event r in
      received_or step.receipt events entries failures (receive events step.receiver)
