-- ===== src/Advertisement/Follows.antt =====
-- crates/app/src/remote_advertisement.rs: the validator on the heels of the sender, event by event.
use terrasync_rs.Base.{
  ◌+◌, ◌^◌, ◌≤◌, ◌<◌, true, false, some, List, [], ◌∷◌, ◌++◌, length, length-append, ltb,
  le→ltb-false, ◌==◌, ==_iff, ◌≡◌, refl, sym, ap, ◌∙◌, subst, arith,
}
use terrasync_rs.Advertisement.{
  AdvertisementFailure, AdvertisedObservation, page, entry_failure, protocol_error, ndx_exhausted,
  snapshot_decode, traversal_failed, count_mismatch, remote_cancelled, peer_failed, Result, ok, err,
  Numbered, RemoteAdvertisement, Snapshots, EntryOperationFailure, project_entry_failure,
  no_entries,
}
use terrasync_rs.Advertisement.Sender.{
  AdvertisementProjection, Sent, after, built_page, page_built, entry_pushed, failed_entry,
}
use terrasync_rs.Advertisement.Receiver.{
  RemoteAdvertisementReceiver, page_received, failure_received, Accepted, page_accepted,
  failure_accepted, accepted_event, accept, extend, received_or, receive,
}
use terrasync_rs.Advertisement.Pending.{
  checked_next-some, IsPending, IsPending-append, extend-append, decode_entries-held,
}

-- Both sides end with the same ledger, or both with an error, which is the cancellation with the same
-- counts if it is one.
abbrev pub Agrees :
    {E : Type 0} → Result (RemoteAdvertisement E) → Result (RemoteAdvertisement E) → Type 0
Agrees (ok sent) (ok got) = sent ≡ got
Agrees (ok sent) (err e) = ⊥
Agrees (err e) (ok got) = ⊥
Agrees (err (remote_cancelled entries failures)) (err e) = e ≡ remote_cancelled entries failures
Agrees (err protocol_error) (err e) = Unit
Agrees (err ndx_exhausted) (err e) = Unit
Agrees (err snapshot_decode) (err e) = Unit
Agrees (err traversal_failed) (err e) = Unit
Agrees (err (count_mismatch a b c d)) (err e) = Unit
Agrees (err (peer_failed text)) (err e) = Unit

module _ {E : Type 0} (snapshots : Snapshots E) where
  module _ (back : (e : E) → snapshots.decode_snapshot (snapshots.encode_snapshot e) ≡ some e) where
    -- The validator has taken all that was sent, and what is pending is all that it does not know.
    pub record Follows (p : AdvertisementProjection E) (r : RemoteAdvertisementReceiver)
        (entries : List (Numbered E)) (failures : List AdvertisementFailure) : Type 0 where
      pub held : List (Numbered E)
      pub pending : IsPending snapshots r.expected_ndx p.pending held
      pub ledger : p.entries ≡ extend snapshots held entries
      pub failed : p.failures ≡ failures
      pub number : r.expected_ndx + length p.pending ≡ p.observed_entries
      pub page_number : r.expected_page ≡ p.next_page
      pub failure_number : r.entry_failures ≡ p.entry_failures
      pub live : r.terminated ≡ false
      pub pages : r.expected_page ≤ r.expected_ndx
      pub room : p.page_size ≤ r.maximum_page_entries

    -- The validator, once it has taken the pending entries as a page.
    abbrev pub paged :
        AdvertisementProjection E → RemoteAdvertisementReceiver → RemoteAdvertisementReceiver
    paged p r = record r {
      expected_ndx = r.expected_ndx + length p.pending;
      expected_page = r.expected_page + 1;
    }

    filled :
        (pending : List AdvertisedObservation) → no_entries pending ≡ false → 0 < length pending
    unfolding no_entries
    filled [] h = absurd (ground arith)
    filled (a ∷ pending) h = omega arith

    accept-page :
        (p : AdvertisementProjection E) (r : RemoteAdvertisementReceiver)
        (entries : List (Numbered E)) (failures : List AdvertisementFailure)
        → (f : Follows p r entries failures) → no_entries p.pending ≡ false
        → length p.pending ≤ p.page_size
        → p.observed_entries + 1 < 2 ^ 64
        → accept snapshots (page (built_page snapshots p)) r
          ≡ record { receiver = paged p r; receipt = ok (page_received p.next_page f.held) }
    unfolding accept accepted_event built_page page_accepted
    accept-page p r entries failures f some_pending short below =
        let reads =
          decode_entries-held snapshots back r.expected_ndx p.pending f.held f.pending
            (omega (arith, f.number, below)) in
        let sequence : (p.next_page == r.expected_page) ≡ true =
          (==_iff p.next_page r.expected_page).1 (sym f.page_number) in
        let fits : ltb r.maximum_page_entries (length p.pending) ≡ false =
          le→ltb-false _ _ (omega (arith, f.room, short)) in
        rw
          (
            f.live,
            sequence,
            some_pending,
            fits,
            reads.0,
            reads.1,
            checked_next-some r.expected_page (omega (arith, f.pages, f.number, below)),
          )
          refl

    pub page-Follows :
        (p : AdvertisementProjection E) (r : RemoteAdvertisementReceiver)
        (entries : List (Numbered E)) (failures : List AdvertisementFailure)
        → (f : Follows p r entries failures) → no_entries p.pending ≡ false
        → p.observed_entries + 1 < 2 ^ 64
        → Follows (page_built snapshots p) (paged p r) (extend snapshots f.held entries) failures
    unfolding page_built extend
    page-Follows p r entries failures f some_pending below =
        let more = filled p.pending some_pending in
        record {
          held = [];
          pending = tt;
          ledger = f.ledger;
          failed = f.failed;
          number = omega (arith, f.number);
          page_number = omega (arith, f.page_number, f.pages, f.number, below);
          failure_number = f.failure_number;
          live = f.live;
          pages = omega (arith, f.pages, more);
          room = f.room;
        }

    pub push-Follows :
        (e : E) (p : AdvertisementProjection E) (r : RemoteAdvertisementReceiver)
        (entries : List (Numbered E)) (failures : List AdvertisementFailure)
        → Follows p r entries failures
        → Follows (entry_pushed snapshots e p) r entries failures
    unfolding entry_pushed
    push-Follows e p r entries failures f = record {
      held = f.held ++ record { ndx = p.observed_entries; entry = e } ∷ [];
      pending =
          IsPending-append snapshots r.expected_ndx p.pending f.held e p.observed_entries f.pending
            f.number;
      ledger =
          ap (◌∷◌ (record { ndx = p.observed_entries; entry = e })) f.ledger
          ∙ sym (extend-append snapshots f.held _ entries);
      failed = f.failed;
      number = omega (
        arith,
        f.number,
        length-append p.pending
            (record { ndx = p.observed_entries; snapshot = snapshots.encode_snapshot e } ∷ []),
      );
      page_number = f.page_number;
      failure_number = f.failure_number;
      live = f.live;
      pages = f.pages;
      room = f.room;
    }

    abbrev pub failed_receiver : RemoteAdvertisementReceiver → RemoteAdvertisementReceiver
    failed_receiver r = record r { entry_failures = r.entry_failures + 1 }

    accept-failure :
        (x : EntryOperationFailure) (p : AdvertisementProjection E)
        (r : RemoteAdvertisementReceiver) (entries : List (Numbered E))
        (failures : List AdvertisementFailure)
        → Follows p r entries failures
        → p.entry_failures + 1 < 2 ^ 64
        → accept snapshots (entry_failure (project_entry_failure x)) r ≡ record {
          receiver = failed_receiver r;
          receipt = ok (failure_received (project_entry_failure x));
        }
    unfolding accept accepted_event project_entry_failure failure_accepted
    accept-failure x p r entries failures f below =
        rw (f.live, checked_next-some r.entry_failures (omega (arith, f.failure_number, below)))
          refl

    pub failure-Follows :
        (x : EntryOperationFailure) (p : AdvertisementProjection E)
        (r : RemoteAdvertisementReceiver) (entries : List (Numbered E))
        (failures : List AdvertisementFailure)
        → Follows p r entries failures
        → p.entry_failures + 1 < 2 ^ 64
        → Follows
            (failed_entry snapshots x p)
            (failed_receiver r)
            entries
            (failures ++ project_entry_failure x ∷ [])
    unfolding failed_entry
    failure-Follows x p r entries failures f below = record {
      held = f.held;
      pending = f.pending;
      ledger = f.ledger;
      failed = ap (λ fs. fs ++ project_entry_failure x ∷ []) f.failed;
      number = f.number;
      page_number = f.page_number;
      failure_number = omega (arith, f.failure_number, below);
      live = f.live;
      pages = f.pages;
      room = f.room;
    }

    -- Sending `s` to the validator in this state ends alike on both sides.
    abbrev pub EndsAlike :
        RemoteAdvertisementReceiver
        → List (Numbered E)
        → List AdvertisementFailure
        → Sent E
        → Type 0
    EndsAlike r entries failures s = Agrees s.result (receive snapshots s.events r entries failures)

    pub page-EndsAlike :
        (p : AdvertisementProjection E) (r : RemoteAdvertisementReceiver)
        (entries : List (Numbered E)) (failures : List AdvertisementFailure) (s : Sent E)
        → (f : Follows p r entries failures) → no_entries p.pending ≡ false
        → length p.pending ≤ p.page_size
        → p.observed_entries + 1 < 2 ^ 64
        → EndsAlike (paged p r) (extend snapshots f.held entries) failures s
        → EndsAlike r entries failures (after (page (built_page snapshots p)) s)
    unfolding receive
    page-EndsAlike p r entries failures s f some_pending short below alike =
        subst
          (λ (a : Accepted E). Agrees s.result (
            received_or snapshots a.receipt s.events entries failures
              (receive snapshots s.events a.receiver)))
          (sym (accept-page p r entries failures f some_pending short below)) alike

    pub failure-EndsAlike :
        (x : EntryOperationFailure) (p : AdvertisementProjection E)
        (r : RemoteAdvertisementReceiver) (entries : List (Numbered E))
        (failures : List AdvertisementFailure) (s : Sent E)
        → Follows p r entries failures
        → p.entry_failures + 1 < 2 ^ 64
        → EndsAlike (failed_receiver r) entries (failures ++ project_entry_failure x ∷ []) s
        → EndsAlike r entries failures (after (entry_failure (project_entry_failure x)) s)
    unfolding receive
    failure-EndsAlike x p r entries failures s f below alike =
        subst
          (λ (a : Accepted E). Agrees s.result (
            received_or snapshots a.receipt s.events entries failures
              (receive snapshots s.events a.receiver)))
          (sym (accept-failure x p r entries failures f below)) alike
