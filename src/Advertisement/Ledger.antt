-- ===== src/Advertisement/Ledger.antt =====
-- crates/app/src/remote_advertisement.rs: what the validator makes of what the other side sends.
use terrasync_rs.Base.{
  ℕ, ◌+◌, ◌^◌, ◌≤◌, ◌<◌, Bool, true, false, not, ◌||◌, some, List, [], ◌∷◌, ◌++◌, length,
  length-append, ltb, ◌==◌, ==_iff, if◌then◌else◌, if-cases, u64, ◌≡◌, refl, sym, ap, ap₂, ◌∙◌,
  arith,
}
use terrasync_rs.Advertisement.{
  AdvertisementFailure, AdvertisedObservation, page, entry_failure, AppError, protocol_error,
  remote_cancelled, peer_failed, Result, ok, err, Numbered, RemoteAdvertisement, Snapshots,
  project_entry_failure, TraversalItem, entry, failure, directory_listed, checkpoint, unsupported,
  TraversalEnd, complete, stopped, broken, no_entries,
}
use terrasync_rs.Advertisement.Sender.{
  AdvertisementProjection, after, new_projection, built_page, page_built, entry_pushed, finish,
  failed_entry, ended, flushed_end, advertise_loop, advertise_remote,
}
use terrasync_rs.Advertisement.Receiver.{
  RemoteAdvertisementReceiver, AdvertisementReceipt, all_received, new_receiver, validated,
  concluded, accepted_event, accept, extend, receive,
}
use terrasync_rs.Advertisement.Pending.{IsPending}
use terrasync_rs.Advertisement.Follows.{
  Agrees, Follows, paged, failed_receiver, EndsAlike, page-Follows, push-Follows, failure-Follows,
  page-EndsAlike, failure-EndsAlike,
}

-- A conditional whose test also chose what its branches work on.
if-then-chosen :
    {A B : Type 0} (P : B → Type 0) (b : Bool) (g : A → B) (h : B → B) (x y : A)
    → (b ≡ true → P (h (g x)))
    → (b ≡ false → P (g y))
    → P (if b then h (g (if b then x else y)) else g (if b then x else y))
if-then-chosen P true g h x y px py = px refl
if-then-chosen P false g h x y px py = py refl

if-else-chosen :
    {A B : Type 0} (P : B → Type 0) (b : Bool) (g : A → B) (h : B → B) (x y : A)
    → (b ≡ true → P (g x))
    → (b ≡ false → P (h (g y)))
    → P (if b then g (if b then x else y) else h (g (if b then x else y)))
if-else-chosen P true g h x y px py = px refl
if-else-chosen P false g h x y px py = py refl

module _ {E : Type 0} (snapshots : Snapshots E) where
  module _ (back : (e : E) → snapshots.decode_snapshot (snapshots.encode_snapshot e) ≡ some e) where
    nothing : (pending : List AdvertisedObservation) → no_entries pending ≡ true → pending ≡ []
    unfolding no_entries
    nothing [] h = refl
    nothing (a ∷ pending) h = absurd (ground arith)

    nothing_held :
        (lo : ℕ) (pending : List AdvertisedObservation) (held : List (Numbered E))
        → pending ≡ []
        → IsPending snapshots lo pending held
        → held ≡ []
    nothing_held lo [] [] e is = refl
    nothing_held lo [] (n ∷ ns) e is = absurd is
    nothing_held lo (a ∷ pending) held e is = absurd (ground (arith, ap length e))

    same_ledger :
        (a b : RemoteAdvertisement E)
        → a.entries ≡ b.entries
        → a.failures ≡ b.failures
        → a.page_count ≡ b.page_count
        → a.observed_entries ≡ b.observed_entries
        → a.entry_failures ≡ b.entry_failures
        → a ≡ b
    same_ledger a b entries failures pages observed failed_count = cc

    -- The counts of a terminal are those that the validator has.
    counts-validated :
        (p : AdvertisementProjection E) (r : RemoteAdvertisementReceiver)
        (entries : List (Numbered E)) (failures : List AdvertisementFailure)
        (next : Result (AdvertisementReceipt E))
        → Follows snapshots back p r entries failures
        → p.pending ≡ []
        → validated r.expected_ndx r.entry_failures p.observed_entries p.entry_failures next ≡ next
    unfolding validated
    counts-validated p r entries failures next f none_left =
        let observed : (r.expected_ndx == p.observed_entries) ≡ true =
          (==_iff r.expected_ndx p.observed_entries).1
            (omega (arith, f.number, ap length none_left)) in
        let counted : (r.entry_failures == p.entry_failures) ≡ true =
          (==_iff r.entry_failures p.entry_failures).1 f.failure_number in
        rw (observed, counted) refl

    ended-EndsAlike :
        (end : TraversalEnd) (p : AdvertisementProjection E) (r : RemoteAdvertisementReceiver)
        (entries : List (Numbered E)) (failures : List AdvertisementFailure)
        → Follows snapshots back p r entries failures
        → p.pending ≡ []
        → EndsAlike snapshots back r entries failures (ended snapshots end p)
    unfolding ended receive accept accepted_event concluded finish extend
    ended-EndsAlike (complete emitted children listings) p r entries failures f none_left =
        if-cases (EndsAlike snapshots back r entries failures)
          (not (p.observed_entries == emitted)
            || not (p.entry_failures == u64 (children + listings)))
          _ _
          (λ differs.
            rw (f.live, counts-validated p r entries failures (err (peer_failed _)) f none_left) tt)
          (λ matches.
            rw
              (
                f.live,
                counts-validated p r entries failures
                    (ok (all_received r.expected_page r.expected_ndx r.entry_failures)) f none_left,
              )
              (same_ledger _ _
                (f.ledger
                  ∙ ap (λ h. extend snapshots h entries)
                      (nothing_held r.expected_ndx p.pending f.held none_left f.pending))
                f.failed (sym f.page_number) (omega (arith, f.number, ap length none_left))
                (sym f.failure_number)))
    ended-EndsAlike stopped p r entries failures f none_left =
        rw
          (
            f.live,
            counts-validated p r entries failures
                (err (remote_cancelled r.expected_ndx r.entry_failures)) f none_left,
          )
          (ap₂ (λ a b. remote_cancelled a b) (omega (arith, f.number, ap length none_left))
            f.failure_number)
    ended-EndsAlike (broken x) p r entries failures f none_left =
        rw
          (
            f.live,
            counts-validated p r entries failures (err (peer_failed x.diagnostic)) f none_left,
          )
          tt

    flushed-EndsAlike :
        (end : TraversalEnd) (p : AdvertisementProjection E) (r : RemoteAdvertisementReceiver)
        (entries : List (Numbered E)) (failures : List AdvertisementFailure)
        → Follows snapshots back p r entries failures
        → length p.pending < p.page_size
        → p.observed_entries + 1 < 2 ^ 64
        → EndsAlike snapshots back r entries failures (flushed_end snapshots end p)
    unfolding flushed_end page_built
    flushed-EndsAlike end p r entries failures f short below =
        if-cases (EndsAlike snapshots back r entries failures) (no_entries p.pending) _ _
          (λ none_left. ended-EndsAlike end p r entries failures f (nothing p.pending none_left))
          (λ some_left.
            page-EndsAlike snapshots back p r entries failures _ f some_left (omega (arith, short))
              below
              (ended-EndsAlike end (page_built snapshots p) (paged snapshots back p r) _ failures
                (page-Follows snapshots back p r entries failures f some_left below) refl))

    pushed-some :
        (e : E) (p : AdvertisementProjection E)
        → no_entries (entry_pushed snapshots e p).pending ≡ false
    unfolding entry_pushed no_entries
    pushed-some e p = appended p.pending _
      where
        appended :
            (bs : List AdvertisedObservation) (a : AdvertisedObservation)
            → no_entries (bs ++ a ∷ []) ≡ false
        appended [] a = refl
        appended (b ∷ bs) a = refl

    pushed_length :
        (e : E) (p : AdvertisementProjection E)
        → length (entry_pushed snapshots e p).pending ≡ length p.pending + 1
    unfolding entry_pushed
    pushed_length e p = omega (
      arith,
      length-append p.pending
          (record { ndx = p.observed_entries; snapshot = snapshots.encode_snapshot e } ∷ []),
    )

    -- A stream that breaks off ends with an error on this side as well.
    cut_off :
        (r : RemoteAdvertisementReceiver) (entries : List (Numbered E))
        (failures : List AdvertisementFailure) (e : AppError)
        → Agrees {E = E} (err e) (err protocol_error)
        → EndsAlike snapshots back r entries failures (record { events = []; result = err e })
    unfolding receive
    cut_off r entries failures e alike = alike

    loop-EndsAlike :
        (end : TraversalEnd) (items : List (TraversalItem E)) (p : AdvertisementProjection E)
        (r : RemoteAdvertisementReceiver) (entries : List (Numbered E))
        (failures : List AdvertisementFailure)
        → Follows snapshots back p r entries failures
        → length p.pending < p.page_size
        → p.observed_entries + length items + 1 < 2 ^ 64
        → p.entry_failures + length items + 1 < 2 ^ 64
        → EndsAlike snapshots back r entries failures (advertise_loop snapshots end items p)
    unfolding advertise_loop
    loop-EndsAlike end [] p r entries failures f short below fewer =
        flushed-EndsAlike end p r entries failures f short (omega (arith, below))
    loop-EndsAlike end (directory_listed ∷ items) p r entries failures f short below fewer =
        loop-EndsAlike end items p r entries failures f short (omega (arith, below))
          (omega (arith, fewer))
    loop-EndsAlike end (checkpoint ∷ items) p r entries failures f short below fewer =
        loop-EndsAlike end items p r entries failures f short (omega (arith, below))
          (omega (arith, fewer))
    loop-EndsAlike end (unsupported ∷ items) p r entries failures f short below fewer =
        cut_off r entries failures protocol_error tt
    loop-EndsAlike end (entry e ∷ items) p r entries failures f short below fewer =
        let pushed = entry_pushed snapshots e p in
        let g = push-Follows snapshots back e p r entries failures f in
        let longer = pushed_length e p in
        if-cases (EndsAlike snapshots back r entries failures)
          (not (ltb (p.observed_entries + 1) (2 ^ 64))) _ _
          (λ over. absurd (ground (arith, over, below)))
          (λ counted.
            if-then-chosen (EndsAlike snapshots back r entries failures)
              (length pushed.pending == p.page_size) (advertise_loop snapshots end items)
              (after (page (built_page snapshots pushed))) (page_built snapshots pushed) pushed
              (λ full.
                page-EndsAlike snapshots back pushed r entries failures _ g (pushed-some e p)
                  (ground (arith, below, fewer, short)) (ground (arith, below, fewer, short))
                  (loop-EndsAlike end items (page_built snapshots pushed)
                    (paged snapshots back pushed r) _ failures
                    (page-Follows snapshots back pushed r entries failures g (pushed-some e p)
                      (ground (arith, below, fewer, short)))
                    (ground (arith, below, fewer, short)) (ground (arith, below, fewer, short))
                    (ground (arith, below, fewer, short))))
              (λ partly.
                loop-EndsAlike end items pushed r entries failures g
                  (ground (arith, below, fewer, short)) (ground (arith, below, fewer, short))
                  (ground (arith, below, fewer, short))))
    loop-EndsAlike end (failure x ∷ items) p r entries failures f short below fewer =
        if-else-chosen (EndsAlike snapshots back r entries failures) (no_entries p.pending)
          (λ q.
            after (entry_failure (project_entry_failure x))
              (advertise_loop snapshots end items (failed_entry snapshots x q)))
          (after (page (built_page snapshots p))) p (page_built snapshots p)
          (λ none_left.
            failure-EndsAlike snapshots back x p r entries failures _ f
              (ground (arith, below, fewer, short))
              (loop-EndsAlike end items (failed_entry snapshots x p)
                (failed_receiver snapshots back r) entries _
                (failure-Follows snapshots back x p r entries failures f
                  (ground (arith, below, fewer, short)))
                (ground (arith, below, fewer, short)) (ground (arith, below, fewer, short))
                (ground (arith, below, fewer, short))))
          (λ some_left.
            page-EndsAlike snapshots back p r entries failures _ f some_left
              (ground (arith, below, fewer, short)) (ground (arith, below, fewer, short))
              (failure-EndsAlike snapshots back x (page_built snapshots p)
                (paged snapshots back p r) _ failures _
                (page-Follows snapshots back p r entries failures f some_left
                  (ground (arith, below, fewer, short)))
                (ground (arith, below, fewer, short))
                (loop-EndsAlike end items (failed_entry snapshots x (page_built snapshots p))
                  (failed_receiver snapshots back (paged snapshots back p r)) _ _
                  (failure-Follows snapshots back x (page_built snapshots p)
                    (paged snapshots back p r) _ failures
                    (page-Follows snapshots back p r entries failures f some_left
                      (ground (arith, below, fewer, short)))
                    (ground (arith, below, fewer, short)))
                  (ground (arith, below, fewer, short)) (ground (arith, below, fewer, short))
                  (ground (arith, below, fewer, short)))))

    -- If a snapshot is read back as the entry that it was taken of, if pages hold at least one
    -- entry and at most what the validator allows, and if the items can be counted in 64 bits,
    -- then on every way a traversal goes and ends, the validator that takes the events of the
    -- sender ends as the sender does: with the same ledger of entries, failures and counts if the
    -- sender completes, with the same cancellation if it is cancelled, and otherwise both with an
    -- error.
    pub advertise_remote-receive :
        (page_size maximum : ℕ) (end : TraversalEnd) (items : List (TraversalItem E))
        → 0 < page_size
        → page_size ≤ maximum
        → length items + 1 < 2 ^ 64
        → let sent = advertise_remote snapshots page_size end items in
          Agrees sent.result (receive snapshots sent.events (new_receiver maximum) [] [])
    unfolding advertise_remote new_projection new_receiver extend
    advertise_remote-receive page_size maximum end items some_room fits fewer =
        loop-EndsAlike end items (new_projection snapshots page_size) (new_receiver maximum) [] []
          (record {
            held = [];
            pending = tt;
            ledger = refl;
            failed = refl;
            number = omega arith;
            page_number = refl;
            failure_number = refl;
            live = refl;
            pages = omega arith;
            room = fits;
          })
          some_room (omega (arith, fewer)) (omega (arith, fewer))
