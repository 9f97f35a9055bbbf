-- ===== src/Advertisement/Sender.antt =====
-- crates/app/src/remote_advertisement.rs: `advertise_remote` and the projection of a traversal that
-- it fills pages from.
use terrasync_rs.Base.{
  ℕ, ◌+◌, ◌^◌, not, ◌||◌, List, [], ◌∷◌, ◌++◌, length, ltb, ◌==◌, if◌then◌else◌, u64,
}
use terrasync_rs.Advertisement.{
  AdvertisementFailure, AdvertisedObservation, ObservationPage, completed, cancelled, failed,
  AdvertisementEvent, page, entry_failure, terminal, protocol_error, ndx_exhausted,
  traversal_failed, count_mismatch, remote_cancelled, Result, ok, err, Numbered,
  RemoteAdvertisement, Snapshots, EntryOperationFailure, project_entry_failure, runtime_failure,
  TraversalItem, entry, failure, directory_listed, checkpoint, unsupported, TraversalEnd, complete,
  stopped, broken, no_entries,
}

pub record AdvertisementProjection (E : Type 0) : Type 0 where
  pub page_size : ℕ
  pub next_page : ℕ
  pub pending : List AdvertisedObservation
  pub entries : List (Numbered E)
  pub failures : List AdvertisementFailure
  pub observed_entries : ℕ
  pub entry_failures : ℕ

-- The events sent and what the call returns.
pub record Sent (E : Type 0) : Type 0 where
  pub events : List AdvertisementEvent
  pub result : Result (RemoteAdvertisement E)

abbrev pub after : {E : Type 0} → AdvertisementEvent → Sent E → Sent E
after event s = record s { events = event ∷ s.events }

abbrev pub sends_then : {E : Type 0} → AdvertisementEvent → Result (RemoteAdvertisement E) → Sent E
sends_then event result = record { events = event ∷ []; result = result }

module _ {E : Type 0} (snapshots : Snapshots E) where
  unfoldable pub new_projection : ℕ → AdvertisementProjection E
  new_projection page_size = record {
    page_size = page_size;
    next_page = 0;
    pending = [];
    entries = [];
    failures = [];
    observed_entries = 0;
    entry_failures = 0;
  }

  unfoldable pub built_page : AdvertisementProjection E → ObservationPage
  built_page p = record { sequence = p.next_page; entries = p.pending }

  -- `build_page`, which returns `built_page`.
  unfoldable pub page_built : AdvertisementProjection E → AdvertisementProjection E
  page_built p = record p { pending = []; next_page = u64 (p.next_page + 1) }

  -- `push_entry` before the page that it may build; the number has been checked.
  unfoldable pub entry_pushed : E → AdvertisementProjection E → AdvertisementProjection E
  entry_pushed e p = record p {
    observed_entries = p.observed_entries + 1;
    pending =
        p.pending
        ++ record { ndx = p.observed_entries; snapshot = snapshots.encode_snapshot e } ∷ [];
    entries = record { ndx = p.observed_entries; entry = e } ∷ p.entries;
  }

  unfoldable pub finish : AdvertisementProjection E → RemoteAdvertisement E
  finish p = record {
    entries = p.entries;
    failures = p.failures;
    page_count = p.next_page;
    observed_entries = p.observed_entries;
    entry_failures = p.entry_failures;
  }

  unfoldable pub failed_entry :
      EntryOperationFailure → AdvertisementProjection E → AdvertisementProjection E
  unfolding project_entry_failure
  failed_entry f p = record p {
    entry_failures = u64 (p.entry_failures + 1);
    failures = p.failures ++ project_entry_failure f ∷ [];
  }

  -- The events of the end, once no entry is pending.
  unfoldable pub ended : TraversalEnd → AdvertisementProjection E → Sent E
  unfolding finish runtime_failure
  ended (complete emitted failed_children listing_failures) p =
      let failures = u64 (failed_children + listing_failures) in
      if not (p.observed_entries == emitted) || not (p.entry_failures == failures)
      then sends_then
          (terminal (
            failed p.observed_entries p.entry_failures (
              runtime_failure
                (snapshots.mismatch_text p.observed_entries p.entry_failures emitted failures))))
          (err (count_mismatch p.observed_entries p.entry_failures emitted failures))
      else sends_then (terminal (completed p.observed_entries p.entry_failures)) (ok (finish p))
  ended stopped p =
      sends_then (terminal (cancelled p.observed_entries p.entry_failures))
        (err (remote_cancelled p.observed_entries p.entry_failures))
  ended (broken f) p =
      sends_then (terminal (failed p.observed_entries p.entry_failures f)) (err traversal_failed)

  -- `take_page` and what follows it.
  unfoldable pub flushed_end : TraversalEnd → AdvertisementProjection E → Sent E
  unfolding no_entries built_page page_built ended
  flushed_end end p =
      if no_entries p.pending
      then ended end p
      else after (page (built_page p)) (ended end (page_built p))

  unfoldable pub advertise_loop :
      TraversalEnd → List (TraversalItem E) → AdvertisementProjection E → Sent E
  unfolding flushed_end entry_pushed built_page page_built no_entries failed_entry
      project_entry_failure
  advertise_loop end [] p = flushed_end end p
  advertise_loop end (entry e ∷ items) p =
      let pushed = entry_pushed e p in
      let full = length pushed.pending == p.page_size in
      let later = advertise_loop end items (if full then page_built pushed else pushed) in
      if not (ltb (p.observed_entries + 1) (2 ^ 64))
      then record { events = []; result = err ndx_exhausted }
      else if full
      then after (page (built_page pushed)) later
      else later
  advertise_loop end (failure f ∷ items) p =
      let flushed = if no_entries p.pending then p else page_built p in
      let later =
        after (entry_failure (project_entry_failure f))
          (advertise_loop end items (failed_entry f flushed)) in
      if no_entries p.pending then later else after (page (built_page p)) later
  advertise_loop end (directory_listed ∷ items) p = advertise_loop end items p
  advertise_loop end (checkpoint ∷ items) p = advertise_loop end items p
  advertise_loop end (unsupported ∷ items) p = record { events = []; result = err protocol_error }

  unfoldable pub advertise_remote : ℕ → TraversalEnd → List (TraversalItem E) → Sent E
  unfolding advertise_loop new_projection
  advertise_remote page_size end items = advertise_loop end items (new_projection page_size)
