-- ===== src/Advertisement.antt =====
-- crates/app/src/remote_advertisement.rs: the listing of a source that one side sends, in pages of
-- numbered entries, and the other validates. `E` is the storage library's observed entry, whose
-- snapshot it writes and reads; the sink takes every event that it is given.
pub mod Sender
pub mod Receiver
pub mod Pending
pub mod Follows
pub mod Ledger
mod Examples
use terrasync_rs.Base.{
  ℕ, zero, suc, ◌+◌, ◌-◌, ◌^◌, ◌≤◌, ◌<◌, Bool, true, false, not, ◌&&◌, ◌||◌, Option, none, some,
  List, [], ◌∷◌, ◌++◌, length, ltb, leb, ◌==◌, if◌then◌else◌, u64, ◌≡◌, refl, arith,
}

pub data AdvertisementFailureScope : Type 0 where
  entry_scope backend_session runtime : AdvertisementFailureScope

pub record AdvertisementFailure : Type 0 where
  pub scope : AdvertisementFailureScope
  pub path : Option (List ℕ)
  pub identity : Option (List ℕ)
  pub operation : Option (List ℕ)
  pub class : Option (List ℕ)
  pub transience : Option (List ℕ)
  pub diagnostic : List ℕ

pub record AdvertisedObservation : Type 0 where
  pub ndx : ℕ
  pub snapshot : List ℕ

pub record ObservationPage : Type 0 where
  pub sequence : ℕ
  pub entries : List AdvertisedObservation

pub data AdvertisementTerminal : Type 0 where
  completed : (observed_entries entry_failures : ℕ) → AdvertisementTerminal
  cancelled : (observed_entries entry_failures : ℕ) → AdvertisementTerminal
  failed : (observed_entries entry_failures : ℕ) → AdvertisementFailure → AdvertisementTerminal

pub data AdvertisementEvent : Type 0 where
  page : ObservationPage → AdvertisementEvent
  entry_failure : AdvertisementFailure → AdvertisementEvent
  terminal : AdvertisementTerminal → AdvertisementEvent

pub data AppError : Type 0 where
  protocol_error ndx_exhausted snapshot_decode traversal_failed : AppError
  count_mismatch : (entries failures reported_entries reported_failures : ℕ) → AppError
  remote_cancelled : (entries failures : ℕ) → AppError
  peer_failed : List ℕ → AppError

pub data Result (A : Type 0) : Type 0 where
  ok : A → Result A
  err : AppError → Result A

-- An entry under its number in the map of a ledger, in which a later one hides an earlier one.
pub record Numbered (E : Type 0) : Type 0 where
  pub ndx : ℕ
  pub entry : E

pub record RemoteAdvertisement (E : Type 0) : Type 0 where
  pub entries : List (Numbered E)
  pub failures : List AdvertisementFailure
  pub page_count : ℕ
  pub observed_entries : ℕ
  pub entry_failures : ℕ

-- `ObservedEntry::encode_snapshot` and `decode_snapshot`, with the backend of the session, and the
-- text of the error `RemoteAdvertisementCountMismatch`.
pub record Snapshots (E : Type 0) : Type 0 where
  pub encode_snapshot : E → List ℕ
  pub decode_snapshot : List ℕ → Option E
  pub mismatch_text : (entries failures reported_entries reported_failures : ℕ) → List ℕ

-- What is read of the storage library's `EntryOperationFailure`, as texts.
pub record EntryOperationFailure : Type 0 where
  pub path : List ℕ
  pub operation : List ℕ
  pub class : List ℕ
  pub transience : List ℕ
  pub diagnostic : List ℕ

unfoldable pub project_entry_failure : EntryOperationFailure → AdvertisementFailure
project_entry_failure f = record {
  scope = entry_scope;
  path = some f.path;
  identity = none;
  operation = some f.operation;
  class = some f.class;
  transience = some f.transience;
  diagnostic = f.diagnostic;
}

unfoldable pub runtime_failure : List ℕ → AdvertisementFailure
runtime_failure diagnostic = record {
  scope = runtime;
  path = none;
  identity = none;
  operation = none;
  class = none;
  transience = none;
  diagnostic = diagnostic;
}

pub data TraversalItem (E : Type 0) : Type 0 where
  entry : E → TraversalItem E
  failure : EntryOperationFailure → TraversalItem E
  directory_listed checkpoint unsupported : TraversalItem E

-- The end of a traversal: complete with its own totals, cancelled, or failed.
pub data TraversalEnd : Type 0 where
  complete : (emitted failed_children listing_failures : ℕ) → TraversalEnd
  stopped : TraversalEnd
  broken : AdvertisementFailure → TraversalEnd

-- u64::checked_add(1)
unfoldable pub checked_next : ℕ → Option ℕ
checked_next n = if ltb (n + 1) (2 ^ 64) then some (n + 1) else none

unfoldable pub no_entries : List AdvertisedObservation → Bool
no_entries [] = true
no_entries (e ∷ es) = false
