-- ===== src/Advertisement/Examples.antt =====
-- Runs and instances of the theorem about crates/app/src/remote_advertisement.rs.
use terrasync_rs.Base.{ℕ, Option, none, some, List, [], ◌∷◌, ◌≡◌, refl, arith}
use terrasync_rs.Advertisement.{
  ok, Snapshots, EntryOperationFailure, project_entry_failure, TraversalItem, entry, failure,
  directory_listed, complete,
}
use terrasync_rs.Advertisement.Sender.{advertise_remote}
use terrasync_rs.Advertisement.Receiver.{new_receiver, receive}
use terrasync_rs.Advertisement.Follows.{Agrees}
use terrasync_rs.Advertisement.Ledger.{advertise_remote-receive}

-- An entry is a number, and its snapshot that number alone.
abbrev first_of : List ℕ → Option ℕ
first_of [] = none
first_of (n ∷ ns) = some n

abbrev numbers : Snapshots ℕ
numbers = record {
  encode_snapshot = λ n. n ∷ [];
  decode_snapshot = first_of;
  mismatch_text = λ a b c d. [];
}

abbrev lost : EntryOperationFailure
lost = record { path = 97 ∷ []; operation = []; class = []; transience = []; diagnostic = [] }

-- Three entries and a failure, in pages of two.
abbrev items : List (TraversalItem ℕ)
items = entry 5 ∷ entry 6 ∷ directory_listed ∷ entry 7 ∷ failure lost ∷ []

advertise_remote-receive_example :
    let sent = advertise_remote numbers 2 (complete 3 1 0) items in
    Agrees sent.result (receive numbers sent.events (new_receiver 2) [] [])
advertise_remote-receive_example =
    advertise_remote-receive numbers (λ e. refl) 2 2 (complete 3 1 0) items (omega arith)
      (omega arith) (omega arith)

-- The validator's ledger at the end of it.
ledger_received :
    receive numbers
      (advertise_remote numbers 2 (complete 3 1 0) items).events
      (new_receiver 2)
      []
      []
    ≡ ok (record {
      entries =
          record { ndx = 2; entry = 7 }
          ∷ record { ndx = 1; entry = 6 }
          ∷ record { ndx = 0; entry = 5 }
          ∷ [];
      failures = project_entry_failure lost ∷ [];
      page_count = 2;
      observed_entries = 3;
      entry_failures = 1;
    })
unfolding receive advertise_remote new_receiver
ledger_received = refl
