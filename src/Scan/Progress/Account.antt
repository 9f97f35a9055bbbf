-- ===== src/Scan/Progress/Account.antt =====
-- crates/app/src/scan/progress.rs: the counts of a scan against an account of the directories that its
-- calls were about. The account is kept of the calls and the counts that the scan starts with; it reads
-- no counter that the program keeps.
use terrasync_rs.Base.{
  ℕ, ◌+◌, ◌≤◌, true, false, Bool, not, ◌&&◌, Option, none, some, List, [], ◌∷◌, ◌==◌, bytes_eq,
  if◌then◌else◌, if-cases, Bool-cases, ◌≡◌, refl, sym, ap, ◌∙◌, subst, inl, inr, arith,
}
use terrasync_rs.Scan.Counts.{
  Kinds, KindLaws, max_u64, complete, interrupted, unreadable, ListingOutcome, DirectoryStatistics,
  from_directory, is_outcome, ScanSnapshot, default, Counter, of_scanned, of_filtered, of_retained,
  of_failed, of_vanished, of_pruned, of_truncated, of_bytes, of_unknown, of_versions, of_markers,
  of_all_bytes, of_completed, of_interrupted, of_unreadable, of_vanished_listings, read,
  read-replace, read-default,
}
use terrasync_rs.Scan.Progress.{
  Active, ScanProgress, is_blocks, other_key, active_remove, active_get, is_out_of_order, Outcome,
  new, settled, push, confirm, restored, resumed, checkpoint_eq, some_checkpoint,
}
use terrasync_rs.Scan.Progress.Prefix.{
  active_sum, Fits, Reachable, starts, pushes, confirms, resumes, Reachable-prefix,
}

-- The counts that the scan begins with, the directories that were listed to their end since, those
-- of them that were listed when a cursor was confirmed last, and the last report of each directory
-- that is being listed.
pub record Account (K : Type 0) : Type 0 where
  pub base : Counter → ℕ
  pub done : List (DirectoryStatistics K)
  pub saved : List (DirectoryStatistics K)
  pub open_ones : List (DirectoryStatistics K)

-- The listing ended in the given way.
abbrev ended_complete : Option ListingOutcome → ℕ
ended_complete (some complete) = 1
ended_complete _ = 0

abbrev ended_interrupted : Option ListingOutcome → ℕ
ended_interrupted (some interrupted) = 1
ended_interrupted _ = 0

abbrev ended_unreadable : Option ListingOutcome → ℕ
ended_unreadable (some unreadable) = 1
ended_unreadable _ = 0

ended_lem :
    (o : Option ListingOutcome)
    → (is_outcome complete o ≡ ended_complete o)
      × (is_outcome interrupted o ≡ ended_interrupted o)
      × (is_outcome unreadable o ≡ ended_unreadable o)
unfolding is_outcome
ended_lem none = (refl, refl, refl)
ended_lem (some complete) = (refl, refl, refl)
ended_lem (some interrupted) = (refl, refl, refl)
ended_lem (some unreadable) = (refl, refl, refl)

-- The reports without the one of a directory.
abbrev pub without :
    {K : Type 0} → List ℕ → List (DirectoryStatistics K) → List (DirectoryStatistics K)
without path [] = []
without path (v ∷ vs) = let rest = without path vs in if bytes_eq v.path path then vs else v ∷ rest

-- A report, filed by the end of its listing; a listing that broke off is filed nowhere.
abbrev pub filed :
    {K : Type 0} → Option ListingOutcome → DirectoryStatistics K → Account K → Account K
filed none v a = record a { open_ones = v ∷ without v.path a.open_ones }
filed (some complete) v a = record a { done = v ∷ a.done; open_ones = without v.path a.open_ones }
filed (some interrupted) v a = a
filed (some unreadable) v a = a

-- A recovery in blocks goes back to what was confirmed, any other to nothing.
abbrev pub recovered : {K : Type 0} → Bool → Account K → Account K
recovered true a = record a { done = a.saved; open_ones = [] }
recovered false a = record { base = λ k. 0; done = []; saved = []; open_ones = [] }

module _ {K : Type 0} {kinds : Kinds K} (laws : KindLaws kinds) where
  -- What a directory's report says for one counter.
  abbrev pub reported : Counter → DirectoryStatistics K → ℕ
  reported (of_scanned i) v = laws.component v.scanned i
  reported (of_filtered i) v = laws.component v.filtered i
  reported (of_retained i) v = laws.component v.retained i
  reported (of_failed i) v = laws.component v.failed i
  reported (of_vanished i) v = laws.component v.vanished i
  reported of_pruned v = v.pruned_dirs
  reported of_truncated v = v.truncated_dirs
  reported of_bytes v = v.regular_file_bytes
  reported of_unknown v = v.unknown_file_sizes
  reported of_versions v = v.versions
  reported of_markers v = v.delete_markers
  reported of_all_bytes v = v.all_versions_bytes
  reported of_completed v = ended_complete v.outcome
  reported of_interrupted v = ended_interrupted v.outcome
  reported of_unreadable v = ended_unreadable v.outcome
  reported of_vanished_listings v = if v.vanished_listing then 1 else 0

  abbrev pub total : Counter → List (DirectoryStatistics K) → ℕ
  total k [] = 0
  total k (v ∷ vs) = reported k v + total k vs

  -- The account of the calls that led to a state.
  abbrev pub account : (p : ScanProgress K) (s : ScanSnapshot K) → Reachable laws p s → Account K
  account p s (starts order cursor snapshot) = record {
    base = λ k. read laws k snapshot.counts;
    done = [];
    saved = [];
    open_ones = [];
  }
  account p s (pushes p0 q s0 t value r fits e) = filed value.outcome value (account p0 s0 r)
  account p s (confirms p0 s0 cursor r) = let a = account p0 s0 r in record a { saved = a.done }
  account p s (resumes p0 q s0 t selected r e) = recovered (is_blocks p0.order) (account p0 s0 r)

  reported-from_directory :
      (k : Counter) (v : DirectoryStatistics K) → read laws k (from_directory v) ≡ reported k v
  unfolding from_directory
  reported-from_directory (of_scanned i) v = refl
  reported-from_directory (of_filtered i) v = refl
  reported-from_directory (of_retained i) v = refl
  reported-from_directory (of_failed i) v = refl
  reported-from_directory (of_vanished i) v = refl
  reported-from_directory of_pruned v = refl
  reported-from_directory of_truncated v = refl
  reported-from_directory of_bytes v = refl
  reported-from_directory of_unknown v = refl
  reported-from_directory of_versions v = refl
  reported-from_directory of_markers v = refl
  reported-from_directory of_all_bytes v = refl
  reported-from_directory of_vanished_listings v = refl
  reported-from_directory of_completed v = (ended_lem v.outcome).0
  reported-from_directory of_interrupted v = (ended_lem v.outcome).1
  reported-from_directory of_unreadable v = (ended_lem v.outcome).2

  -- The entry of `active` that a report makes.
  abbrev active_of : DirectoryStatistics K → Active K
  active_of v = record { path = v.path; counts = from_directory v; revision = v.revision }

  abbrev actives : List (DirectoryStatistics K) → List (Active K)
  actives [] = []
  actives (v ∷ vs) = active_of v ∷ actives vs

  active_remove-actives :
      (path : List ℕ) (vs : List (DirectoryStatistics K))
      → active_remove path (actives vs) ≡ actives (without path vs)
  unfolding active_remove
  active_remove-actives path [] = refl
  active_remove-actives path (v ∷ vs) = elim (Bool-cases (bytes_eq v.path path)) [
    | inl here ↦ rw here refl
    | inr there ↦ rw (there, active_remove-actives path vs) refl
  ]

  active_sum-actives :
      (k : Counter) (vs : List (DirectoryStatistics K))
      → active_sum laws k (actives vs) ≡ total k vs
  active_sum-actives k [] = refl
  active_sum-actives k (v ∷ vs) =
      omega (arith, reported-from_directory k v, active_sum-actives k vs)

  -- The progress shows what the account says.
  abbrev Shows : ScanProgress K → Account K → Type 0
  Shows p a =
      ((k : Counter) → read laws k p.complete_prefix ≡ a.base k + total k a.done)
      × ((k : Counter) → read laws k p.confirmed ≡ a.base k + total k a.saved)
      × (p.active ≡ actives a.open_ones)

  abbrev ShowsOutcome : Account K → Outcome K → Type 0
  ShowsOutcome a o = o.error ≡ none → Shows o.progress a

  settled-Shows :
      (outcome : Option ListingOutcome) (value : DirectoryStatistics K) (p : ScanProgress K)
      (s : ScanSnapshot K) (a : Account K)
      → ((k : Counter) → read laws k p.complete_prefix ≡ a.base k + total k a.done)
      → ((k : Counter) → read laws k p.confirmed ≡ a.base k + total k a.saved)
      → p.active ≡ actives (without value.path a.open_ones)
      → ((k : Counter)
          → read laws k p.complete_prefix + read laws k (from_directory value) ≤ max_u64)
      → ShowsOutcome (filed outcome value a) (settled kinds outcome value p s)
  unfolding settled
  settled-Shows (some complete) value p s a prefix saved active fits e =
      if-cases (ShowsOutcome (filed (some complete) value a)) (kinds.total value.failed == 0) _ _
        (λ clean none_yet. (
          λ k. omega (
            arith,
            fits k,
            prefix k,
            reported-from_directory k value,
            read-default laws k,
            read-replace laws k p.complete_prefix (default kinds) (from_directory value),
          ),
          saved,
          active,
        ))
        (λ failures bad. absurd (ground (arith, bad))) e
  settled-Shows (some interrupted) value p s a prefix saved active fits e =
      absurd (ground (arith, e))
  settled-Shows (some unreadable) value p s a prefix saved active fits e =
      absurd (ground (arith, e))
  settled-Shows none value p s a prefix saved active fits e =
      (prefix, saved, ap (λ rest. active_of value ∷ rest) active)

  push-Shows :
      (value : DirectoryStatistics K) (p : ScanProgress K) (s : ScanSnapshot K) (a : Account K)
      → Shows p a
      → Fits laws p value
      → ShowsOutcome (filed value.outcome value a) (push kinds value p s)
  unfolding push
  push-Shows value p s a shows fits =
      if-cases (ShowsOutcome (filed value.outcome value a))
        (is_blocks p.order && other_key value.path p.active) _ _
        (λ mixed e. absurd (ground (arith, e)))
        (λ alone.
          if-cases (ShowsOutcome (filed value.outcome value a))
            (is_out_of_order value (active_get value.path p.active)) _ _
            (λ late e. absurd (ground (arith, e)))
            (λ next.
              settled-Shows value.outcome value
                (record p { active = active_remove value.path p.active }) _ a shows.0 shows.1
                (ap (active_remove value.path) shows.2
                  ∙ active_remove-actives value.path a.open_ones)
                (λ k. omega (arith, fits k))))

  resumed-Shows :
      (selected : Option (List ℕ)) (p : ScanProgress K) (s : ScanSnapshot K) (a : Account K)
      → Shows p a
      → ShowsOutcome (recovered (is_blocks p.order) a) (resumed kinds selected p s)
  unfolding resumed restored
  resumed-Shows selected p s a shows =
      if-cases (ShowsOutcome (recovered (is_blocks p.order) a)) (is_blocks p.order) _ _
        (λ in_blocks.
          if-cases (ShowsOutcome (recovered (is_blocks p.order) a))
            (not (checkpoint_eq selected p.cursor)) _ _ (λ differs e. absurd (ground (arith, e)))
            (λ same e.
              subst (λ b. Shows (restored kinds p.confirmed p s).progress (recovered b a))
                (sym in_blocks) (shows.1, shows.1, refl)))
        (λ freely.
          if-cases (ShowsOutcome (recovered (is_blocks p.order) a)) (some_checkpoint kinds selected)
            _ _ (λ given e. absurd (ground (arith, e)))
            (λ root e.
              subst (λ b. Shows (restored kinds (default kinds) p s).progress (recovered b a))
                (sym freely) (read-default laws, read-default laws, refl)))

  Reachable-Shows :
      (p : ScanProgress K) (s : ScanSnapshot K) (r : Reachable laws p s) → Shows p (account p s r)
  unfolding new confirm
  Reachable-Shows p s (starts order cursor snapshot) = (λ k. omega arith, λ k. omega arith, refl)
  Reachable-Shows p s (pushes p0 q s0 t value r fits e) =
      subst (ShowsOutcome (filed value.outcome value (account p0 s0 r))) e
        (push-Shows value p0 s0 (account p0 s0 r) (Reachable-Shows p0 s0 r) fits) refl
  Reachable-Shows p s (confirms p0 s0 cursor r) =
      let shows = Reachable-Shows p0 s0 r in (shows.0, shows.0, shows.2)
  Reachable-Shows p s (resumes p0 q s0 t selected r e) =
      subst (ShowsOutcome (recovered (is_blocks p0.order) (account p0 s0 r))) e
        (resumed-Shows selected p0 s0 (account p0 s0 r) (Reachable-Shows p0 s0 r)) refl

  -- After any calls without an error, from a scan that starts with the counts of its snapshot,
  -- and as long as no counter exceeds 64 bits, every counter is what an account kept of the
  -- calls, and of the counts at the start, says. That of the snapshot is the counts that the scan
  -- began with, the reports of the directories that were listed to their end, and the last report
  -- of each directory that is being listed; that of the complete prefix leaves out the last; and
  -- that of the confirmed counts is of those that were listed when a cursor was confirmed last. A
  -- recovery in blocks takes the account back to the confirmed directories, any other to nothing.
  pub Reachable-Sound :
      (p : ScanProgress K) (s : ScanSnapshot K) (r : Reachable laws p s) (k : Counter)
      → let a = account p s r in
        (read laws k s.counts ≡ a.base k + total k a.done + total k a.open_ones)
        × (read laws k p.complete_prefix ≡ a.base k + total k a.done)
        × (read laws k p.confirmed ≡ a.base k + total k a.saved)
  Reachable-Sound p s r k =
      let shows = Reachable-Shows p s r in
      (
        omega (
          arith,
          Reachable-prefix laws p s r k,
          shows.0 k,
          ap (active_sum laws k) shows.2,
          active_sum-actives k (account p s r).open_ones,
        ),
        shows.0 k,
        shows.1 k,
      )
