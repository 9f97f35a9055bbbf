-- ===== src/Diagnostics/Recovery/Restart.antt =====
-- crates/app/src/consumer/stats/callback_state.rs and recovery_progress.rs: a checkpoint that was
-- restored, and the notices of recoveries after it.
use terrasync_rs.Base.{
  ℕ, ◌≤◌, List, [], ◌∷◌, Bool, true, false, Option, none, some, some_eq, ltb, if-cases, Bool-cases,
  le→ltb-false, bytes_eq→eq, ◌≡◌, refl, sym, ap, ◌∙◌, subst, inl, inr, arith,
}
use terrasync_rs.Diagnostics.Outbox.{
  DiagnosticEvent, DiagnosticOutbox, max_u64, is_digest, is_empty, validate_identity, set_attempt,
  enqueue, saturating_add, Returned,
}
use terrasync_rs.Diagnostics.Outbox.Branches.{
  Enqueued, exhausted, omits, keeps, enqueue-Enqueued, enqueues, sets_attempt, performed,
}
use terrasync_rs.Diagnostics.Outbox.Conditions.{IsValid, Valid-IsValid, IsValid-Valid}
use terrasync_rs.Diagnostics.Outbox.Identity.{Between, performed-Between}
use terrasync_rs.Diagnostics.Recovery.{
  CallbackState, restore_checkpoint, TraversalRecoveryCounters, TraversalRecoveryState, is_running,
  is_recovering, has_failed, told, apply, storage_origin, network_recovered, network_fault,
}

-- One notice: what the counters were, and the state.
pub record Notice : Type 0 where
  pub counters : TraversalRecoveryCounters
  pub state : TraversalRecoveryState

-- The outbox is valid, and has the identity of its callback.
record Agreed (s : CallbackState) : Type 0 where
  between : Between s.outbox
  round : s.outbox.round_id ≡ s.identity.round_id
  attempt : s.outbox.attempt_id ≡ s.identity.attempt_id

enqueue-ids :
    (s : DiagnosticOutbox) (event : DiagnosticEvent) (r : Returned Bool)
    → Enqueued s event r
    → (r.outbox.round_id ≡ s.round_id) × (r.outbox.attempt_id ≡ s.attempt_id)
enqueue-ids s event _ (exhausted spent) = (refl, refl)
enqueue-ids s event _ (omits left) = (refl, refl)
enqueue-ids s event _ (keeps left room) = (refl, refl)

bytes_eq→ids :
    (round attempt : List ℕ) (s : DiagnosticOutbox)
    → validate_identity round attempt s ≡ true
    → (s.round_id ≡ round) × (s.attempt_id ≡ attempt)
unfolding validate_identity
bytes_eq→ids round attempt s h = (
  bytes_eq→eq s.round_id round (ground (arith, h)),
  bytes_eq→eq s.attempt_id attempt (ground (arith, h)),
)

module _ (blake3_hex : List ℕ → List ℕ) (hex : (text : List ℕ) → is_digest (blake3_hex text) ≡ true)
    (recovered_text : List ℕ) where
  abbrev pub notices : TraversalRecoveryCounters → List Notice → CallbackState → CallbackState
  notices baseline [] s = s
  notices baseline (n ∷ ns) s =
      notices baseline ns (apply blake3_hex recovered_text baseline n.counters n.state s)

  abbrev Kept : DiagnosticOutbox → DiagnosticOutbox → Type 0
  Kept s t = Between t × (t.round_id ≡ s.round_id) × (t.attempt_id ≡ s.attempt_id)

  enqueued-Kept :
      (origin code message : List ℕ) (path : Option (List ℕ)) (s : DiagnosticOutbox)
      → Between s
      → Kept s (enqueue blake3_hex origin code message path s).outbox
  unfolding performed
  enqueued-Kept origin code message path s b =
      let ids = enqueue-ids s _ _ (enqueue-Enqueued blake3_hex origin code message path s) in
      (performed-Between blake3_hex hex (enqueues origin code message path) s tt b, ids.0, ids.1)

  told-Kept :
      (state : TraversalRecoveryState) (s : DiagnosticOutbox)
      → Between s
      → Kept s (told blake3_hex recovered_text state s)
  unfolding told
  told-Kept is_running s b = enqueued-Kept storage_origin network_recovered recovered_text none s b
  told-Kept (is_recovering f) s b =
      enqueued-Kept storage_origin network_fault f.text (some f.path) s b
  told-Kept (has_failed f) s b = enqueued-Kept storage_origin network_fault f.text (some f.path) s b

  apply-Agreed :
      (baseline counters : TraversalRecoveryCounters) (state : TraversalRecoveryState)
      (s : CallbackState)
      → Agreed s
      → Agreed (apply blake3_hex recovered_text baseline counters state s)
  unfolding apply
  apply-Agreed baseline counters state s a =
      let kept =
        if-cases (Kept s.outbox)
          (ltb s.runtime.network_faults
            (saturating_add baseline.network_faults counters.network_faults))
          (told blake3_hex recovered_text state s.outbox) s.outbox
          (λ new_fault. told-Kept state s.outbox a.between) (λ old. (a.between, refl, refl)) in
      record { between = kept.0; round = kept.1 ∙ a.round; attempt = kept.2 ∙ a.attempt }

  notices-Agreed :
      (baseline : TraversalRecoveryCounters) (ns : List Notice) (s : CallbackState)
      → Agreed s
      → Agreed (notices baseline ns s)
  notices-Agreed baseline [] s a = a
  notices-Agreed baseline (n ∷ ns) s a =
      notices-Agreed baseline ns _ (apply-Agreed baseline n.counters n.state s a)

  restored-parts :
      (saved s t : CallbackState)
      → restore_checkpoint saved s ≡ some t
      → (validate_identity saved.identity.round_id saved.identity.attempt_id saved.outbox ≡ true)
        × (t.outbox ≡ set_attempt s.identity.attempt_id saved.outbox)
        × (t.identity.round_id ≡ saved.identity.round_id)
        × (t.identity.attempt_id ≡ s.identity.attempt_id)
  unfolding restore_checkpoint
  restored-parts saved s t e =
      elim (Bool-cases
        (validate_identity saved.identity.round_id saved.identity.attempt_id saved.outbox)) [
          | inl fine ↦
              let made = some_eq (rw fine at e) in
              (
                fine,
                ap (λ c. c.outbox) (sym made),
                ap (λ c. c.identity.round_id) (sym made),
                ap (λ c. c.identity.attempt_id) (sym made),
              )
          | inr bad ↦ absurd (let clash : none ≡ some t = rw bad at e in ground arith)
        ]

  apply-twice :
      (baseline counters : TraversalRecoveryCounters) (first second : TraversalRecoveryState)
      (s : CallbackState)
      → (apply blake3_hex recovered_text baseline counters second
          (apply blake3_hex recovered_text baseline counters first s)).outbox
        ≡ (apply blake3_hex recovered_text baseline counters first s).outbox
  unfolding apply
  apply-twice baseline counters first second s =
      let faults = saturating_add baseline.network_faults counters.network_faults in
      let seen : ltb faults faults ≡ false = le→ltb-false faults faults (omega arith) in
      rw seen refl

  -- If hash texts are digests, a callback state that was restored from a checkpoint, with
  -- attempts that are not empty and a count of omissions of 64 bits, passes after any notices of
  -- recoveries the validation that the next restart asks of it; and another notice of the same
  -- counters, whatever state it tells, leaves the outbox as it is, so that no fault is told
  -- twice.
  pub restore_checkpoint-notices :
      (saved s t : CallbackState) (baseline : TraversalRecoveryCounters) (ns : List Notice)
      (last : Notice) (second : TraversalRecoveryState)
      → restore_checkpoint saved s ≡ some t
      → is_empty saved.outbox.attempt_id ≡ false
      → is_empty s.identity.attempt_id ≡ false
      → saved.outbox.omitted_count ≤ max_u64
      → let u =
          apply blake3_hex recovered_text baseline last.counters last.state
            (notices baseline ns t) in
        (validate_identity u.identity.round_id u.identity.attempt_id u.outbox ≡ true)
        × ((apply blake3_hex recovered_text baseline last.counters second u).outbox ≡ u.outbox)
  unfolding performed set_attempt
  restore_checkpoint-notices saved s t baseline ns last second e named renamed counted =
      let parts = restored-parts saved s t e in
      let ids =
        bytes_eq→ids saved.identity.round_id saved.identity.attempt_id saved.outbox parts.0 in
      let own : IsValid saved.outbox =
        subst (λ round. validate_identity round saved.outbox.attempt_id saved.outbox ≡ true)
          (sym ids.0)
          (subst (λ attempt. validate_identity saved.identity.round_id attempt saved.outbox ≡ true)
            (sym ids.1) parts.0) in
      let taken : Between (set_attempt s.identity.attempt_id saved.outbox) =
        performed-Between blake3_hex hex (sets_attempt s.identity.attempt_id) saved.outbox renamed
          (record { valid = IsValid-Valid saved.outbox own; named = named; counted = counted }) in
      let begun : Agreed t = record {
        between = subst Between (sym parts.1) taken;
        round = ap (λ o. o.round_id) parts.1 ∙ ids.0 ∙ sym parts.2;
        attempt = ap (λ o. o.attempt_id) parts.1 ∙ sym parts.3;
      } in
      let a =
        apply-Agreed baseline last.counters last.state _ (notices-Agreed baseline ns t begun) in
      let u =
        apply blake3_hex recovered_text baseline last.counters last.state (notices baseline ns t) in
      (
        subst (λ round. validate_identity round u.identity.attempt_id u.outbox ≡ true) a.round
            (subst (λ attempt. validate_identity u.outbox.round_id attempt u.outbox ≡ true)
              a.attempt (Valid-IsValid u.outbox a.between.valid)),
        apply-twice baseline last.counters last.state second (notices baseline ns t),
      )
