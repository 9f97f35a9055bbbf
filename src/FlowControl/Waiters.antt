-- ===== src/FlowControl/Waiters.antt =====
-- The callers that wait in `SenderCreditState::acquire`. A caller registers with the Notify, takes
-- one look at the ledger under the lock, and then waits for a notification; `grant` and `close`
-- notify after they have let the lock go, so other steps come between.
use terrasync_rs.Base.{
  ℕ, suc, ◌<◌, ◌≡◌, subst, Bool, true, false, List, [], ◌∷◌, ◌++◌, none, All, All-append, All-left,
  All-right, arith,
}
use terrasync_rs.FlowControl.{TransportError}
use terrasync_rs.FlowControl.Sender.{
  SenderCreditLedger, too_large, refused, taken, waits, attempt, attempt-taken, grant, close,
}

pub record Caller : Type 0 where
  pub bytes : ℕ
  pub parked : Bool
  pub notified : Bool

-- `signals` counts the calls of notify_waiters that are still to come.
pub record Window : Type 0 where
  pub ledger : SenderCreditLedger
  pub callers : List Caller
  pub signals : ℕ

abbrev pub registered : ℕ → Caller
registered bytes = record { bytes = bytes; parked = false; notified = false }

abbrev pub notify : Caller → Caller
notify c = record c { notified = true }

unfoldable pub notify_all : List Caller → List Caller
notify_all [] = []
notify_all (c ∷ cs) = notify c ∷ notify_all cs

pub data Step : Window → Window → Type 0 where
  calls :
      (w : Window) (bytes : ℕ)
      → too_large w.ledger bytes ≡ none
      → Step w (record w { callers = registered bytes ∷ w.callers })
  takes :
      (w : Window) (xs ys : List Caller) (c : Caller) (after : SenderCreditLedger)
      → w.callers ≡ xs ++ c ∷ ys
      → c.parked ≡ false
      → attempt w.ledger c.bytes ≡ taken after
      → Step w (record w { ledger = after; callers = xs ++ ys })
  fails :
      (w : Window) (xs ys : List Caller) (c : Caller) (e : TransportError)
      → w.callers ≡ xs ++ c ∷ ys
      → c.parked ≡ false
      → attempt w.ledger c.bytes ≡ refused e
      → Step w (record w { callers = xs ++ ys })
  parks :
      (w : Window) (xs ys : List Caller) (c : Caller)
      → w.callers ≡ xs ++ c ∷ ys
      → c.parked ≡ false
      → attempt w.ledger c.bytes ≡ waits
      → Step w (record w { callers = xs ++ record c { parked = true } ∷ ys })
  resumes :
      (w : Window) (xs ys : List Caller) (c : Caller)
      → w.callers ≡ xs ++ c ∷ ys
      → c.parked ≡ true
      → c.notified ≡ true
      → Step w (record w { callers = xs ++ registered c.bytes ∷ ys })
  grants :
      (w : Window) (bytes : ℕ)
      → Step w (record w { ledger = (grant w.ledger bytes).0; signals = suc w.signals })
  closes : (w : Window) → Step w (record w { ledger = close w.ledger; signals = suc w.signals })
  notifies :
      (w : Window) (n : ℕ)
      → w.signals ≡ suc n
      → Step w (record w { callers = notify_all w.callers; signals = n })

pub data Reachable : Window → Type 0 where
  opens :
      (ledger : SenderCreditLedger)
      → Reachable (record { ledger = ledger; callers = []; signals = 0 })
  steps : (v w : Window) → Reachable v → Step v w → Reachable w

-- A caller that waits without a notification is right to wait.
abbrev Waiting : SenderCreditLedger → Caller → Type 0
Waiting ledger c =
    c.parked ≡ true → c.notified ≡ false → (ledger.closed ≡ false) × (ledger.available < c.bytes)

abbrev Settled : Window → Type 0
Settled w = w.signals ≡ 0 → All (Waiting w.ledger) w.callers

All-notify : (ledger : SenderCreditLedger) (cs : List Caller) → All (Waiting ledger) (notify_all cs)
unfolding notify_all
All-notify ledger [] = tt
All-notify ledger (c ∷ cs) = ((λ p n. absurd (ground arith)), All-notify ledger cs)

All-weaken :
    (l m : SenderCreditLedger) (cs : List Caller)
    → ((c : Caller) → Waiting l c → Waiting m c)
    → All (Waiting l) cs
    → All (Waiting m) cs
All-weaken l m [] f h = tt
All-weaken l m (c ∷ cs) f (h, hs) = (f c h, All-weaken l m cs f hs)

-- The callers on both sides of one.
All-without :
    (l : SenderCreditLedger) (cs xs ys : List Caller) (c : Caller)
    → cs ≡ xs ++ c ∷ ys
    → All (Waiting l) cs
    → All (Waiting l) xs × All (Waiting l) ys
All-without l cs xs ys c e h =
    let all : All (Waiting l) (xs ++ c ∷ ys) = subst (All (Waiting l)) e h in
    (All-left (Waiting l) xs (c ∷ ys) all, (All-right (Waiting l) xs (c ∷ ys) all).1)

All-with :
    (l : SenderCreditLedger) (xs ys : List Caller) (c : Caller)
    → Waiting l c
    → All (Waiting l) xs × All (Waiting l) ys
    → All (Waiting l) (xs ++ c ∷ ys)
All-with l xs ys c h (hs, ks) = All-append (Waiting l) xs (c ∷ ys) hs (h, ks)

taken-Waiting :
    (l after : SenderCreditLedger) (bytes : ℕ) (c : Caller)
    → attempt l bytes ≡ taken after
    → Waiting l c
    → Waiting after c
taken-Waiting l after bytes c e h p n =
    let (unclosed, short) = h p n in
    let (_, fits, less, _, still) = attempt-taken l after bytes e in (still, omega arith)

attempt-waits :
    (l : SenderCreditLedger) (bytes : ℕ)
    → attempt l bytes ≡ waits
    → (l.closed ≡ false) × (l.available < bytes)
unfolding attempt
attempt-waits l bytes e = ground arith

Step-Settled : (v w : Window) → Step v w → Settled v → Settled w
Step-Settled v w (calls u bytes small) h z = ((λ p. absurd (ground arith)), h z)
Step-Settled v w (takes u xs ys c after at p e) h z =
    let (hs, ks) = All-without u.ledger u.callers xs ys c at (h z) in
    All-weaken u.ledger after (xs ++ ys) (λ d. taken-Waiting u.ledger after c.bytes d e)
      (All-append (Waiting u.ledger) xs ys hs ks)
Step-Settled v w (fails u xs ys c err at p e) h z =
    let (hs, ks) = All-without u.ledger u.callers xs ys c at (h z) in
    All-append (Waiting u.ledger) xs ys hs ks
Step-Settled v w (parks u xs ys c at p e) h z =
    All-with u.ledger xs ys (record c { parked = true }) (λ q n. attempt-waits u.ledger c.bytes e)
      (All-without u.ledger u.callers xs ys c at (h z))
Step-Settled v w (resumes u xs ys c at p n) h z =
    All-with u.ledger xs ys (registered c.bytes) (λ q. absurd (ground arith))
      (All-without u.ledger u.callers xs ys c at (h z))
Step-Settled v w (grants u bytes) h z = absurd (ground arith)
Step-Settled v w (closes u) h z = absurd (ground arith)
Step-Settled v w (notifies u n e) h z = All-notify u.ledger u.callers

Reachable-Settled : (w : Window) → Reachable w → Settled w
Reachable-Settled w (opens ledger) = λ z. tt
Reachable-Settled w (steps v w₁ r s) = Step-Settled v w₁ s (Reachable-Settled v r)

-- No wake-up is lost: in a reachable state with no notification still to come, a caller that
-- waits and is not notified is one that the ledger would send back to wait at that moment.
pub parked-waits :
    (w : Window) (xs ys : List Caller) (c : Caller)
    → Reachable w
    → w.signals ≡ 0
    → w.callers ≡ xs ++ c ∷ ys
    → c.parked ≡ true
    → c.notified ≡ false
    → attempt w.ledger c.bytes ≡ waits
unfolding attempt
parked-waits w xs ys c r z at p n =
    let all : All (Waiting w.ledger) (xs ++ c ∷ ys) =
      subst (All (Waiting w.ledger)) at (Reachable-Settled w r z) in
    let (unclosed, short) = (All-right (Waiting w.ledger) xs (c ∷ ys) all).0 p n in ground arith
