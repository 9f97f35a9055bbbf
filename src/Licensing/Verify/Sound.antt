-- ===== src/Licensing/Verify/Sound.antt =====
-- crates/licensing/src/verify.rs: what a success of `verify_license` means.
use terrasync_rs.Base.{
  ℕ, ◌≤◌, ◌≡◌, ◌⊎◌, refl, ap, sym, ◌∙◌, true, List, Option, none, some, ◌==◌, if◌then◌else◌,
  Bool-cases, ==_iff, inl, inr, arith, bytes_eq_refl, subst,
}
use terrasync_rs.Licensing.{
  LicenseError, machine_binding_mismatch, Result, ok, err, MachineBinding, Activation, LicenseFile,
  SentinelData, holds, Machine, World,
}
use terrasync_rs.Licensing.Crypto.{Primitives, compute_binding_hmac}
use terrasync_rs.Licensing.Clock.{LicenseClock, advance, start_clock}
use terrasync_rs.Licensing.Sentinel.{read_sentinel, write_sentinel-license_file}
use terrasync_rs.Licensing.Verify.{
  past, check_expiry_with_clock, opened, read_license, is_bound, touch, verify_binding_hmac_compat,
  migrate, with_found, update_sentinel_clock, saved, save, verify_unlimited, rebind, verify_advance,
  sentinel_error, verify_machine, verify_activated, verify_clocked, verify_read, verify_license,
}
use terrasync_rs.Licensing.Verify.Checks.{
  NotBefore, err-ok, guard-ok, touch-is_bound, ok_eq, advance-ok, start_clock-ok, NotBefore-mono,
}

-- A license whose activation binds a machine and carries its own HMAC.
abbrev pub IsRebound : Primitives → List ℕ → LicenseFile → Type 0
IsRebound prims fp l =
    (a : Activation) × (l.activation ≡ some a)
    × (is_bound fp a.machines ≡ true)
    × (verify_binding_hmac_compat prims l a ≡ none)

-- What a verification that returns `l` and leaves `m` has found in the license file's `license`.
pub record IsVerified (prims : Primitives) (world : World) (license l : LicenseFile) (m : Machine)
    : Type 0 where
  pub signed : prims.signature_error (prims.payload_json license.payload) license.signature ≡ none
  pub unexpired : past license.payload.expires_at world.now ≡ none
  pub bound :
      (license.payload.max_machines ≡ 0)
      ⊎ ((fp : List ℕ) × (a : Activation) × (world.fingerprint ≡ ok fp)
          × (license.activation ≡ some a)
          × (is_bound fp a.machines ≡ true)
          × (verify_binding_hmac_compat prims license a ≡ none))
  pub payload : l.payload ≡ license.payload
  pub signature : l.signature ≡ license.signature
  pub again :
      (license.payload.max_machines ≡ 0)
      ⊎ ((fp : List ℕ) × (world.fingerprint ≡ ok fp) × IsRebound prims fp l)
  pub clock : (now : ℕ) × (l.license_clock ≡ some now) × NotBefore license.license_clock now
  pub stored : m.license_file ≡ holds l

-- What the last steps, from a clock on, leave of a license.
record IsEnded (license : LicenseFile) (clock : ℕ) (l : LicenseFile) (m : Machine) : Type 0 where
  pub payload : l.payload ≡ license.payload
  pub signature : l.signature ≡ license.signature
  pub now : (now : ℕ) × (l.license_clock ≡ some now) × (clock ≤ now)
  pub stored : m.license_file ≡ holds l

module _ (prims : Primitives) (world : World) where
  update_sentinel_clock-license_file :
      (m : Machine) (license : LicenseFile) (fp : Option (List ℕ))
      → (update_sentinel_clock prims world m license fp).1.license_file ≡ m.license_file
  unfolding update_sentinel_clock with_found migrate
  update_sentinel_clock-license_file m license fp =
      go (read_sentinel prims m license.payload.license_id)
    where
      fresh :
          (f : Option (List ℕ)) (c : Option ℕ)
          → (migrate prims world m license f c).1.license_file ≡ m.license_file
      fresh (some f) (some c) = write_sentinel-license_file prims world m _
      fresh (some f) none = refl
      fresh none (some c) = refl
      fresh none none = refl

      go :
          (r : Result (Option SentinelData))
          → (with_found prims world m license fp r).1.license_file ≡ m.license_file
      go (err e) = refl
      go (ok none) = fresh fp license.license_clock
      go (ok (some s)) = write_sentinel-license_file prims world m _

  saved-ok :
      (license l : LicenseFile) (n : Machine) (r : Option LicenseError × Machine)
      → saved prims license r ≡ (ok l, n)
      → (license ≡ l) × (r.1 ≡ n)
  unfolding saved
  saved-ok license l n (none, m) h = (ok_eq license l (ap (λ o. o.0) h), ap (λ o. o.1) h)
  saved-ok license l n (some e, m) h = absurd (err-ok e l m n (err e, m) refl h)

  save-ok :
      (m n : Machine) (license l : LicenseFile) (fp : Option (List ℕ))
      → save prims world m license fp ≡ (ok l, n)
      → (license ≡ l) × (n.license_file ≡ holds l)
  unfolding save
  save-ok m n license l fp h =
      let (_, rest) = guard-ok world.write_license m n _ l h in
      let (same, left) = saved-ok license l n _ rest in
      (
        same,
        ap (λ k. k.license_file) (sym left)
            ∙ update_sentinel_clock-license_file (record m { license_file = holds license }) license
                fp
            ∙ ap holds same,
      )

  save-IsEnded :
      (m n : Machine) (license updated l : LicenseFile) (fp : Option (List ℕ)) (clock now : ℕ)
      → updated.payload ≡ license.payload
      → updated.signature ≡ license.signature
      → updated.license_clock ≡ some now
      → clock ≤ now
      → save prims world m updated fp ≡ (ok l, n)
      → IsEnded license clock l n
  save-IsEnded m n license updated l fp clock now p g c le h =
      let (same, left) = save-ok m n updated l fp h in
      record {
        payload = ap (λ k. k.payload) (sym same) ∙ p;
        signature = ap (λ k. k.signature) (sym same) ∙ g;
        now = (now, ap (λ k. k.license_clock) (sym same) ∙ c, le);
        stored = left;
      }

  -- The HMAC that is written passes the check.
  hmac-compat :
      (l : LicenseFile) (ms : List MachineBinding)
      → verify_binding_hmac_compat prims l (record {
        machines = ms;
        binding_hmac = compute_binding_hmac prims l.signature ms l.license_clock;
      })
        ≡ none
  unfolding verify_binding_hmac_compat
  hmac-compat l ms =
      rw (bytes_eq_refl (compute_binding_hmac prims l.signature ms l.license_clock)) refl

  rebind-ok :
      (m n : Machine) (license l : LicenseFile) (fp : List ℕ) (clock now : ℕ)
      (old : List MachineBinding) (o : Option (List MachineBinding))
      → clock ≤ now
      → touch fp now old ≡ o
      → rebind prims world m license fp now o ≡ (ok l, n)
      → IsEnded license clock l n × IsRebound prims fp l
  unfolding rebind
  rebind-ok m n license l fp clock now old none le at h =
      absurd (err-ok machine_binding_mismatch l m n (err machine_binding_mismatch, m) refl h)
  rebind-ok m n license l fp clock now old (some ms) le at h =
      let (same, _) = save-ok m n updated l (some fp) h in
      (
        save-IsEnded m n license updated l (some fp) clock now refl refl refl le h,
        subst (IsRebound prims fp) same
            (written, refl, touch-is_bound fp now old ms at, hmac-compat updated ms),
      )
    where
      written : Activation
      written = record {
        machines = ms;
        binding_hmac = compute_binding_hmac prims license.signature ms (some now);
      }

      updated : LicenseFile
      updated = record license { license_clock = some now; activation = some written }

  advance-IsEnded :
      (m n : Machine) (license l : LicenseFile) (a : Activation) (fp : List ℕ) (clock : ℕ)
      (r : Result LicenseClock)
      → advance world.later clock ≡ r
      → verify_advance prims world m license a fp r ≡ (ok l, n)
      → IsEnded license clock l n × IsRebound prims fp l
  unfolding verify_advance
  advance-IsEnded m n license l a fp clock (err e) at h = absurd (err-ok e l m n (err e, m) refl h)
  advance-IsEnded m n license l a fp clock (ok now) at h =
      rebind-ok m n license l fp clock now a.machines (touch fp now a.machines)
        (advance-ok world.later clock now at) refl h

  machine-ok :
      (m n : Machine) (license l : LicenseFile) (a : Activation) (clock : ℕ) (r : Result (List ℕ))
      → verify_machine prims world m license a clock r ≡ (ok l, n)
      → (fp : List ℕ) × (r ≡ ok fp)
        × (is_bound fp a.machines ≡ true)
        × (IsEnded license clock l n × IsRebound prims fp l)
  unfolding verify_machine
  machine-ok m n license l a clock (err e) h = absurd (err-ok e l m n (err e, m) refl h)
  machine-ok m n license l a clock (ok fp) h =
      let (known, rest) =
        guard-ok (if is_bound fp a.machines then none else some machine_binding_mismatch) m n _ l
          h in
      let (_, last) =
        guard-ok
          (sentinel_error prims (read_sentinel prims m license.payload.license_id) license fp) m n _
          l rest in
      (
        fp,
        refl,
        elim (Bool-cases (is_bound fp a.machines)) [
          | inl yes_bound ↦ yes_bound
          | inr unbound ↦ absurd (ground arith)
        ],
        advance-IsEnded m n license l a fp clock (advance world.later clock) refl last,
      )

  clocked-ok :
      (m n : Machine) (license l : LicenseFile) (clock : ℕ)
      → clock ≡ world.now
      → NotBefore license.license_clock clock
      → prims.signature_error (prims.payload_json license.payload) license.signature ≡ none
      → verify_clocked prims world m license (ok clock) ≡ (ok l, n)
      → IsVerified prims world license l n
  unfolding verify_clocked
  clocked-ok m n license l clock at kept signed h =
      elim (Bool-cases (license.payload.max_machines == 0)) [
        | inl free ↦ unlimited ((==_iff license.payload.max_machines 0).0 free) (rw free at h)
        | inr bounded ↦ activated license.activation refl (rw bounded at h)
      ]
    where
      result :
          IsEnded license clock l n
          → check_expiry_with_clock license clock ≡ none
          → (license.payload.max_machines ≡ 0)
            ⊎ ((fp : List ℕ) × (a : Activation) × (world.fingerprint ≡ ok fp)
                × (license.activation ≡ some a)
                × (is_bound fp a.machines ≡ true)
                × (verify_binding_hmac_compat prims license a ≡ none))
          → (license.payload.max_machines ≡ 0)
            ⊎ ((fp : List ℕ) × (world.fingerprint ≡ ok fp) × IsRebound prims fp l)
          → IsVerified prims world license l n
      result v e b g = record {
        signed = signed;
        unexpired =
            ap (past license.payload.expires_at) (sym at) ∙ (unfold check_expiry_with_clock in e);
        bound = b;
        payload = v.payload;
        signature = v.signature;
        again = g;
        clock = (v.now.0, v.now.1, NotBefore-mono license.license_clock clock v.now.0 v.now.2 kept);
        stored = v.stored;
      }

      unlimited :
          license.payload.max_machines ≡ 0
          → verify_unlimited prims world m license clock ≡ (ok l, n)
          → IsVerified prims world license l n
      unlimited zero_machines k =
          let (e, rest) =
            guard-ok (check_expiry_with_clock license clock) m n _ l
              (unfold verify_unlimited in k) in
          result (save-IsEnded m n license _ l none clock clock refl refl refl (omega arith) rest) e
            (inl zero_machines) (inl zero_machines)

      activated :
          (o : Option Activation)
          → license.activation ≡ o
          → verify_activated prims world m license clock o ≡ (ok l, n)
          → IsVerified prims world license l n
      activated none e k = absurd (err-ok _ l m n _ refl (unfold verify_activated in k))
      activated (some a) e k =
          let (hmac, rest) =
            guard-ok (verify_binding_hmac_compat prims license a) m n _ l
              (unfold verify_activated in k) in
          let (fresh, last) = guard-ok (check_expiry_with_clock license clock) m n _ l rest in
          let (fp, is_fp, known, (v, left)) =
            machine-ok m n license l a clock world.fingerprint last in
          result v fresh (inr (fp, a, is_fp, e, known, hmac)) (inr (fp, is_fp, left))

  -- When verify_license returns a license, the license file held one with a valid signature that
  -- has not expired at the system's time; it is for any number of machines, or its activation
  -- passes the HMAC check and binds the fingerprint of this machine; the license returned has the
  -- same payload and signature, a clock that has not gone back and, if it is for some machines
  -- only, an activation that binds this machine and passes the HMAC check again; and it is what
  -- the license file now holds.
  pub verify_license-IsVerified :
      (m n : Machine) (license l : LicenseFile)
      → m.license_file ≡ holds license
      → verify_license prims world m ≡ (ok l, n)
      → IsVerified prims world license l n
  unfolding verify_license verify_read read_license opened
  verify_license-IsVerified m n license l held h =
      let (signed, rest) =
        guard-ok (prims.signature_error (prims.payload_json license.payload) license.signature) m n
          (verify_clocked prims world m license (start_clock world.now license.license_clock)) l
          (ap (λ f. verify_read prims world m (opened f)) (sym held) ∙ h) in
      go signed (start_clock world.now license.license_clock) refl rest
    where
      go :
          prims.signature_error (prims.payload_json license.payload) license.signature ≡ none
          → (r : Result LicenseClock) → start_clock world.now license.license_clock ≡ r
          → verify_clocked prims world m license r ≡ (ok l, n)
          → IsVerified prims world license l n
      go signed (err e) at k = absurd (err-ok e l m n _ refl (unfold verify_clocked in k))
      go signed (ok clock) at k =
          let (same, kept) = start_clock-ok world.now clock license.license_clock at in
          clocked-ok m n license l clock same kept signed k
