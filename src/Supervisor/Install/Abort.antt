-- ===== src/Supervisor/Install/Abort.antt =====
-- `abort` of an operation that was finalized.
use audio_down_core.Base.{
  Bool, true, false, not, ◌&&◌, Option, none, some, ◌≡◌, refl, sym, ◌∙◌, subst, ap, Result, ok, err,
  arith, if◌then◌else◌, ◌==◌, eq_iff,
}
use Prim.Native.Nat.{compare}
use audio_down_core.Base.Map.{get}
use audio_down_core.Base.Stateful.{pure, fail, fail_when, ◌>>=◌, ◌>>◌, resume}
use audio_down_core.Base.Text.{Text, text_eq}
use audio_down_core.Domain.PluginId.{PluginId, plugin_id_eq}
use audio_down_core.Supervisor.Protocol.{
  Uuid, PluginInstallOperation, PluginInstallArtifact, finalized, aborted, state_beq, is_terminal,
}
use audio_down_core.Supervisor.Install.State.{
  InstallOperationError, InstallAttestation, installed_attestation_mismatch, invalid_transition,
  StoredOperation, World, Host, Disk, Directory, DateTime,
}
use audio_down_core.Supervisor.Install.Files.{
  Action, read, install_json, installed_dir, read_attestation, verify_attestation,
  attestation_from_directory,
}
use audio_down_core.Supervisor.Install.Sections.{matching_operation, status, set_state}
use audio_down_core.Supervisor.Install.Lifecycle.{required, check_installed, abort_found, abort}

-- What the method leaves of the operations and of the directories.
abbrev pub AreSame : World → World → Type 0
AreSame w v = (v.memory ≡ w.memory) × (v.disk ≡ w.disk)

abbrev pub IsReading : {A : Type 0} → Action A → Type 0
IsReading action = (w : World) → AreSame w (action w).1

-- A failure that has changed neither.
abbrev pub IsRefused : {A : Type 0} → World → Result A InstallOperationError × World → Type 0
IsRefused w r = ((cause : InstallOperationError) × (r.0 ≡ err cause)) × AreSame w r.1

module _ {A B : Type 0} where
  bind-IsReading :
      (m : Action A) (f : A → Action B)
      → IsReading m
      → ((a : A) → IsReading (f a))
      → IsReading (m >>= f)
  bind-IsReading m f hm hf w = later (m w).0 (m w).1 (hm w)
    where
      later :
          (r : Result A InstallOperationError) (v : World)
          → AreSame w v
          → AreSame w (resume f r v).1
      later (ok a) v h = let (kept, left) = hf a v in (kept ∙ h.0, left ∙ h.1)
      later (err e) v h = h

  -- A method that reads, and then one that refuses.
  bind-IsRefused :
      (m : Action A) (f : A → Action B) (w : World)
      → AreSame w (m w).1
      → ((a : A) (v : World) → AreSame w v → IsRefused w (f a v))
      → IsRefused w ((m >>= f) w)
  bind-IsRefused m f w h k = later (m w).0 (m w).1 h
    where
      later :
          (r : Result A InstallOperationError) (v : World)
          → AreSame w v
          → IsRefused w (resume f r v)
      later (ok a) v same = k a v same
      later (err e) v same = ((e, refl), same)

module _ (host : Host) where
  read-IsReading :
      {A : Type 0} (find : Disk → Option A) (cause : InstallOperationError)
      → IsReading (read host find cause)
  unfolding read
  read-IsReading find cause w = (ground arith, ground arith)

  decoded-IsReading :
      (o : Option InstallAttestation)
      → IsReading (elim o as (λ _. Action InstallAttestation) [
        | none ↦ fail installed_attestation_mismatch
        | some found ↦ pure found
      ])
  decoded-IsReading none w = (refl, refl)
  decoded-IsReading (some a) w = (refl, refl)

  read_attestation-IsReading :
      (directory : Disk → Option Directory) → IsReading (read_attestation host directory)
  unfolding read_attestation
  read_attestation-IsReading directory =
      bind-IsReading (read host (install_json directory) installed_attestation_mismatch) _
        (read-IsReading (install_json directory) installed_attestation_mismatch)
        (λ bytes. decoded-IsReading (host.decode_attestation bytes))

  verify_attestation-IsReading :
      (directory : Disk → Option Directory) (expected : InstallAttestation)
      → IsReading (verify_attestation host directory expected)
  unfolding verify_attestation
  verify_attestation-IsReading directory expected =
      bind-IsReading (read_attestation host directory) _ (read_attestation-IsReading directory)
        (λ a w. (refl, refl))

  attestation_from_directory-IsReading :
      (directory : Disk → Option Directory) (plugin_id : PluginId) (id : Uuid)
      (artifact : PluginInstallArtifact)
      → IsReading (attestation_from_directory host directory plugin_id id artifact)
  unfolding attestation_from_directory
  attestation_from_directory-IsReading directory plugin_id id artifact =
      bind-IsReading (read_attestation host directory) _ (read_attestation-IsReading directory)
        (λ a.
          bind-IsReading (fail_when _ installed_attestation_mismatch) _ (λ w. (refl, refl))
            (λ _ w. (refl, refl)))

  required-IsReading :
      {A : Type 0} (o : Option A) (cause : InstallOperationError) → IsReading (required o cause)
  required-IsReading none cause w = (refl, refl)
  required-IsReading (some a) cause w = (refl, refl)

  check_installed-IsReading :
      (plugin_id : PluginId) (id : Uuid) (operation : PluginInstallOperation)
      → IsReading (check_installed host plugin_id id operation)
  unfolding check_installed
  check_installed-IsReading plugin_id id operation =
      bind-IsReading (required operation.artifact invalid_transition) _
        (required-IsReading operation.artifact invalid_transition)
        (λ artifact.
          bind-IsReading
            (attestation_from_directory host (installed_dir plugin_id) plugin_id id artifact) _
            (attestation_from_directory-IsReading (installed_dir plugin_id) plugin_id id artifact)
            (λ expected. verify_attestation-IsReading (installed_dir plugin_id) expected))

module _ {A B : Type 0} (w v : World) where
  IsRefused-bind : (m : Action A) (f : A → Action B) → IsRefused w (m v) → IsRefused w ((m >>= f) v)
  IsRefused-bind m f ((cause, e), same) =
      subst (λ r. IsRefused w (resume f r (m v).1)) (sym e) ((cause, refl), same)

module _ {B : Type 0} (w v : World) where
  fail_when-IsRefused :
      (b : Bool) (cause : InstallOperationError) (k : Action B)
      → AreSame w v
      → b ≡ true
      → IsRefused w ((fail_when b cause >> k) v)
  fail_when-IsRefused true cause k same h = ((cause, refl), same)
  fail_when-IsRefused false cause k same h = absurd (ground arith)

  else-IsRefused :
      (b : Bool) (m k : Action B)
      → b ≡ false
      → IsRefused w (k v)
      → IsRefused w ((if b then m else k) v)
  else-IsRefused true m k h r = absurd (ground arith)
  else-IsRefused false m k h r = r

if-IsReading :
    {A : Type 0} (b : Bool) (m k : Action A)
    → IsReading m
    → IsReading k
    → IsReading (if b then m else k)
if-IsReading true m k hm hk = hm
if-IsReading false m k hm hk = hk

module _ (host : Host) (plugin_id : PluginId) (id : Uuid) (now : DateTime)
    (stored : StoredOperation) (w : World)
    (found : get compare id w.memory.operations ≡ some stored)
    (mine : stored.operation.plugin_id ≡ plugin_id)
    (ended : stored.operation.state ≡ finalized) where
  matching-found : (v : World) → AreSame w v → matching_operation plugin_id id v ≡ (ok stored, v)
  unfolding matching_operation
  matching-found v same =
      let here : get compare id v.memory.operations ≡ some stored =
        ap (λ m. get compare id m.operations) same.0 ∙ found in
      let own : (stored.operation.plugin_id == plugin_id) ≡ true =
        (eq_iff stored.operation.plugin_id plugin_id).1 mine in
      ground arith

  status-found : status plugin_id id w ≡ (ok stored.operation, w)
  unfolding status
  status-found =
      ap (λ r. resume (λ (s : StoredOperation). pure s.operation) r.0 r.1)
        (matching-found w (refl, refl))

  matching-IsRefused :
      {B : Type 0} (f : StoredOperation → Action B) (v : World)
      → AreSame w v
      → IsRefused w (f stored v)
      → IsRefused w ((matching_operation plugin_id id >>= f) v)
  matching-IsRefused f v same h =
      subst (λ r. IsRefused w (resume f r.0 r.1)) (sym (matching-found v same)) h

  set_state-IsRefused :
      (code : Option Text) (v : World)
      → AreSame w v
      → IsRefused w (set_state host plugin_id id aborted code now v)
  unfolding set_state
  set_state-IsRefused code v same = matching-IsRefused _ v same (
      fail_when-IsRefused w v
        (is_terminal stored.operation.state && not (state_beq stored.operation.state aborted))
        invalid_transition _ same (ground arith))

  abort_found-IsRefused : IsRefused w (abort_found host plugin_id id now stored.operation w)
  unfolding abort_found
  abort_found-IsRefused =
      bind-IsRefused
        (if state_beq stored.operation.state finalized
          then check_installed host plugin_id id stored.operation
          else pure tt)
        _ w
        (if-IsReading (state_beq stored.operation.state finalized)
          (check_installed host plugin_id id stored.operation) (pure tt)
          (check_installed-IsReading host plugin_id id stored.operation) (λ v. (refl, refl)) w)
        (λ _ v same.
          IsRefused-bind w v
            (if state_beq stored.operation.state aborted
              then pure stored.operation
              else set_state host plugin_id id aborted stored.operation.error_code now)
            _
            (else-IsRefused w v (state_beq stored.operation.state aborted) (pure stored.operation)
              (set_state host plugin_id id aborted stored.operation.error_code now) (ground arith)
              (set_state-IsRefused stored.operation.error_code v same)))

  -- A finalized operation cannot be aborted: `abort` always fails, and leaves the operations and the
  -- directories, the installed one too, as they were.
  pub abort-IsRefused : IsRefused w (abort host plugin_id id now w)
  unfolding abort
  abort-IsRefused =
      subst (λ r. IsRefused w (resume (abort_found host plugin_id id now) r.0 r.1))
        (sym status-found) abort_found-IsRefused
