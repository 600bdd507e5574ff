-- ===== src/Supervisor/Install/Composed.antt =====
-- That what install_operation.rs composes of its critical sections takes only the steps of Supervisor/Install/Steps.
pub mod Building
pub mod Opening
use audio_down_core.Base.{
  Bool, true, false, Option, none, some, List, [], ◌∷◌, refl, sym, Result, ok, err, if◌then◌else◌,
  map, ap, inl, inr,
}
use audio_down_core.Base.Map.{values}
use audio_down_core.Base.Stateful.{pure, ◌>>=◌, ◌>>◌}
use audio_down_core.Base.Text.{Text}
use audio_down_core.Domain.PluginId.{PluginId}
use audio_down_core.Supervisor.Protocol.{
  Uuid, PluginInstallOperation, PluginInstallOperationState, PluginInstallArtifact, accepted,
  building, built, finalized, failed, aborted, state_beq,
}
use audio_down_core.Supervisor.Install.State.{
  InstallOperationError, invalid_transition, Host, DateTime, InstallAttestation, BuildOutput,
  BuildAdapterError, StoredOperation, OperationState,
}
use audio_down_core.Supervisor.Install.Files.{
  Action, access, exists, attempt, remove_candidate_dir, remove_installed_dir, installed_dir,
  candidate_dir, verify_attestation, attestation_from_directory, write_candidate, remove_mirrors,
}
use audio_down_core.Supervisor.Install.Sections.{matching_operation, status, set_failed, set_state}
use audio_down_core.Supervisor.Install.Steps.{
  here, Steps-of_eq, IsPreorder, Follows, Follows-bind, Follows-after, Steps-IsPreorder, Simulates,
  Simulates-bind, access-memory, matching_operation-cases,
}
use audio_down_core.Supervisor.Install.Simulation.{
  set_built-Simulates, set_failed-Simulates, set_state-Simulates,
}
use audio_down_core.Supervisor.Install.Quiet.{
  IsQuiet, bind-IsQuiet, seq-IsQuiet, if-IsQuiet, exists-IsQuiet, remove_candidate_dir-IsQuiet,
  remove_installed_dir-IsQuiet, verify_attestation-IsQuiet, attestation_from_directory-IsQuiet,
  write_candidate-IsQuiet, remove_mirrors-IsQuiet,
}
use audio_down_core.Supervisor.Install.Lifecycle.{
  required, adapted, ignored, called, move_directory, call_remove_image, call_cleanup,
  remove_artifact_image, install_candidate, recheck_installed, finalize_built, finalize_again,
  finalize_from, finalize, check_installed, remove_installed, clear_aborted, abort_found, abort,
}

module _ {A : Type 0} where
  pub Simulates-of_quiet : (m : Action A) → IsQuiet m → Simulates m
  Simulates-of_quiet m h w = Steps-of_eq (sym (h w))

  pub Follows-of_quiet :
      {R : OperationState → OperationState → Type 0} (order : IsPreorder R) (m : Action A)
      → IsQuiet m
      → Follows R m
  Follows-of_quiet order m h w = order.of_eq (sym (h w))

  pub Simulates-if :
      (b : Bool) (m k : Action A) → Simulates m → Simulates k → Simulates (if b then m else k)
  Simulates-if true m k hm hk = hm
  Simulates-if false m k hm hk = hk

  pub required-IsQuiet : (o : Option A) (cause : InstallOperationError) → IsQuiet (required o cause)
  required-IsQuiet none cause w = refl
  required-IsQuiet (some a) cause w = refl

  adapted-IsQuiet : (r : Result A BuildAdapterError) → IsQuiet (adapted r)
  adapted-IsQuiet (ok a) w = refl
  adapted-IsQuiet (err e) w = refl

module _ {A B : Type 0} where
  pub Simulates-seq : (m : Action A) (k : Action B) → Simulates m → Simulates k → Simulates (m >> k)
  Simulates-seq m k hm hk = Simulates-bind m (λ _. k) hm (λ _. hk)

  -- A method that only reads, or writes files, and then another.
  pub Simulates-after :
      (m : Action A) (f : A → Action B)
      → IsQuiet m
      → ((a : A) → Simulates (f a))
      → Simulates (m >>= f)
  Simulates-after m f hm hf = Simulates-bind m f (Simulates-of_quiet m hm) hf

pub matching_operation-IsQuiet :
    (plugin_id : PluginId) (id : Uuid) → IsQuiet (matching_operation plugin_id id)
matching_operation-IsQuiet plugin_id id w = elim (matching_operation-cases plugin_id id w) [
  | inl (stored, e, mine, found) ↦ ap (λ r. r.1.memory) found
  | inr missing ↦ ap (λ r. r.1.memory) missing
]

pub status-IsQuiet : (plugin_id : PluginId) (id : Uuid) → IsQuiet (status plugin_id id)
unfolding status
status-IsQuiet plugin_id id =
    bind-IsQuiet (matching_operation plugin_id id) _ (matching_operation-IsQuiet plugin_id id)
      (λ stored w. refl)

module _ (host : Host) where
  pub call_remove_image-IsQuiet : (image : Text) → IsQuiet (call_remove_image host image)
  call_remove_image-IsQuiet image w = adapted-IsQuiet (host.removing w.adapter_calls image) _

  pub call_cleanup-IsQuiet : (id : Uuid) → IsQuiet (call_cleanup host id)
  call_cleanup-IsQuiet id w = adapted-IsQuiet (host.cleaning w.adapter_calls id) _

  pub remove_artifact_image-IsQuiet :
      (artifact : Option PluginInstallArtifact) → IsQuiet (remove_artifact_image host artifact)
  remove_artifact_image-IsQuiet none w = refl
  remove_artifact_image-IsQuiet (some artifact) w = call_remove_image-IsQuiet artifact.image_id w

  pub install_candidate-IsQuiet :
      (plugin_id : PluginId) (id : Uuid) (expected : InstallAttestation)
      → IsQuiet (install_candidate host plugin_id id expected)
  unfolding install_candidate
  install_candidate-IsQuiet plugin_id id expected =
      let step : IsQuiet (access host (λ d. d) (λ d. d)) = access-memory host (λ d. d) (λ d. d) in
      seq-IsQuiet (verify_attestation host (candidate_dir id) expected) _
        (verify_attestation-IsQuiet host (candidate_dir id) expected)
        (seq-IsQuiet (access host (λ d. d) (λ d. d)) _ step (
          seq-IsQuiet
            (access host (λ d. move_directory plugin_id id (candidate_dir id d) d) (λ d. d))
            (access host (λ d. d) (λ d. d))
            (access-memory host (λ d. move_directory plugin_id id (candidate_dir id d) d) (λ d. d))
            step))

  pub recheck_installed-IsQuiet :
      (plugin_id : PluginId) (id : Uuid) (expected : InstallAttestation)
      → IsQuiet (recheck_installed host plugin_id id expected)
  unfolding recheck_installed
  recheck_installed-IsQuiet plugin_id id expected =
      seq-IsQuiet (verify_attestation host (installed_dir plugin_id) expected) _
        (verify_attestation-IsQuiet host (installed_dir plugin_id) expected)
        (bind-IsQuiet (exists host (candidate_dir id)) _ (exists-IsQuiet host (candidate_dir id))
          (λ left_over w. refl))

  pub finalize_again-IsQuiet :
      (plugin_id : PluginId) (id : Uuid) (expected : InstallAttestation)
      (operation : PluginInstallOperation)
      → IsQuiet (finalize_again host plugin_id id expected operation)
  unfolding finalize_again
  finalize_again-IsQuiet plugin_id id expected operation =
      seq-IsQuiet (verify_attestation host (installed_dir plugin_id) expected) _
        (verify_attestation-IsQuiet host (installed_dir plugin_id) expected)
        (seq-IsQuiet (remove_mirrors host id) (pure operation) (remove_mirrors-IsQuiet host id)
          (λ w. refl))

  -- Whatever relation a state's change to Finalized respects, `finalize` does.
  module _ {R : OperationState → OperationState → Type 0} (order : IsPreorder R)
      (ends : (plugin_id : PluginId) (id : Uuid) (now : DateTime)
        → Follows R (set_state host plugin_id id finalized none now)) where
    pub finalize_built-Follows :
        (plugin_id : PluginId) (id : Uuid) (expected : InstallAttestation) (now : DateTime)
        → Follows R (finalize_built host plugin_id id expected now)
    unfolding finalize_built
    finalize_built-Follows plugin_id id expected now =
        Follows-after order (exists host (installed_dir plugin_id)) _
          (exists-IsQuiet host (installed_dir plugin_id))
          (λ installed.
            Follows-after order
              (if installed
                then recheck_installed host plugin_id id expected
                else install_candidate host plugin_id id expected)
              _
              (if-IsQuiet installed (recheck_installed host plugin_id id expected)
                (install_candidate host plugin_id id expected)
                (recheck_installed-IsQuiet plugin_id id expected)
                (install_candidate-IsQuiet plugin_id id expected))
              (λ _.
                Follows-bind order (set_state host plugin_id id finalized none now) _
                  (ends plugin_id id now)
                  (λ result. Follows-of_quiet order (remove_mirrors host id >> pure result) (
                    seq-IsQuiet (remove_mirrors host id) (pure result)
                      (remove_mirrors-IsQuiet host id) (λ w. refl)))))

    pub finalize_from-Follows :
        (plugin_id : PluginId) (id : Uuid) (expected : InstallAttestation) (now : DateTime)
        (operation : PluginInstallOperation) (state : PluginInstallOperationState)
        → Follows R (finalize_from host plugin_id id expected now operation state)
    unfolding finalize_from
    finalize_from-Follows plugin_id id expected now operation finalized =
        Follows-of_quiet order (finalize_again host plugin_id id expected operation)
          (finalize_again-IsQuiet plugin_id id expected operation)
    finalize_from-Follows plugin_id id expected now operation built =
        finalize_built-Follows plugin_id id expected now
    finalize_from-Follows plugin_id id expected now operation accepted = λ w. order.of_eq refl
    finalize_from-Follows plugin_id id expected now operation building = λ w. order.of_eq refl
    finalize_from-Follows plugin_id id expected now operation failed = λ w. order.of_eq refl
    finalize_from-Follows plugin_id id expected now operation aborted = λ w. order.of_eq refl

    pub finalize-Follows :
        (plugin_id : PluginId) (id : Uuid) (now : DateTime)
        → Follows R (finalize host plugin_id id now)
    unfolding finalize
    finalize-Follows plugin_id id now =
        Follows-after order (status plugin_id id) _ (status-IsQuiet plugin_id id) (λ operation.
          Follows-after order (required operation.artifact invalid_transition) _
            (required-IsQuiet operation.artifact invalid_transition)
            (λ artifact.
              Follows-after order (exists host (installed_dir plugin_id)) _
                (exists-IsQuiet host (installed_dir plugin_id))
                (λ installed.
                  Follows-after order
                    (attestation_from_directory host
                      (if installed then installed_dir plugin_id else candidate_dir id) plugin_id id
                      artifact)
                    _
                    (attestation_from_directory-IsQuiet host
                      (if installed then installed_dir plugin_id else candidate_dir id) plugin_id id
                      artifact)
                    (λ expected.
                      finalize_from-Follows plugin_id id expected now operation operation.state))))

  pub finalize-Simulates :
      (plugin_id : PluginId) (id : Uuid) (now : DateTime)
      → Simulates (finalize host plugin_id id now)
  finalize-Simulates =
      finalize-Follows Steps-IsPreorder
        (λ plugin_id id now. set_state-Simulates host plugin_id id finalized none now)

  pub check_installed-IsQuiet :
      (plugin_id : PluginId) (id : Uuid) (operation : PluginInstallOperation)
      → IsQuiet (check_installed host plugin_id id operation)
  unfolding check_installed
  check_installed-IsQuiet plugin_id id operation =
      bind-IsQuiet (required operation.artifact invalid_transition) _
        (required-IsQuiet operation.artifact invalid_transition)
        (λ artifact.
          bind-IsQuiet
            (attestation_from_directory host (installed_dir plugin_id) plugin_id id artifact) _
            (attestation_from_directory-IsQuiet host (installed_dir plugin_id) plugin_id id
              artifact)
            (λ expected. verify_attestation-IsQuiet host (installed_dir plugin_id) expected))

  remove_checked-IsQuiet :
      (plugin_id : PluginId) (id : Uuid) (operation : PluginInstallOperation)
      → IsQuiet (check_installed host plugin_id id operation >> remove_installed_dir host plugin_id)
  remove_checked-IsQuiet plugin_id id operation =
      seq-IsQuiet (check_installed host plugin_id id operation)
        (remove_installed_dir host plugin_id) (check_installed-IsQuiet plugin_id id operation)
        (remove_installed_dir-IsQuiet host plugin_id)

  remove_installed-IsQuiet :
      (plugin_id : PluginId) (id : Uuid) (operation : PluginInstallOperation)
      → IsQuiet (remove_installed host plugin_id id operation)
  unfolding remove_installed
  remove_installed-IsQuiet plugin_id id operation =
      bind-IsQuiet (exists host (installed_dir plugin_id)) _
        (exists-IsQuiet host (installed_dir plugin_id))
        (λ present.
          if-IsQuiet present
            (check_installed host plugin_id id operation >> remove_installed_dir host plugin_id)
            (pure tt) (remove_checked-IsQuiet plugin_id id operation) (λ w. refl))

  -- What follows on the state's change in `abort`.
  pub clear_aborted-IsQuiet :
      (plugin_id : PluginId) (id : Uuid) (operation result : PluginInstallOperation)
      → IsQuiet (clear_aborted host plugin_id id operation result)
  unfolding clear_aborted
  clear_aborted-IsQuiet plugin_id id operation result =
      seq-IsQuiet (remove_candidate_dir host id) _ (remove_candidate_dir-IsQuiet host id) (
        seq-IsQuiet
          (if state_beq operation.state finalized
            then remove_installed host plugin_id id operation
            else pure tt)
          _
          (if-IsQuiet (state_beq operation.state finalized)
            (remove_installed host plugin_id id operation) (pure tt)
            (remove_installed-IsQuiet plugin_id id operation) (λ w. refl))
          (seq-IsQuiet (remove_mirrors host id) _ (remove_mirrors-IsQuiet host id) (
            seq-IsQuiet (remove_artifact_image host operation.artifact) _
              (remove_artifact_image-IsQuiet operation.artifact)
              (seq-IsQuiet (call_cleanup host id) (pure result) (call_cleanup-IsQuiet id)
                (λ w. refl)))))

  abort_found-Simulates :
      (plugin_id : PluginId) (id : Uuid) (now : DateTime) (operation : PluginInstallOperation)
      → Simulates (abort_found host plugin_id id now operation)
  unfolding abort_found
  abort_found-Simulates plugin_id id now operation =
      Simulates-after
        (if state_beq operation.state finalized
          then check_installed host plugin_id id operation
          else pure tt)
        _
        (if-IsQuiet (state_beq operation.state finalized)
          (check_installed host plugin_id id operation) (pure tt)
          (check_installed-IsQuiet plugin_id id operation) (λ w. refl))
        (λ _.
          Simulates-bind
            (if state_beq operation.state aborted
              then pure operation
              else set_state host plugin_id id aborted operation.error_code now)
            _
            (Simulates-if (state_beq operation.state aborted) (pure operation)
              (set_state host plugin_id id aborted operation.error_code now) (λ w. here)
              (set_state-Simulates host plugin_id id aborted operation.error_code now))
            (λ result.
              Simulates-of_quiet (clear_aborted host plugin_id id operation result)
                (clear_aborted-IsQuiet plugin_id id operation result)))

  pub abort-Simulates :
      (plugin_id : PluginId) (id : Uuid) (now : DateTime) → Simulates (abort host plugin_id id now)
  unfolding abort
  abort-Simulates plugin_id id now =
      Simulates-after (status plugin_id id) _ (status-IsQuiet plugin_id id)
        (abort_found-Simulates plugin_id id now)
