-- ===== src/Supervisor/Install/Lifecycle.antt =====
-- What install_operation.rs composes of the critical sections and the accesses to the disk: the end of
-- an operation, and in the children a build and the opening of the manager.
pub mod Building
pub mod Opening
use audio_down_core.Base.{
  ℕ, Bool, true, false, not, Option, none, some, List, [], ◌∷◌, map, if◌then◌else◌, Result, ok, err,
  ◌*◌, ltb,
}
use Prim.Native.Nat.{compare}
use audio_down_core.Base.Map.{Map, get, insert, values}
use audio_down_core.Base.Sort.{sort_by}
use audio_down_core.Base.Stateful.{pure, fail, gets, modify, fail_when, ◌>>=◌, ◌>>◌}
use audio_down_core.Base.Text.{Text, text}
use audio_down_core.Domain.PluginId.{PluginId}
use audio_down_core.Supervisor.Protocol.{
  Uuid, PluginInstallOperation, PluginInstallOperationState, PluginInstallArtifact, accepted,
  building, built, finalized, aborted, state_beq,
}
use audio_down_core.Supervisor.Install.State.{
  StoredOperation, InstallOperationError, invalid_transition, installed_attestation_mismatch,
  candidate_already_exists, json, adapter, io, World, Host, DateTime, OperationState, Bytes,
  Directory, Disk, BuildRequest, BuildOutput, BuildAdapterError, InstallAttestation, on_demand,
  saturating_succ, AdapterCall, build, remove_image, cleanup_temporary_resources, plugin_id_cmp,
}
use audio_down_core.Supervisor.Install.Files.{
  Action, access, read, exists, remove_candidate_dir, remove_installed_dir, installed_dir,
  candidate_dir, verify_attestation, attestation_from_directory, write_candidate, remove_mirrors,
  attempt,
}
use audio_down_core.Supervisor.Install.Sections.{
  status, set_built, set_failed, set_state, cleanup_acknowledged, by_sequence,
}

-- `Option::ok_or` and `?` on the adapter's results, and `let _ =` on any.
abbrev pub required : {A : Type 0} → Option A → InstallOperationError → Action A
required none cause = fail cause
required (some a) cause = pure a

abbrev pub adapted : {A : Type 0} → Result A BuildAdapterError → Action A
adapted (ok a) = pure a
adapted (err cause) = fail (adapter cause)

abbrev pub ignored : {A : Type 0} → Action A → Action (Unit {0})
ignored m w = (ok tt, (m w).1)

-- A call of the adapter is recorded, and may be answered by all the calls before it.
abbrev pub called : AdapterCall → World → World
called call w = record w { adapter_calls = call ∷ w.adapter_calls }

-- The move of a verified candidate to its place: the renaming, and the syncing of the parent.
abbrev pub move_directory : PluginId → Uuid → Option Directory → Disk → Disk
move_directory plugin_id id none d = d
move_directory plugin_id id (some directory) d = record d {
  installed = insert plugin_id_cmp plugin_id directory d.installed;
  candidates = audio_down_core.Base.Map.remove compare id d.candidates;
}

module _ (host : Host) where
  abbrev pub call_remove_image : Text → Action (Unit {0})
  call_remove_image image w =
      adapted (host.removing w.adapter_calls image) (called (remove_image image) w)

  abbrev pub call_cleanup : Uuid → Action (Unit {0})
  call_cleanup id w =
      adapted (host.cleaning w.adapter_calls id) (called (cleanup_temporary_resources id) w)

  abbrev pub remove_artifact_image : Option PluginInstallArtifact → Action (Unit {0})
  remove_artifact_image none = pure tt
  remove_artifact_image (some artifact) = call_remove_image artifact.image_id

  unfoldable pub install_candidate : PluginId → Uuid → InstallAttestation → Action (Unit {0})
  unfolding verify_attestation access
  install_candidate plugin_id id expected = do
    verify_attestation host (candidate_dir id) expected
    access host (λ d. d) (λ d. d)
    access host (λ d. move_directory plugin_id id (candidate_dir id d) d) (λ d. d)
    access host (λ d. d) (λ d. d)

  -- An installed directory from an earlier attempt has to be this operation's, without a candidate.
  unfoldable pub recheck_installed : PluginId → Uuid → InstallAttestation → Action (Unit {0})
  unfolding verify_attestation exists
  recheck_installed plugin_id id expected = do
    verify_attestation host (installed_dir plugin_id) expected
    left_over ← exists host (candidate_dir id)
    fail_when left_over installed_attestation_mismatch

  unfoldable pub finalize_built :
      PluginId → Uuid → InstallAttestation → DateTime → Action PluginInstallOperation
  unfolding recheck_installed install_candidate remove_mirrors set_state exists
  finalize_built plugin_id id expected now = do
    installed ← exists host (installed_dir plugin_id)
    if installed
        then recheck_installed plugin_id id expected
        else install_candidate plugin_id id expected
    done ← set_state host plugin_id id finalized none now
    remove_mirrors host id
    pure done

  unfoldable pub finalize_again :
      PluginId → Uuid → InstallAttestation → PluginInstallOperation → Action PluginInstallOperation
  unfolding verify_attestation remove_mirrors
  finalize_again plugin_id id expected operation = do
    verify_attestation host (installed_dir plugin_id) expected
    remove_mirrors host id
    pure operation

  unfoldable pub finalize_from :
      PluginId
      → Uuid
      → InstallAttestation
      → DateTime
      → PluginInstallOperation
      → PluginInstallOperationState
      → Action PluginInstallOperation
  unfolding finalize_again finalize_built
  finalize_from plugin_id id expected now operation finalized =
      finalize_again plugin_id id expected operation
  finalize_from plugin_id id expected now operation built = finalize_built plugin_id id expected now
  finalize_from plugin_id id expected now operation _ = fail invalid_transition

  unfoldable pub finalize : PluginId → Uuid → DateTime → Action PluginInstallOperation
  unfolding status attestation_from_directory finalize_from exists
  finalize plugin_id id now = do
    operation ← status plugin_id id
    artifact ← required operation.artifact invalid_transition
    installed ← exists host (installed_dir plugin_id)
    expected ←
        attestation_from_directory host
          (if installed then installed_dir plugin_id else candidate_dir id) plugin_id id artifact
    finalize_from plugin_id id expected now operation operation.state

  -- The attestation of an operation's installed directory, checked.
  unfoldable pub check_installed : PluginId → Uuid → PluginInstallOperation → Action (Unit {0})
  unfolding attestation_from_directory verify_attestation
  check_installed plugin_id id operation = do
    artifact ← required operation.artifact invalid_transition
    expected ← attestation_from_directory host (installed_dir plugin_id) plugin_id id artifact
    verify_attestation host (installed_dir plugin_id) expected

  unfoldable pub remove_installed : PluginId → Uuid → PluginInstallOperation → Action (Unit {0})
  unfolding check_installed exists remove_installed_dir
  remove_installed plugin_id id operation = do
    present ← exists host (installed_dir plugin_id)
    if present
        then (do check_installed plugin_id id operation; remove_installed_dir host plugin_id)
        else pure tt

  unfoldable pub clear_aborted :
      PluginId
      → Uuid
      → PluginInstallOperation
      → PluginInstallOperation
      → Action PluginInstallOperation
  unfolding remove_candidate_dir remove_installed remove_mirrors
  clear_aborted plugin_id id operation result = do
    remove_candidate_dir host id
    if state_beq operation.state finalized then remove_installed plugin_id id operation else pure tt
    remove_mirrors host id
    remove_artifact_image operation.artifact
    call_cleanup id
    pure result

  unfoldable pub abort_found :
      PluginId → Uuid → DateTime → PluginInstallOperation → Action PluginInstallOperation
  unfolding check_installed set_state clear_aborted
  abort_found plugin_id id now operation = do
    if state_beq operation.state finalized then check_installed plugin_id id operation else pure tt
    result ←
        if state_beq operation.state aborted
        then pure operation
        else set_state host plugin_id id aborted operation.error_code now
    clear_aborted plugin_id id operation result

  unfoldable pub abort : PluginId → Uuid → DateTime → Action PluginInstallOperation
  unfolding status abort_found
  abort plugin_id id now = do
    operation ← status plugin_id id
    abort_found plugin_id id now operation
