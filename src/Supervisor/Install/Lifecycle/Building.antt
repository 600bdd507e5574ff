-- ===== src/Supervisor/Install/Lifecycle/Building.antt =====
-- install_operation.rs: `run_build`.
use audio_down_core.Base.{Bool, false, none, if◌then◌else◌, Result, ok, err, ◌*◌}
use audio_down_core.Base.Stateful.{pure, ◌>>=◌, ◌>>◌}
use audio_down_core.Base.Text.{Text, text}
use audio_down_core.Domain.PluginId.{PluginId}
use audio_down_core.Supervisor.Protocol.{
  Uuid, PluginInstallOperation, PluginInstallArtifact, building, state_beq,
}
use audio_down_core.Supervisor.Install.State.{
  InstallOperationError, installed_attestation_mismatch, candidate_already_exists, Host, DateTime,
  BuildRequest, BuildOutput, BuildAdapterError, InstallAttestation, on_demand, build,
}
use audio_down_core.Supervisor.Install.Files.{Action, write_candidate, attempt}
use audio_down_core.Supervisor.Install.Sections.{status, set_built, set_failed, set_state}
use audio_down_core.Supervisor.Install.Lifecycle.{ignored, called, call_remove_image, call_cleanup}

-- `InstallOperationError::error_code`.
abbrev pub error_code : InstallOperationError → Text
error_code candidate_already_exists = text "CANDIDATE_ALREADY_EXISTS"
error_code installed_attestation_mismatch = text "INSTALL_ATTESTATION_MISMATCH"
error_code _ = text "BUILD_STATE_FAILED"

-- `run_build`, the times at its writes given. A build that was aborted meanwhile is thrown away.
abbrev pub still_building : Result PluginInstallOperation InstallOperationError → Bool
still_building (ok operation) = state_beq operation.state building
still_building (err cause) = false

module _ (host : Host) where
  abbrev pub call_build : BuildRequest → Action (Result BuildOutput BuildAdapterError)
  call_build request w = (ok (host.building w.adapter_calls request), called (build request) w)

  -- `attestation`.
  abbrev pub attestation :
      PluginId → Uuid → PluginInstallArtifact → Text → Text → InstallAttestation
  attestation plugin_id id artifact base_image_digest sdk_hash = record {
    installation_id = host.installation_id;
    operation_id = id;
    plugin_id = plugin_id;
    image_id = artifact.image_id;
    source_kind = text "github_public_repository";
    repository_id = artifact.repository_id;
    commit_sha = artifact.commit_sha;
    source_hash = artifact.source_hash;
    manifest_hash = artifact.manifest_hash;
    base_image_digest = base_image_digest;
    sdk_hash = sdk_hash;
    memory_bytes = 128 * 1024 * 1024;
    nano_cpus = 500000000;
    pids_limit = 64;
    run_mode = on_demand;
  }

  unfoldable pub stored_candidate :
      PluginId
      → Uuid
      → BuildOutput
      → DateTime
      → Result (Unit {0}) InstallOperationError
      → Action (Unit {0})
  unfolding set_built set_failed
  stored_candidate plugin_id id output now (ok _) =
      ignored (set_built host plugin_id id output.artifact output.build_logs now)
  stored_candidate plugin_id id output now (err cause) = do
    ignored (call_remove_image host output.artifact.image_id)
    ignored (set_failed host plugin_id id (error_code cause) output.build_logs now)

  unfoldable pub store_built : PluginId → Uuid → BuildOutput → DateTime → Action (Unit {0})
  unfolding write_candidate stored_candidate
  store_built plugin_id id output now = do
    written ← attempt (
        write_candidate host id
          (attestation plugin_id id output.artifact output.base_image_digest output.sdk_hash)
          output.manifest)
    stored_candidate plugin_id id output now written

  unfoldable pub end_build :
      PluginId → Uuid → DateTime → Result BuildOutput BuildAdapterError → Action (Unit {0})
  unfolding status store_built set_failed
  end_build plugin_id id now (ok output) = do
    current ← attempt (status plugin_id id)
    if still_building current
        then store_built plugin_id id output now
        else ignored (call_remove_image host output.artifact.image_id)
  end_build plugin_id id now (err cause) =
      ignored (set_failed host plugin_id id cause.code cause.build_logs now)

  abbrev pub build_request : PluginId → Uuid → BuildRequest
  build_request plugin_id id = record {
    installation_id = host.installation_id;
    operation_id = id;
    plugin_id = plugin_id;
  }

  unfoldable pub build_and_end : PluginId → Uuid → DateTime → Action (Unit {0})
  unfolding end_build
  build_and_end plugin_id id ended = do
    result ← call_build (build_request plugin_id id)
    end_build plugin_id id ended result
    ignored (call_cleanup host id)

  unfoldable pub began_build :
      PluginId
      → Uuid
      → DateTime
      → Result PluginInstallOperation InstallOperationError
      → Action (Unit {0})
  unfolding build_and_end
  began_build plugin_id id ended (ok _) = build_and_end plugin_id id ended
  began_build plugin_id id ended (err _) = pure tt

  unfoldable pub run_build : PluginId → Uuid → DateTime → DateTime → Action (Unit {0})
  unfolding set_state began_build
  run_build plugin_id id started ended = do
    began ← attempt (set_state host plugin_id id building none started)
    began_build plugin_id id ended began
