-- ===== src/Supervisor/Install/Composed/Building.antt =====
-- That a build takes only the steps of Supervisor/Install/Steps.
use audio_down_core.Base.{none, refl, Result, ok, err, if◌then◌else◌}
use audio_down_core.Base.Stateful.{◌>>◌}
use audio_down_core.Domain.PluginId.{PluginId}
use audio_down_core.Supervisor.Protocol.{Uuid, PluginInstallOperation, building}
use audio_down_core.Supervisor.Install.State.{
  InstallOperationError, Host, DateTime, BuildOutput, BuildAdapterError,
}
use audio_down_core.Supervisor.Install.Files.{attempt, write_candidate}
use audio_down_core.Supervisor.Install.Sections.{status, set_failed, set_state}
use audio_down_core.Supervisor.Install.Steps.{here, Simulates, Simulates-bind}
use audio_down_core.Supervisor.Install.Simulation.{
  set_built-Simulates, set_failed-Simulates, set_state-Simulates,
}
use audio_down_core.Supervisor.Install.Quiet.{write_candidate-IsQuiet}
use audio_down_core.Supervisor.Install.Lifecycle.{ignored, call_remove_image, call_cleanup}
use audio_down_core.Supervisor.Install.Lifecycle.Building.{
  error_code, still_building, call_build, attestation, stored_candidate, store_built, end_build,
  build_request, build_and_end, began_build, run_build,
}
use audio_down_core.Supervisor.Install.Composed.{
  Simulates-of_quiet, Simulates-if, Simulates-seq, Simulates-after, status-IsQuiet,
  call_remove_image-IsQuiet, call_cleanup-IsQuiet,
}

module _ (host : Host) where
  stored_candidate-Simulates :
      (plugin_id : PluginId) (id : Uuid) (output : BuildOutput) (now : DateTime)
      (written : Result (Unit {0}) InstallOperationError)
      → Simulates (stored_candidate host plugin_id id output now written)
  unfolding stored_candidate
  stored_candidate-Simulates plugin_id id output now (ok _) =
      set_built-Simulates host plugin_id id output.artifact output.build_logs now
  stored_candidate-Simulates plugin_id id output now (err cause) =
      Simulates-seq (ignored (call_remove_image host output.artifact.image_id))
        (ignored (set_failed host plugin_id id (error_code cause) output.build_logs now))
        (λ w.
          Simulates-of_quiet (call_remove_image host output.artifact.image_id)
            (call_remove_image-IsQuiet host output.artifact.image_id) w)
        (set_failed-Simulates host plugin_id id (error_code cause) output.build_logs now)

  store_built-Simulates :
      (plugin_id : PluginId) (id : Uuid) (output : BuildOutput) (now : DateTime)
      → Simulates (store_built host plugin_id id output now)
  unfolding store_built
  store_built-Simulates plugin_id id output now =
      Simulates-after
        (attempt (
          write_candidate host id
            (attestation host plugin_id id output.artifact output.base_image_digest output.sdk_hash)
            output.manifest))
        (stored_candidate host plugin_id id output now)
        (write_candidate-IsQuiet host id _ output.manifest)
        (stored_candidate-Simulates plugin_id id output now)

  end_build-Simulates :
      (plugin_id : PluginId) (id : Uuid) (now : DateTime) (r : Result BuildOutput BuildAdapterError)
      → Simulates (end_build host plugin_id id now r)
  unfolding end_build
  end_build-Simulates plugin_id id now (ok output) =
      Simulates-after (attempt (status plugin_id id))
        (λ current.
          if still_building current
          then store_built host plugin_id id output now
          else ignored (call_remove_image host output.artifact.image_id))
        (status-IsQuiet plugin_id id)
        (λ current.
          Simulates-if (still_building current) (store_built host plugin_id id output now)
            (ignored (call_remove_image host output.artifact.image_id))
            (store_built-Simulates plugin_id id output now)
            (λ w.
              Simulates-of_quiet (call_remove_image host output.artifact.image_id)
                (call_remove_image-IsQuiet host output.artifact.image_id) w))
  end_build-Simulates plugin_id id now (err cause) =
      set_failed-Simulates host plugin_id id cause.code cause.build_logs now

  build_and_end-Simulates :
      (plugin_id : PluginId) (id : Uuid) (ended : DateTime)
      → Simulates (build_and_end host plugin_id id ended)
  unfolding build_and_end
  build_and_end-Simulates plugin_id id ended =
      Simulates-after (call_build host (build_request host plugin_id id))
        (λ r. end_build host plugin_id id ended r >> ignored (call_cleanup host id)) (λ w. refl)
        (λ r.
          Simulates-seq (end_build host plugin_id id ended r) (ignored (call_cleanup host id))
            (end_build-Simulates plugin_id id ended r)
            (λ w. Simulates-of_quiet (call_cleanup host id) (call_cleanup-IsQuiet host id) w))

  began_build-Simulates :
      (plugin_id : PluginId) (id : Uuid) (ended : DateTime)
      (began : Result PluginInstallOperation InstallOperationError)
      → Simulates (began_build host plugin_id id ended began)
  unfolding began_build
  began_build-Simulates plugin_id id ended (ok _) = build_and_end-Simulates plugin_id id ended
  began_build-Simulates plugin_id id ended (err _) = λ w. here

  pub run_build-Simulates :
      (plugin_id : PluginId) (id : Uuid) (started ended : DateTime)
      → Simulates (run_build host plugin_id id started ended)
  unfolding run_build
  run_build-Simulates plugin_id id started ended =
      Simulates-bind (attempt (set_state host plugin_id id building none started))
        (began_build host plugin_id id ended)
        (set_state-Simulates host plugin_id id building none started)
        (began_build-Simulates plugin_id id ended)
