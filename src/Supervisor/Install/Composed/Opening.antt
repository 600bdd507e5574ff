-- ===== src/Supervisor/Install/Composed/Opening.antt =====
-- That a restart takes only the steps of Supervisor/Install/Steps.
use audio_down_core.Base.{List, [], ◌∷◌, map}
use audio_down_core.Base.Map.{values}
use audio_down_core.Base.Stateful.{pure}
use audio_down_core.Supervisor.Protocol.{
  PluginInstallOperation, PluginInstallOperationState, accepted, building, built, finalized, failed,
  aborted,
}
use audio_down_core.Supervisor.Install.State.{Host, DateTime, StoredOperation}
use audio_down_core.Supervisor.Install.Files.{remove_candidate_dir}
use audio_down_core.Supervisor.Install.Sections.{set_failed}
use audio_down_core.Supervisor.Install.Steps.{here, Simulates}
use audio_down_core.Supervisor.Install.Simulation.{set_failed-Simulates}
use audio_down_core.Supervisor.Install.Quiet.{IsQuiet, seq-IsQuiet, remove_candidate_dir-IsQuiet}
use audio_down_core.Supervisor.Install.Lifecycle.{call_cleanup, remove_artifact_image, finalize}
use audio_down_core.Supervisor.Install.Lifecycle.Opening.{
  restart_error_code, discard_files, discard_interrupted, reconcile_as, reconcile_all,
  reconcile_restart,
}
use audio_down_core.Supervisor.Install.Composed.{
  Simulates-of_quiet, Simulates-seq, call_cleanup-IsQuiet, remove_artifact_image-IsQuiet,
  finalize-Simulates,
}

module _ (host : Host) where
  pub discard_files-IsQuiet :
      (operation : PluginInstallOperation) → IsQuiet (discard_files host operation)
  unfolding discard_files
  discard_files-IsQuiet operation =
      seq-IsQuiet (remove_candidate_dir host operation.operation_id) _
        (remove_candidate_dir-IsQuiet host operation.operation_id)
        (seq-IsQuiet (remove_artifact_image host operation.artifact)
          (call_cleanup host operation.operation_id)
          (remove_artifact_image-IsQuiet host operation.artifact)
          (call_cleanup-IsQuiet host operation.operation_id))

  discard_interrupted-Simulates :
      (operation : PluginInstallOperation) (now : DateTime)
      → Simulates (discard_interrupted host operation now)
  unfolding discard_interrupted
  discard_interrupted-Simulates operation now =
      Simulates-seq
        (set_failed host operation.plugin_id operation.operation_id restart_error_code [] now) _
        (set_failed-Simulates host operation.plugin_id operation.operation_id restart_error_code []
          now)
        (Simulates-of_quiet (discard_files host operation) (discard_files-IsQuiet operation))

  pub reconcile_as-Simulates :
      (operation : PluginInstallOperation) (now : DateTime) (state : PluginInstallOperationState)
      → Simulates (reconcile_as host operation now state)
  unfolding reconcile_as
  reconcile_as-Simulates operation now accepted = discard_interrupted-Simulates operation now
  reconcile_as-Simulates operation now building = discard_interrupted-Simulates operation now
  reconcile_as-Simulates operation now finalized =
      Simulates-seq (finalize host operation.plugin_id operation.operation_id now) (pure tt)
        (finalize-Simulates host operation.plugin_id operation.operation_id now) (λ w. here)
  reconcile_as-Simulates operation now built = λ w. here
  reconcile_as-Simulates operation now failed = λ w. here
  reconcile_as-Simulates operation now aborted = λ w. here

  pub reconcile_all-Simulates :
      (operations : List PluginInstallOperation) (now : DateTime)
      → Simulates (reconcile_all host operations now)
  unfolding reconcile_all
  reconcile_all-Simulates [] now = λ w. here
  reconcile_all-Simulates (operation ∷ rest) now =
      Simulates-seq (reconcile_as host operation now operation.state) (reconcile_all host rest now)
        (reconcile_as-Simulates operation now operation.state) (reconcile_all-Simulates rest now)

  pub reconcile_restart-Simulates : (now : DateTime) → Simulates (reconcile_restart host now)
  unfolding reconcile_restart
  reconcile_restart-Simulates now w =
      reconcile_all-Simulates
        (map (λ (stored : StoredOperation). stored.operation) (values w.memory.operations)) now w
