-- ===== src/Supervisor/Install/Interleaving.antt =====
-- Whatever runs at once: the lock of install_operation.rs makes each critical section one step, and
-- between two of them of one caller those of others run, and the disk changes.
use audio_down_core.Base.{Option, List, [], ◌∷◌}
use audio_down_core.Base.Text.{Text}
use audio_down_core.Domain.PluginId.{PluginId}
use audio_down_core.Supervisor.Protocol.{
  Uuid, PluginInstallOperationState, PluginInstallArtifact, PluginBuildLog,
}
use audio_down_core.Supervisor.Install.State.{World, Host, Disk, DateTime}
use audio_down_core.Supervisor.Install.Sections.{
  begin, set_built, set_failed, set_state, acknowledge, remove_expired,
}
use audio_down_core.Supervisor.Install.Lifecycle.{finalize, abort}
use audio_down_core.Supervisor.Install.Lifecycle.Building.{run_build}
use audio_down_core.Supervisor.Install.Lifecycle.Opening.{reconcile_restart}
use audio_down_core.Supervisor.Install.Steps.{Steps, here, Steps-trans}
use audio_down_core.Supervisor.Install.Simulation.{
  begin-Simulates, set_built-Simulates, set_failed-Simulates, set_state-Simulates,
  acknowledge-Simulates, remove_expired-Simulates,
}
use audio_down_core.Supervisor.Install.Composed.{finalize-Simulates, abort-Simulates}
use audio_down_core.Supervisor.Install.Composed.Building.{run_build-Simulates}
use audio_down_core.Supervisor.Install.Composed.Opening.{reconcile_restart-Simulates}
use audio_down_core.Supervisor.Install.Bounds.{IsSound, Steps-IsSound}

-- A critical section with its arguments, a whole operation that nothing interrupts, or a change of
-- the directories and of the adapter outside of the lock.
pub data Section : Type 0 where
  beginning : PluginId → Uuid → DateTime → Section
  setting_built : PluginId → Uuid → PluginInstallArtifact → List PluginBuildLog → DateTime → Section
  setting_failed : PluginId → Uuid → Text → List PluginBuildLog → DateTime → Section
  setting_state : PluginId → Uuid → PluginInstallOperationState → Option Text → DateTime → Section
  acknowledging : PluginId → Uuid → DateTime → Section
  removing_expired : List Uuid → Section
  finalizing : PluginId → Uuid → DateTime → Section
  aborting : PluginId → Uuid → DateTime → Section
  running_build : PluginId → Uuid → DateTime → DateTime → Section
  reconciling : DateTime → Section
  elsewhere : (Disk → Disk) → Section

module _ (host : Host) where
  unfoldable pub perform : Section → World → World
  perform (beginning plugin_id id now) w = (begin host plugin_id id now w).1
  perform (setting_built plugin_id id artifact logs now) w =
      (set_built host plugin_id id artifact logs now w).1
  perform (setting_failed plugin_id id code logs now) w =
      (set_failed host plugin_id id code logs now w).1
  perform (setting_state plugin_id id target code now) w =
      (set_state host plugin_id id target code now w).1
  perform (acknowledging plugin_id id now) w = (acknowledge host plugin_id id now w).1
  perform (removing_expired ids) w = (remove_expired host ids w).1
  perform (finalizing plugin_id id now) w = (finalize host plugin_id id now w).1
  perform (aborting plugin_id id now) w = (abort host plugin_id id now w).1
  perform (running_build plugin_id id started ended) w =
      (run_build host plugin_id id started ended w).1
  perform (reconciling now) w = (reconcile_restart host now w).1
  perform (elsewhere f) w = record w { disk = f w.disk }

  unfoldable pub perform_all : List Section → World → World
  unfolding perform
  perform_all [] w = w
  perform_all (section ∷ rest) w = perform_all rest (perform section w)

  pub perform-Steps : (section : Section) (w : World) → Steps w.memory (perform section w).memory
  unfolding perform
  perform-Steps (beginning plugin_id id now) w = begin-Simulates host plugin_id id now w
  perform-Steps (setting_built plugin_id id artifact logs now) w =
      set_built-Simulates host plugin_id id artifact logs now w
  perform-Steps (setting_failed plugin_id id code logs now) w =
      set_failed-Simulates host plugin_id id code logs now w
  perform-Steps (setting_state plugin_id id target code now) w =
      set_state-Simulates host plugin_id id target code now w
  perform-Steps (acknowledging plugin_id id now) w = acknowledge-Simulates host plugin_id id now w
  perform-Steps (removing_expired ids) w = remove_expired-Simulates host ids w
  perform-Steps (finalizing plugin_id id now) w = finalize-Simulates host plugin_id id now w
  perform-Steps (aborting plugin_id id now) w = abort-Simulates host plugin_id id now w
  perform-Steps (running_build plugin_id id started ended) w =
      run_build-Simulates host plugin_id id started ended w
  perform-Steps (reconciling now) w = reconcile_restart-Simulates host now w
  perform-Steps (elsewhere f) w = here

  -- Any sequence of critical sections, of whatever callers and with whatever failures of the disk
  -- and of the adapter, changes the operations in memory by a sequence of steps only.
  pub perform_all-Steps :
      (sections : List Section) (w : World) → Steps w.memory (perform_all sections w).memory
  unfolding perform_all
  perform_all-Steps [] w = here
  perform_all-Steps (section ∷ rest) w =
      Steps-trans (perform-Steps section w) (perform_all-Steps rest (perform section w))

  -- However the callers interleave, and whatever fails, at most one operation is on its way, at most
  -- 256 wait for their acknowledgement, and only what has ended is acknowledged, if that held before.
  pub perform_all-IsSound :
      (sections : List Section) (w : World)
      → IsSound w.memory
      → IsSound (perform_all sections w).memory
  perform_all-IsSound sections w =
      Steps-IsSound w.memory (perform_all sections w).memory (perform_all-Steps sections w)
