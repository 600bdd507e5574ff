-- ===== src/Supervisor/Install/Simulation.antt =====
-- That each critical section of install_operation.rs takes only the steps of Supervisor/Install/Steps.
use audio_down_core.Base.{
  ◌<◌, false, not, ◌&&◌, Option, none, List, [], ◌∷◌, ◌≡◌, refl, sym, ◌∙◌, subst, any, leb, Result,
  arith, inl, inr, Option-cases, ap, ◌==◌,
}
use Prim.Native.Nat.{compare}
use audio_down_core.Base.Map.{get, values, count}
use audio_down_core.Base.Stateful.{modify, ◌>>◌}
use audio_down_core.Base.Text.{Text}
use audio_down_core.Domain.PluginId.{PluginId, plugin_id_eq}
use audio_down_core.Supervisor.Protocol.{
  Uuid, PluginInstallOperation, PluginInstallOperationState, accepted, building, built, finalized,
  failed, aborted, is_terminal, state_beq, PluginInstallArtifact, PluginBuildLog,
}
use audio_down_core.Supervisor.Install.State.{
  StoredOperation, World, Host, DateTime, max_unacknowledged_operations, InstallOperationError,
  invalid_transition, not_terminal, build_busy, operation_capacity_reached, operation_id_mismatch,
}
use audio_down_core.Supervisor.Install.Files.{remove_record, persist_record}
use audio_down_core.Supervisor.Install.Sections.{
  is_active, is_unacknowledged, set_built, set_failed, set_state, acknowledge, begin_new,
  begin_found, begin, new_stored, count_sequence, remove_expired, forgotten, cleanup_acknowledged,
}
use audio_down_core.Supervisor.Install.Steps.{
  Transition, stay, move, fail, number, accept, forget, Steps, here, next, Steps-one, Steps-of_eq,
  Simulates, Simulates-bind, unchanged-then, remove_record-memory, persist_record-memory,
  write_back-Steps, Steps-IsPreorder, matching-Follows, guarded-Follows,
}

-- What the guard of `set_state` lets through.
Transition-of_guard :
    (s t : PluginInstallOperationState)
    → (is_terminal s && not (state_beq s t)) ≡ false
    → Transition s t
Transition-of_guard accepted t h = move refl
Transition-of_guard building t h = move refl
Transition-of_guard built t h = move refl
Transition-of_guard finalized finalized h = stay
Transition-of_guard failed failed h = stay
Transition-of_guard aborted aborted h = stay
Transition-of_guard finalized _ h = absurd (ground arith)
Transition-of_guard failed _ h = absurd (ground arith)
Transition-of_guard aborted _ h = absurd (ground arith)

module _ (host : Host) where
  pub set_built-Simulates :
      (plugin_id : PluginId) (id : Uuid) (artifact : PluginInstallArtifact)
      (logs : List PluginBuildLog) (now : DateTime)
      → Simulates (set_built host plugin_id id artifact logs now)
  unfolding set_built
  set_built-Simulates plugin_id id artifact logs now =
      matching-Follows Steps-IsPreorder plugin_id id _ (λ stored w e.
        guarded-Follows Steps-IsPreorder (not (state_beq stored.operation.state building))
          invalid_transition _ w
          (λ b. write_back-Steps host id stored _ w e (record {
            same_id = refl;
            same_plugin = refl;
            same_sequence = refl;
            same_owner = refl;
            transition = move (ground arith);
            still_acknowledged = λ a. a;
            acknowledged_late = λ a n. cc;
          })))

  pub set_failed-Simulates :
      (plugin_id : PluginId) (id : Uuid) (code : Text) (logs : List PluginBuildLog) (now : DateTime)
      → Simulates (set_failed host plugin_id id code logs now)
  unfolding set_failed
  set_failed-Simulates plugin_id id code logs now =
      matching-Follows Steps-IsPreorder plugin_id id _ (λ stored w e.
        write_back-Steps host id stored _ w e (record {
          same_id = refl;
          same_plugin = refl;
          same_sequence = refl;
          same_owner = refl;
          transition = fail;
          still_acknowledged = λ a. a;
          acknowledged_late = λ a n. cc;
        }))

  pub set_state-Simulates :
      (plugin_id : PluginId) (id : Uuid) (target : PluginInstallOperationState) (code : Option Text)
      (now : DateTime)
      → Simulates (set_state host plugin_id id target code now)
  unfolding set_state
  set_state-Simulates plugin_id id target code now =
      matching-Follows Steps-IsPreorder plugin_id id _ (λ stored w e.
        guarded-Follows Steps-IsPreorder
          (is_terminal stored.operation.state && not (state_beq stored.operation.state target))
          invalid_transition _ w
          (λ b. write_back-Steps host id stored _ w e (record {
            same_id = refl;
            same_plugin = refl;
            same_sequence = refl;
            same_owner = refl;
            transition = Transition-of_guard stored.operation.state target b;
            still_acknowledged = λ a. a;
            acknowledged_late = λ a n. cc;
          })))

  pub acknowledge-Simulates :
      (plugin_id : PluginId) (id : Uuid) (now : DateTime)
      → Simulates (acknowledge host plugin_id id now)
  unfolding acknowledge
  acknowledge-Simulates plugin_id id now =
      matching-Follows Steps-IsPreorder plugin_id id _ (λ stored w e.
        guarded-Follows Steps-IsPreorder (not (is_terminal stored.operation.state)) not_terminal _ w
          (λ b. write_back-Steps host id stored _ w e (record {
            same_id = refl;
            same_plugin = refl;
            same_sequence = refl;
            same_owner = refl;
            transition = stay;
            still_acknowledged = λ a. refl;
            acknowledged_late = λ a n. ground arith;
          })))

  pub remove_expired-Simulates : (ids : List Uuid) → Simulates (remove_expired host ids)
  unfolding remove_expired
  remove_expired-Simulates [] w = here
  remove_expired-Simulates (id ∷ ids) w =
      Simulates-bind (remove_record host id) (λ _. modify (forgotten id) >> remove_expired host ids)
        (λ v. Steps-of_eq (sym (remove_record-memory host id v)))
        (λ _ v. next (forget id refl) (remove_expired-Simulates ids (forgotten id v))) w

  pub cleanup_acknowledged-Simulates : (now : DateTime) → Simulates (cleanup_acknowledged host now)
  unfolding cleanup_acknowledged
  cleanup_acknowledged-Simulates now w = remove_expired-Simulates _ w

  pub begin_new-Steps :
      (plugin_id : PluginId) (id : Uuid) (now : DateTime) (w : World)
      → get compare id w.memory.operations ≡ none
      → Steps w.memory (begin_new host plugin_id id now w).1.memory
  unfolding begin_new
  begin_new-Steps plugin_id id now w fresh =
      let before = values w.memory.operations in
      guarded-Follows Steps-IsPreorder (any is_active before) build_busy _ w (λ idle.
        guarded-Follows Steps-IsPreorder
          (leb max_unacknowledged_operations (count is_unacknowledged before))
          operation_capacity_reached _ w
          (λ room. next (number refl) (
            unchanged-then (persist_record host _) (persist_record-memory host _) _
              (count_sequence w)
              (λ _ v same. Steps-one (
                accept id (new_stored host plugin_id id now w.memory.next_sequence)
                  (ap (λ m. get compare id m.operations) same ∙ fresh)
                  (ap (λ m. any is_active (values m.operations)) same ∙ idle)
                  (subst
                    (λ m.
                      count is_unacknowledged (values m.operations) < max_unacknowledged_operations)
                    (sym same) (ground arith))
                  refl refl refl refl)))))

  pub begin-Simulates :
      (plugin_id : PluginId) (id : Uuid) (now : DateTime) → Simulates (begin host plugin_id id now)
  unfolding begin
  begin-Simulates plugin_id id now w = elim (Option-cases (get compare id w.memory.operations)) [
    | inl fresh ↦
        subst (λ (o : Option StoredOperation). Steps w.memory (begun o).1.memory) (sym fresh)
          (begin_new-Steps plugin_id id now w fresh)
    | inr (stored, e) ↦
        subst (λ (o : Option StoredOperation). Steps w.memory (begun o).1.memory) (sym e)
          (guarded-Follows Steps-IsPreorder (not (stored.operation.plugin_id == plugin_id))
            operation_id_mismatch _ w (λ _. here))
  ]
    where
      begun : Option StoredOperation → Result PluginInstallOperation InstallOperationError × World
      begun o = begin_found host plugin_id id now o w
