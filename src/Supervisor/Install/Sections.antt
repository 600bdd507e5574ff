-- ===== src/Supervisor/Install/Sections.antt =====
-- The critical sections of install_operation.rs: what is done while `Inner::state` is locked. The
-- operation in memory is changed before its record is written.
use audio_down_core.Base.{
  ℕ, ◌+◌, Bool, true, false, ◌&&◌, not, Option, none, some, List, [], ◌∷◌, map, if◌then◌else◌, ◌==◌,
  any, filter, leb, Ordering,
}
use Prim.Native.Nat.{compare}
use audio_down_core.Base.Map.{Map, get, insert, adjust, remove, values, count}
use audio_down_core.Base.Sort.{sort_by}
use audio_down_core.Base.Stateful.{pure, fail, gets, modify, fail_when, ◌>>=◌, ◌>>◌}
use audio_down_core.Base.Text.{Text, text_eq}
use audio_down_core.Domain.PluginId.{PluginId, plugin_id_eq}
use audio_down_core.Supervisor.Protocol.{
  Uuid, PluginInstallOperation, PluginInstallOperationState, PluginInstallArtifact, PluginBuildLog,
  PluginInstallOperationList, accepted, building, built, failed, is_terminal, state_beq, summary,
  new,
}
use audio_down_core.Supervisor.Install.State.{
  StoredOperation, operation_id_mismatch, build_busy, operation_capacity_reached, not_found,
  invalid_transition, not_terminal, World, Host, DateTime, saturating_succ,
  max_unacknowledged_operations, acknowledged_retention,
}
use audio_down_core.Supervisor.Install.Files.{Action, persist_record, remove_record}

abbrev pub is_active : StoredOperation → Bool
is_active stored = not (is_terminal stored.operation.state)

abbrev pub is_unacknowledged : StoredOperation → Bool
is_unacknowledged stored = not stored.operation.acknowledged

abbrev pub is_expired : DateTime → StoredOperation → Bool
is_expired now stored =
    stored.operation.acknowledged
    && is_terminal stored.operation.state
    && leb (stored.updated_at + acknowledged_retention) now

-- `matching_operation`, `matching_operation_mut`.
abbrev pub matches_plugin : PluginId → Option StoredOperation → Option StoredOperation
matches_plugin plugin_id none = none
matches_plugin plugin_id (some stored) =
    if stored.operation.plugin_id == plugin_id then some stored else none

unfoldable pub matching_operation : PluginId → Uuid → Action StoredOperation
matching_operation plugin_id id w =
    elim (matches_plugin plugin_id (get compare id w.memory.operations)) [
      | none ↦ fail not_found w
      | some stored ↦ pure stored w
    ]

unfoldable pub status : PluginId → Uuid → Action PluginInstallOperation
unfolding matching_operation
status plugin_id id = do stored ← matching_operation plugin_id id; pure stored.operation

abbrev pub keep : Uuid → StoredOperation → World → World
keep id stored w = record w {
  memory = record w.memory { operations = adjust compare id stored w.memory.operations };
}

abbrev pub accept : Uuid → StoredOperation → World → World
accept id stored w = record w {
  memory = record w.memory { operations = insert compare id stored w.memory.operations };
}

abbrev pub forgotten : Uuid → World → World
forgotten id w = record w {
  memory = record w.memory { operations = remove compare id w.memory.operations };
}

abbrev pub count_sequence : World → World
count_sequence w = record w {
  memory = record w.memory { next_sequence = saturating_succ w.memory.next_sequence };
}

abbrev pub by_sequence : StoredOperation → StoredOperation → Ordering
by_sequence a b = compare a.sequence b.sequence

abbrev pub failed_with : Text → List PluginBuildLog → DateTime → StoredOperation → StoredOperation
failed_with code logs now stored = record stored {
  operation = record stored.operation { state = failed; error_code = some code; build_logs = logs };
  updated_at = now;
}

abbrev pub moved :
    PluginInstallOperationState → Option Text → DateTime → StoredOperation → StoredOperation
moved target code now stored = record stored {
  operation = record stored.operation { state = target; error_code = code };
  updated_at = now;
}

abbrev pub accepted_operation : PluginId → Uuid → PluginInstallOperation
accepted_operation plugin_id id = record {
  operation_id = id;
  plugin_id = plugin_id;
  state = accepted;
  artifact = none;
  build_logs = [];
  error_code = none;
  acknowledged = false;
}

abbrev pub expired_ids : DateTime → Map Uuid StoredOperation → List Uuid
expired_ids now [] = []
expired_ids now (e ∷ rest) =
    let later = expired_ids now rest in if is_expired now e.1 then e.0 ∷ later else later

module _ (host : Host) where
  -- `list`.
  abbrev pub is_listed : StoredOperation → Bool
  is_listed stored = (stored.installation_id == host.installation_id) && is_unacknowledged stored

  unfoldable pub listed : World → List StoredOperation
  listed w = sort_by by_sequence (filter is_listed (values w.memory.operations))

  unfoldable pub list : World → PluginInstallOperationList
  unfolding new listed
  list w = new (map (λ (stored : StoredOperation). summary stored.operation) (listed w))

  -- The changed operation stays in memory, then goes to the disk, and is the result.
  unfoldable pub write_back : Uuid → StoredOperation → Action PluginInstallOperation
  unfolding persist_record
  write_back id stored = do
    modify (keep id stored)
    persist_record host stored
    pure stored.operation

  unfoldable pub set_built :
      PluginId
      → Uuid
      → PluginInstallArtifact
      → List PluginBuildLog
      → DateTime
      → Action PluginInstallOperation
  unfolding matching_operation write_back
  set_built plugin_id id artifact logs now = do
    stored ← matching_operation plugin_id id
    fail_when (not (state_beq stored.operation.state building)) invalid_transition
    write_back id (record stored {
      operation = record stored.operation {
        state = built;
        artifact = some artifact;
        build_logs = logs;
        error_code = none;
      };
      updated_at = now;
    })

  unfoldable pub set_failed :
      PluginId → Uuid → Text → List PluginBuildLog → DateTime → Action PluginInstallOperation
  unfolding matching_operation write_back
  set_failed plugin_id id code logs now = do
    stored ← matching_operation plugin_id id
    write_back id (failed_with code logs now stored)

  unfoldable pub set_state :
      PluginId
      → Uuid
      → PluginInstallOperationState
      → Option Text
      → DateTime
      → Action PluginInstallOperation
  unfolding matching_operation write_back
  set_state plugin_id id target code now = do
    stored ← matching_operation plugin_id id
    fail_when (is_terminal stored.operation.state && not (state_beq stored.operation.state target))
        invalid_transition
    write_back id (moved target code now stored)

  unfoldable pub acknowledge : PluginId → Uuid → DateTime → Action PluginInstallOperation
  unfolding matching_operation write_back
  acknowledge plugin_id id now = do
    stored ← matching_operation plugin_id id
    fail_when (not (is_terminal stored.operation.state)) not_terminal
    write_back id (record stored {
      operation = record stored.operation { acknowledged = true };
      updated_at = now;
    })

  abbrev pub new_stored : PluginId → Uuid → DateTime → ℕ → StoredOperation
  new_stored plugin_id id now sequence = record {
    installation_id = host.installation_id;
    operation = accepted_operation plugin_id id;
    created_at = now;
    updated_at = now;
    sequence = sequence;
  }

  -- `begin` up to the point where it starts `run_build` as a task of its own.
  unfoldable pub begin_new : PluginId → Uuid → DateTime → Action PluginInstallOperation
  unfolding persist_record
  begin_new plugin_id id now = do
    stored_operations ← gets (λ (w : World). values w.memory.operations)
    fail_when (any is_active stored_operations) build_busy
    fail_when (leb max_unacknowledged_operations (count is_unacknowledged stored_operations))
        operation_capacity_reached
    sequence ← gets (λ (w : World). w.memory.next_sequence)
    modify count_sequence
    persist_record host (new_stored plugin_id id now sequence)
    modify (accept id (new_stored plugin_id id now sequence))
    pure (accepted_operation plugin_id id)

  unfoldable pub begin_found :
      PluginId → Uuid → DateTime → Option StoredOperation → Action PluginInstallOperation
  unfolding begin_new
  begin_found plugin_id id now none = begin_new plugin_id id now
  begin_found plugin_id id now (some stored) = do
    fail_when (not (stored.operation.plugin_id == plugin_id)) operation_id_mismatch
    pure stored.operation

  unfoldable pub begin : PluginId → Uuid → DateTime → Action PluginInstallOperation
  unfolding begin_found
  begin plugin_id id now = do
    existing ← gets (λ (w : World). get compare id w.memory.operations)
    begin_found plugin_id id now existing

  -- `cleanup_acknowledged`: the IDs are collected under one lock and removed under another.
  unfoldable pub remove_expired : List Uuid → Action (Unit {0})
  unfolding remove_record
  remove_expired [] = pure tt
  remove_expired (id ∷ ids) = do remove_record host id; modify (forgotten id); remove_expired ids

  unfoldable pub cleanup_acknowledged : DateTime → Action (Unit {0})
  unfolding remove_expired
  cleanup_acknowledged now = do
    expired ← gets (λ (w : World). expired_ids now w.memory.operations)
    remove_expired expired
