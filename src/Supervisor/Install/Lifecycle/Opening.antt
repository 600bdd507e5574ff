-- ===== src/Supervisor/Install/Lifecycle/Opening.antt =====
-- install_operation.rs: `open`, with the loading of the records and what a restart does with them.
use audio_down_core.Base.{ℕ, some, List, [], ◌∷◌, map, if◌then◌else◌, ltb}
use Prim.Native.Nat.{compare}
use audio_down_core.Base.Map.{insert, values}
use audio_down_core.Base.Sort.{sort_by}
use audio_down_core.Base.Stateful.{pure, gets, modify, ◌>>=◌, ◌>>◌}
use audio_down_core.Base.Text.{Text, text}
use audio_down_core.Supervisor.Protocol.{
  PluginInstallOperation, PluginInstallOperationState, accepted, building, finalized,
}
use audio_down_core.Supervisor.Install.State.{
  StoredOperation, json, io, World, Host, DateTime, OperationState, Bytes, saturating_succ,
}
use audio_down_core.Supervisor.Install.Files.{Action, access, read, remove_candidate_dir}
use audio_down_core.Supervisor.Install.Sections.{set_failed, cleanup_acknowledged, by_sequence}
use audio_down_core.Supervisor.Install.Lifecycle.{
  required, call_cleanup, remove_artifact_image, finalize,
}

abbrev pub restart_error_code : Text
restart_error_code = text "SUPERVISOR_RESTARTED"

abbrev pub max : ℕ → ℕ → ℕ
max a b = if ltb a b then b else a

abbrev pub load_record : StoredOperation → OperationState → OperationState
load_record stored state = record {
  operations = insert compare stored.operation.operation_id stored state.operations;
  next_sequence = max state.next_sequence (saturating_succ stored.sequence);
}

abbrev pub load_records : List StoredOperation → OperationState → OperationState
load_records [] state = state
load_records (stored ∷ rest) state = load_records rest (load_record stored state)

abbrev pub empty_state : OperationState
empty_state = record { operations = []; next_sequence = 0 }

module _ (host : Host) where
  -- `reconcile_restart`, over the operations that the state held when it began.
  unfoldable pub discard_files : PluginInstallOperation → Action (Unit {0})
  unfolding remove_candidate_dir
  discard_files operation = do
    remove_candidate_dir host operation.operation_id
    remove_artifact_image host operation.artifact
    call_cleanup host operation.operation_id

  unfoldable pub discard_interrupted : PluginInstallOperation → DateTime → Action (Unit {0})
  unfolding set_failed discard_files
  discard_interrupted operation now = do
    set_failed host operation.plugin_id operation.operation_id restart_error_code [] now
    discard_files operation

  unfoldable pub reconcile_as :
      PluginInstallOperation → DateTime → PluginInstallOperationState → Action (Unit {0})
  unfolding discard_interrupted finalize
  reconcile_as operation now accepted = discard_interrupted operation now
  reconcile_as operation now building = discard_interrupted operation now
  reconcile_as operation now finalized = do
    finalize host operation.plugin_id operation.operation_id now
    pure tt
  reconcile_as operation now _ = pure tt

  unfoldable pub reconcile_all : List PluginInstallOperation → DateTime → Action (Unit {0})
  unfolding reconcile_as
  reconcile_all [] now = pure tt
  reconcile_all (operation ∷ rest) now = do
    reconcile_as operation now operation.state
    reconcile_all rest now

  unfoldable pub reconcile_restart : DateTime → Action (Unit {0})
  unfolding reconcile_all
  reconcile_restart now = do
    operations ← gets (λ (w : World).
        map (λ (stored : StoredOperation). stored.operation) (values w.memory.operations))
    reconcile_all operations now

  -- `load_state`: the records as the directory lists them, in the order of their sequence numbers.
  unfoldable pub read_records : List Bytes → Action (List StoredOperation)
  unfolding read
  read_records [] = pure []
  read_records (bytes ∷ files) = do
    content ← read host (λ _. some bytes) io
    stored ← required (host.decode_record content) json
    rest ← read_records files
    pure (stored ∷ rest)

  unfoldable pub load_state : Action OperationState
  unfolding read read_records
  load_state = do
    files ← read host (λ d. some (host.read_dir d.records)) io
    records ← read_records files
    pure (load_records (sort_by by_sequence records) empty_state)

  -- `open`, with `ensure_layout`'s five directories.
  unfoldable pub create_directory : Action (Unit {0})
  unfolding access
  create_directory = access host (λ d. d) (λ d. d)

  unfoldable pub load_and_restore : DateTime → Action (Unit {0})
  unfolding load_state reconcile_restart cleanup_acknowledged
  load_and_restore now = do
    state ← load_state
    modify (λ (w : World). record w { memory = state })
    reconcile_restart now
    cleanup_acknowledged host now

  unfoldable pub open_manager : DateTime → Action (Unit {0})
  unfolding create_directory load_and_restore
  open_manager now = do
    create_directory
    create_directory
    create_directory
    create_directory
    create_directory
    load_and_restore now
