-- ===== src/Supervisor/Examples.antt =====
-- The theorems on the supervisor, applied to one operation and one installed plugin.
use audio_down_core.Base.{
  Bool, true, false, none, some, List, [], ◌∷◌, ◌≡◌, refl, ok, err, arith, map, filter,
}
use Prim.Native.Nat.{compare}
use mathlib.Core.List.{Permᴰ}
use audio_down_core.Base.Map.{get, adjust, values}
use audio_down_core.Base.Sort.{IsSorted}
use audio_down_core.Base.Text.{text, text_beq, text_cmp}
use audio_down_core.Domain.PluginId.{PluginId}
use audio_down_core.Supervisor.Protocol.{
  PluginInstallOperationState, PluginInstallArtifact, accepted, built, finalized, failed, aborted,
  summary,
}
use audio_down_core.Supervisor.Install.State.{
  StoredOperation, World, Host, Disk, done, InstallAttestation, on_demand,
}
use audio_down_core.Supervisor.Install.Files.{
  access, persist_record, remove_record, remove_candidate_dir, exists, read_attestation,
  verify_attestation, attestation_from_directory, remove_mirrors, remove_grant, remove_mirror_files,
}
use audio_down_core.Supervisor.Install.Sections.{
  status, set_state, set_failed, write_back, matching_operation, remove_expired,
  cleanup_acknowledged, listed, list, is_listed, by_sequence, accepted_operation,
}
use audio_down_core.Supervisor.Install.Lifecycle.{
  abort, finalize, finalize_from, finalize_built, install_candidate,
}
use audio_down_core.Base.Int.{pos}
use audio_down_core.Supervisor.Policy.{InstalledPlugin, GatewayRuntimeConfig}
use audio_down_core.Supervisor.Install.Lifecycle.Opening.{
  open_manager, create_directory, load_and_restore, load_state, read_records, reconcile_restart,
  reconcile_all, reconcile_as, discard_interrupted, discard_files,
}
use audio_down_core.Supervisor.Install.Opened.{IsAtRest, open_manager-IsAtRest}
use audio_down_core.Supervisor.Install.Files.{read}
use audio_down_core.Base.Map.{insert}
use audio_down_core.Base.Sort.{sort_by, insert_by}
use audio_down_core.Supervisor.Install.Finalized.{Ends, finalize-Ends}
use audio_down_core.Supervisor.Install.Bounds.{IsSound}
use audio_down_core.Supervisor.Install.Interleaving.{
  Section, beginning, setting_failed, aborting, perform_all, perform_all-IsSound,
}
use audio_down_core.Supervisor.Install.Listing.{list-IsComplete}
use audio_down_core.Supervisor.Install.Abort.{IsRefused, abort-IsRefused}
use audio_down_core.Supervisor.Install.Restart.{IsKeyed}
use audio_down_core.Supervisor.Install.Durable.{
  IsDurable, set_state-IsDurable, cleanup_acknowledged-IsDurable,
}

abbrev plugin : PluginId
plugin = record { as_str = text "demo" }

abbrev host : Host
host = record {
  installation_id = text "home";
  outcome = λ _. done;
  encode_record = λ stored. some (stored.operation.operation_id ∷ []);
  decode_record = λ _. none;
  encode_attestation = λ _. some [];
  decode_attestation = λ _. none;
  risk_grant_id = λ _. none;
  read_dir = λ m. values m;
  building = λ _ _. err (record { code = text "FAILED"; build_logs = [] });
  removing = λ _ _. ok tt;
  cleaning = λ _ _. ok tt;
}

abbrev artifact : PluginInstallArtifact
artifact = record {
  image_id = text "i";
  repository_id = text "r";
  commit_sha = text "c";
  source_hash = text "s";
  manifest_hash = text "m";
}

abbrev stored_in : PluginInstallOperationState → Bool → StoredOperation
stored_in state acknowledged = record {
  installation_id = text "home";
  operation = record (accepted_operation plugin 7) {
    state = state;
    artifact = some artifact;
    acknowledged = acknowledged;
  };
  created_at = 0;
  updated_at = 0;
  sequence = 0;
}

abbrev directories : Disk
directories = record {
  records = (7, 7 ∷ []) ∷ [];
  candidates = [];
  installed = [];
  prepared = [];
  mirrored = [];
  grants = [];
}

abbrev world_of : StoredOperation → World
world_of stored = record {
  memory = record { operations = (7, stored) ∷ []; next_sequence = 1 };
  disk = directories;
  io_calls = 0;
  adapter_calls = [];
}

waiting-IsSound : IsSound (world_of (stored_in accepted false)).memory
waiting-IsSound = (omega arith, omega arith, ((λ h. absurd (cc)), tt))

one-IsKeyed :
    (state : PluginInstallOperationState) (acknowledged : Bool)
    → IsKeyed (world_of (stored_in state acknowledged)).memory
one-IsKeyed state acknowledged id stored h = ground arith

one-IsDurable :
    (state : PluginInstallOperationState) (acknowledged : Bool)
    → IsDurable host (world_of (stored_in state acknowledged))
one-IsDurable state acknowledged id = ground arith

abbrev racing : List Section
racing =
    beginning plugin 8 1
    ∷ aborting plugin 7 2
    ∷ beginning plugin 8 3
    ∷ setting_failed plugin 7 (text "BUILD_FAILED") [] 4
    ∷ []

perform_all-IsSound_example :
    IsSound (perform_all host racing (world_of (stored_in accepted false))).memory
perform_all-IsSound_example =
    perform_all-IsSound host racing (world_of (stored_in accepted false)) waiting-IsSound

list-IsComplete_example :
    ((list host (world_of (stored_in accepted false))).operations
      ≡ map
          (λ (stored : StoredOperation). summary stored.operation)
          (listed host (world_of (stored_in accepted false))))
    × Permᴰ
        (listed host (world_of (stored_in accepted false)))
        (filter (is_listed host) (values (world_of (stored_in accepted false)).memory.operations))
    × IsSorted by_sequence (listed host (world_of (stored_in accepted false)))
list-IsComplete_example = list-IsComplete host (world_of (stored_in accepted false)) waiting-IsSound

abort-IsRefused_example :
    IsRefused
      (world_of (stored_in finalized false))
      (abort host plugin 7 5 (world_of (stored_in finalized false)))
abort-IsRefused_example =
    abort-IsRefused host plugin 7 5 (stored_in finalized false)
      (world_of (stored_in finalized false)) refl refl refl

abbrev attestation : InstallAttestation
attestation = record {
  installation_id = text "home";
  operation_id = 7;
  plugin_id = plugin;
  image_id = text "i";
  source_kind = text "g";
  repository_id = text "r";
  commit_sha = text "c";
  source_hash = text "s";
  manifest_hash = text "m";
  base_image_digest = text "b";
  sdk_hash = text "k";
  memory_bytes = 1;
  nano_cpus = 1;
  pids_limit = 1;
  run_mode = on_demand;
}

abbrev attesting : Host
attesting = record host { decode_attestation = λ _. some attestation }

-- A built operation with its candidate directory.
abbrev candidate_there : World
candidate_there = record (world_of (stored_in built false)) {
  disk = record directories {
    candidates = (7, record { attestation = some []; manifest = some [] }) ∷ [];
  };
}

finalized_now :
    (finalize attesting plugin 7 5 candidate_there).0 ≡ ok (stored_in finalized false).operation
unfolding finalize status attestation_from_directory read_attestation finalize_from finalize_built
    install_candidate verify_attestation exists remove_mirrors remove_grant remove_mirror_files
    set_state write_back matching_operation persist_record access read text_beq insert adjust
    text_cmp
finalized_now = refl

finalize-Ends_example :
    (old : StoredOperation) × (get compare 7 candidate_there.memory.operations ≡ some old)
    × (old.operation.plugin_id ≡ plugin)
    × Ends attesting 7 old.operation
        (stored_in finalized false).operation
        (finalize attesting plugin 7 5 candidate_there).1
finalize-Ends_example =
    finalize-Ends attesting plugin 7 5 candidate_there (stored_in finalized false).operation
      finalized_now

abbrev restarted : Host
restarted = record host { decode_record = λ _. some (stored_in accepted false) }

opened : (open_manager restarted 9 (world_of (stored_in built false))).0 ≡ ok tt
unfolding open_manager create_directory load_and_restore load_state read_records read
    reconcile_restart reconcile_all reconcile_as discard_interrupted discard_files set_failed
    write_back matching_operation persist_record remove_candidate_dir access cleanup_acknowledged
    remove_expired text_beq adjust insert sort_by insert_by
opened = refl

open_manager-IsAtRest_example :
    IsAtRest (open_manager restarted 9 (world_of (stored_in built false))).1.memory
open_manager-IsAtRest_example =
    open_manager-IsAtRest restarted 9 (world_of (stored_in built false)) opened

moved_on :
    (set_state host plugin 7 aborted none 3 (world_of (stored_in accepted false))).0
    ≡ ok (stored_in aborted false).operation
unfolding set_state write_back matching_operation persist_record access text_beq
moved_on = refl

set_state-IsDurable_example :
    IsDurable host (set_state host plugin 7 aborted none 3 (world_of (stored_in accepted false))).1
set_state-IsDurable_example =
    set_state-IsDurable host plugin 7 aborted none 3 (world_of (stored_in accepted false))
      (stored_in aborted false).operation (one-IsKeyed accepted false)
      (one-IsDurable accepted false) moved_on

cleaned : (cleanup_acknowledged host 1800000000000 (world_of (stored_in failed true))).0 ≡ ok tt
unfolding cleanup_acknowledged remove_expired remove_record access
cleaned = refl

cleanup_acknowledged-IsDurable_example :
    IsDurable host (cleanup_acknowledged host 1800000000000 (world_of (stored_in failed true))).1
cleanup_acknowledged-IsDurable_example =
    cleanup_acknowledged-IsDurable host 1800000000000 (world_of (stored_in failed true))
      (one-IsDurable failed true) cleaned

abbrev installed_plugin : InstalledPlugin
installed_plugin = record {
  plugin_id = plugin;
  image_id = text "i";
  installation_id = text "home";
  runtime_path = text "/plugin/a.js";
  memory_bytes = pos 1;
  nano_cpus = pos 1;
  pids_limit = pos 1;
}

abbrev gateway_config : GatewayRuntimeConfig
gateway_config = record { image = text "g"; proxy_volume = text "v" }
