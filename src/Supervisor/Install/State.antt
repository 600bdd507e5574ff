-- ===== src/Supervisor/Install/State.antt =====
-- The state of install_operation.rs: the operations in memory, the directories under the
-- supervisor's root, and the build adapter's calls.
use audio_down_core.Base.{ℕ, suc, Option, List, Result, Ordering, ltb, if◌then◌else◌, ◌^◌, ◌-◌}
use audio_down_core.Base.Map.{Map}
use audio_down_core.Base.Text.{Text, text_cmp}
use audio_down_core.Domain.PluginId.{PluginId}
use audio_down_core.Supervisor.Protocol.{
  Uuid, PluginInstallOperation, PluginInstallArtifact, PluginBuildLog,
}

-- `DateTime<Utc>` in nanoseconds, and the contents of a file.
abbrev pub DateTime : Type 0
DateTime = ℕ

abbrev pub Bytes : Type 0
Bytes = List ℕ

-- Thirty minutes.
abbrev pub acknowledged_retention : ℕ
acknowledged_retention = 1800000000000

abbrev pub max_unacknowledged_operations : ℕ
max_unacknowledged_operations = 256

-- `u64::saturating_add(1)`.
abbrev pub saturating_succ : ℕ → ℕ
saturating_succ n = if ltb n (2 ^ 64 - 1) then suc n else n

pub record BuildRequest : Type 0 where
  pub installation_id : Text
  pub operation_id : Uuid
  pub plugin_id : PluginId

pub record BuildOutput : Type 0 where
  pub artifact : PluginInstallArtifact
  pub manifest : Bytes
  pub base_image_digest : Text
  pub sdk_hash : Text
  pub build_logs : List PluginBuildLog

pub record BuildAdapterError : Type 0 where
  pub code : Text
  pub build_logs : List PluginBuildLog

pub record StoredOperation : Type 0 where
  pub installation_id : Text
  pub operation : PluginInstallOperation
  pub created_at : DateTime
  pub updated_at : DateTime
  pub sequence : ℕ

pub data RunMode : Type 0 where
  on_demand always : RunMode

pub record InstallAttestation : Type 0 where
  pub installation_id : Text
  pub operation_id : Uuid
  pub plugin_id : PluginId
  pub image_id : Text
  pub source_kind : Text
  pub repository_id : Text
  pub commit_sha : Text
  pub source_hash : Text
  pub manifest_hash : Text
  pub base_image_digest : Text
  pub sdk_hash : Text
  pub memory_bytes : ℕ
  pub nano_cpus : ℕ
  pub pids_limit : ℕ
  pub run_mode : RunMode

-- The errors, the paths and the causes in them left out.
pub data InstallOperationError : Type 0 where
  operation_id_mismatch build_busy operation_capacity_reached not_found invalid_transition
        not_terminal installed_attestation_mismatch candidate_already_exists io json :
      InstallOperationError
  adapter : BuildAdapterError → InstallOperationError

pub record OperationState : Type 0 where
  pub operations : Map Uuid StoredOperation
  pub next_sequence : ℕ

-- A candidate or an installed plugin: `install.json` and `audiodown-plugin.json`.
pub record Directory : Type 0 where
  pub attestation : Option Bytes
  pub manifest : Option Bytes

-- `operations/`, `candidates/`, `installed/`, `prepared/`, `risk-grants/` and `grants/`.
pub record Disk : Type 0 where
  pub records : Map Uuid Bytes
  pub candidates : Map Uuid Directory
  pub installed : Map PluginId Directory
  pub prepared : Map Uuid Bytes
  pub mirrored : Map Uuid Bytes
  pub grants : Map Uuid Bytes

pub data AdapterCall : Type 0 where
  build : BuildRequest → AdapterCall
  remove_image : Text → AdapterCall
  cleanup_temporary_resources : Uuid → AdapterCall

pub record World : Type 0 where
  pub memory : OperationState
  pub disk : Disk
  pub io_calls : ℕ
  pub adapter_calls : List AdapterCall

-- How an access to the file system ends: it succeeds, it fails without an effect, or it fails after
-- a part of its effect.
pub data Outcome : Type 0 where
  done refused halfway : Outcome

-- What the manager is opened with, and what it relies on: the file system, in the order of the
-- calls; serde_json; the order in which a directory is read; and the build adapter.
pub record Host : Type 0 where
  pub installation_id : Text
  pub outcome : ℕ → Outcome
  pub encode_record : StoredOperation → Option Bytes
  pub decode_record : Bytes → Option StoredOperation
  pub encode_attestation : InstallAttestation → Option Bytes
  pub decode_attestation : Bytes → Option InstallAttestation
  pub risk_grant_id : Bytes → Option Uuid
  pub read_dir : Map Uuid Bytes → List Bytes
  pub building : List AdapterCall → BuildRequest → Result BuildOutput BuildAdapterError
  pub removing : List AdapterCall → Text → Result (Unit {0}) BuildAdapterError
  pub cleaning : List AdapterCall → Uuid → Result (Unit {0}) BuildAdapterError

abbrev pub plugin_id_cmp : PluginId → PluginId → Ordering
plugin_id_cmp a b = text_cmp a.as_str b.as_str
