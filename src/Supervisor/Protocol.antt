-- ===== src/Supervisor/Protocol.antt =====
-- crates/audiodown-supervisor-protocol/src/lib.rs: the install operations as the server sees them.
-- A UUID is a number.
use audio_down_core.Base.{ℕ, Bool, true, false, Option, List, zero, suc, [], ◌∷◌}
use audio_down_core.Base.Text.{Text}
use audio_down_core.Domain.PluginId.{PluginId}

abbrev pub Uuid : Type 0
Uuid = ℕ

pub data PluginInstallOperationState : Type 0 where
  accepted building built finalized failed aborted : PluginInstallOperationState

-- `is_terminal`.
abbrev pub is_terminal : PluginInstallOperationState → Bool
is_terminal finalized = true
is_terminal failed = true
is_terminal aborted = true
is_terminal _ = false

abbrev pub state_beq : PluginInstallOperationState → PluginInstallOperationState → Bool
state_beq accepted accepted = true
state_beq building building = true
state_beq built built = true
state_beq finalized finalized = true
state_beq failed failed = true
state_beq aborted aborted = true
state_beq _ _ = false

pub record PluginInstallArtifact : Type 0 where
  pub image_id : Text
  pub repository_id : Text
  pub commit_sha : Text
  pub source_hash : Text
  pub manifest_hash : Text

pub data PluginBuildLogStream : Type 0 where
  stdout stderr system : PluginBuildLogStream

pub record PluginBuildLog : Type 0 where
  pub sequence : ℕ
  pub stream : PluginBuildLogStream
  pub message : Text

pub record PluginInstallOperation : Type 0 where
  pub operation_id : Uuid
  pub plugin_id : PluginId
  pub state : PluginInstallOperationState
  pub artifact : Option PluginInstallArtifact
  pub build_logs : List PluginBuildLog
  pub error_code : Option Text
  pub acknowledged : Bool

pub record PluginInstallOperationSummary : Type 0 where
  pub operation_id : Uuid
  pub plugin_id : PluginId
  pub state : PluginInstallOperationState
  pub artifact : Option PluginInstallArtifact
  pub error_code : Option Text
  pub acknowledged : Bool

abbrev pub summary : PluginInstallOperation → PluginInstallOperationSummary
summary operation = record {
  operation_id = operation.operation_id;
  plugin_id = operation.plugin_id;
  state = operation.state;
  artifact = operation.artifact;
  error_code = operation.error_code;
  acknowledged = operation.acknowledged;
}

pub record PluginInstallOperationList : Type 0 where
  pub operations : List PluginInstallOperationSummary

abbrev pub max_operation_list_items : ℕ
max_operation_list_items = 256

-- `Vec::truncate`.
unfoldable pub truncate {ℓ} : {A : Type ℓ} → ℕ → List A → List A
truncate zero xs = []
truncate (suc n) [] = []
truncate (suc n) (x ∷ xs) = x ∷ truncate n xs

unfoldable pub new : List PluginInstallOperationSummary → PluginInstallOperationList
unfolding truncate
new operations = record { operations = truncate max_operation_list_items operations }
