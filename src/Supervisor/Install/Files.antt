-- ===== src/Supervisor/Install/Files.antt =====
-- The accesses of install_operation.rs to the supervisor's directories. The contents of a file are
-- bytes, a file is named by the ID in its path.
use audio_down_core.Base.{
  suc, Bool, true, false, ◌&&◌, not, Option, none, some, Result, ok, err, Ordering, ◌==◌, nat_eq,
}
use Prim.Native.Nat.{compare}
use audio_down_core.Base.Map.{Map, get, insert, remove}
use audio_down_core.Base.Stateful.{Method, pure, fail, fail_when, ◌>>=◌, ◌>>◌}
use audio_down_core.Base.Text.{text_eq}
use audio_down_core.Domain.PluginId.{PluginId, plugin_id_eq}
use audio_down_core.Supervisor.Protocol.{Uuid, PluginInstallArtifact}
use audio_down_core.Supervisor.Install.State.{
  StoredOperation, InstallAttestation, InstallOperationError, candidate_already_exists, io, json,
  installed_attestation_mismatch, Disk, Directory, World, Host, Bytes, done, refused, halfway,
  RunMode, on_demand, always, plugin_id_cmp,
}

abbrev pub Action : Type 0 → Type 0
Action A = Method World InstallOperationError A

-- A directory without its files, and the directory of a removal that failed on its way.
abbrev pub emptied : Directory
emptied = record { attestation = none; manifest = none }

abbrev pub empty_if_present {ℓ} :
    {K : Type ℓ} → (K → K → Ordering) → K → Map K Directory → Map K Directory
empty_if_present cmp k m = elim (get cmp k m) [ none ↦ m | some _ ↦ insert cmp k emptied m ]

abbrev pub run_mode_beq : RunMode → RunMode → Bool
run_mode_beq on_demand on_demand = true
run_mode_beq always always = true
run_mode_beq _ _ = false

abbrev pub attestation_beq : InstallAttestation → InstallAttestation → Bool
attestation_beq a b =
    (a.installation_id == b.installation_id)
    && (a.operation_id == b.operation_id)
    && (a.plugin_id == b.plugin_id)
    && (a.image_id == b.image_id)
    && (a.source_kind == b.source_kind)
    && (a.repository_id == b.repository_id)
    && (a.commit_sha == b.commit_sha)
    && (a.source_hash == b.source_hash)
    && (a.manifest_hash == b.manifest_hash)
    && (a.base_image_digest == b.base_image_digest)
    && (a.sdk_hash == b.sdk_hash)
    && (a.memory_bytes == b.memory_bytes)
    && (a.nano_cpus == b.nano_cpus)
    && (a.pids_limit == b.pids_limit)
    && run_mode_beq a.run_mode b.run_mode

-- A failure that the caller looks at.
abbrev pub attempt : {A : Type 0} → Action A → Action (Result A InstallOperationError)
attempt m w = (ok (m w).0, (m w).1)

abbrev pub installed_dir : PluginId → Disk → Option Directory
installed_dir plugin_id d = get plugin_id_cmp plugin_id d.installed

abbrev pub candidate_dir : Uuid → Disk → Option Directory
candidate_dir id d = get compare id d.candidates

-- `install.json` of a directory.
abbrev pub install_json : (Disk → Option Directory) → Disk → Option Bytes
install_json directory d = elim (directory d) [ none ↦ none | some found ↦ found.attestation ]

module _ (host : Host) where
  -- One access: what it does to the directories when it succeeds, and when it fails on its way.
  unfoldable pub access : (Disk → Disk) → (Disk → Disk) → Action (Unit {0})
  access whole part w =
      let next = record w { io_calls = suc w.io_calls } in
      elim (host.outcome w.io_calls) [
        | done ↦ (ok tt, record next { disk = whole w.disk })
        | refused ↦ (err io, next)
        | halfway ↦ (err io, record next { disk = part w.disk })
      ]

  -- `fs::read`, where a missing file is `none` and any failure the given error, and `Path::exists`.
  unfoldable pub read : {A : Type 0} → (Disk → Option A) → InstallOperationError → Action A
  read find cause w =
      let next = record w { io_calls = suc w.io_calls } in
      elim (host.outcome w.io_calls) [
        | done ↦ elim (find w.disk) [ none ↦ (err cause, next) | some a ↦ (ok a, next) ]
        | _ ↦ (err cause, next)
      ]

  unfoldable pub exists : {A : Type 0} → (Disk → Option A) → Action Bool
  exists find w =
      let next = record w { io_calls = suc w.io_calls } in
      elim (host.outcome w.io_calls) [
        | done ↦ elim (find w.disk) [ none ↦ (ok false, next) | some _ ↦ (ok true, next) ]
        | _ ↦ (ok false, next)
      ]

  -- `atomic_write`: a write that fails on its way has replaced the file but not synced its
  -- directory.
  abbrev pub atomic_write : (Disk → Disk) → Action (Unit {0})
  atomic_write put = access put put

  abbrev pub remove_file_if_exists : (Disk → Disk) → Action (Unit {0})
  remove_file_if_exists delete = access delete (λ d. d)

  abbrev pub write_record : Uuid → Option Bytes → Action (Unit {0})
  write_record id none = fail json
  write_record id (some bytes) =
      atomic_write (λ d. record d { records = insert compare id bytes d.records })

  unfoldable pub persist_record : StoredOperation → Action (Unit {0})
  unfolding access
  persist_record stored = write_record stored.operation.operation_id (host.encode_record stored)

  unfoldable pub remove_record : Uuid → Action (Unit {0})
  unfolding access
  remove_record id = remove_file_if_exists (λ d. record d { records = remove compare id d.records })

  unfoldable pub remove_candidate_dir : Uuid → Action (Unit {0})
  remove_candidate_dir id =
      access (λ d. record d { candidates = remove compare id d.candidates })
        (λ d. record d { candidates = empty_if_present compare id d.candidates })

  unfoldable pub remove_installed_dir : PluginId → Action (Unit {0})
  remove_installed_dir plugin_id =
      access (λ d. record d { installed = remove plugin_id_cmp plugin_id d.installed })
        (λ d. record d { installed = empty_if_present plugin_id_cmp plugin_id d.installed })

  unfoldable pub read_attestation : (Disk → Option Directory) → Action InstallAttestation
  unfolding read
  read_attestation directory = do
    bytes ← read (install_json directory) installed_attestation_mismatch
    elim (host.decode_attestation bytes) [
      | none ↦ fail installed_attestation_mismatch
      | some found ↦ pure found
    ]

  unfoldable pub verify_attestation :
      (Disk → Option Directory) → InstallAttestation → Action (Unit {0})
  unfolding read_attestation
  verify_attestation directory expected = do
    actual ← read_attestation directory
    fail_when (not (attestation_beq actual expected)) installed_attestation_mismatch

  unfoldable pub attestation_from_directory :
      (Disk → Option Directory)
      → PluginId
      → Uuid
      → PluginInstallArtifact
      → Action InstallAttestation
  unfolding read_attestation
  attestation_from_directory directory plugin_id id artifact = do
    found ← read_attestation directory
    fail_when
        (not (
          (found.installation_id == host.installation_id)
          && (found.operation_id == id)
          && (found.plugin_id == plugin_id)
          && (found.image_id == artifact.image_id)
          && (found.repository_id == artifact.repository_id)
          && (found.commit_sha == artifact.commit_sha)
          && (found.source_hash == artifact.source_hash)
          && (found.manifest_hash == artifact.manifest_hash)))
        installed_attestation_mismatch
    pure found

  -- The candidate is written to a temporary directory and renamed.
  unfoldable pub write_candidate : Uuid → InstallAttestation → Bytes → Action (Unit {0})
  unfolding exists access
  write_candidate id attestation manifest = do
    present ← exists (candidate_dir id)
    fail_when present candidate_already_exists
    access (λ d. d) (λ d. d)
    elim (host.encode_attestation attestation) [
      | none ↦ fail json
      | some bytes ↦
          let whole : Directory = record { attestation = some bytes; manifest = some manifest } in
          atomic_write (λ d. record d { candidates = insert compare id whole d.candidates })
    ]

  -- The grant's ID is read from the prepared request, and whatever is wrong with that is ignored.
  abbrev pub mirrored_grant_id : Result Bytes InstallOperationError → Option Uuid
  mirrored_grant_id (ok bytes) = host.risk_grant_id bytes
  mirrored_grant_id (err cause) = none

  unfoldable pub remove_grant : Option Uuid → Action (Unit {0})
  unfolding access
  remove_grant none = pure tt
  remove_grant (some grant_id) =
      remove_file_if_exists (λ d. record d { grants = remove compare grant_id d.grants })

  unfoldable pub remove_mirror_files : Uuid → Action (Unit {0})
  unfolding access
  remove_mirror_files id = do
    remove_file_if_exists (λ d. record d { prepared = remove compare id d.prepared })
    remove_file_if_exists (λ d. record d { mirrored = remove compare id d.mirrored })

  unfoldable pub remove_mirrors : Uuid → Action (Unit {0})
  unfolding read remove_grant remove_mirror_files
  remove_mirrors id = do
    prepared ← attempt (read (λ d. get compare id d.prepared) io)
    remove_grant (mirrored_grant_id prepared)
    remove_mirror_files id
