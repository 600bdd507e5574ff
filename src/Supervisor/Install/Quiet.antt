-- ===== src/Supervisor/Install/Quiet.antt =====
-- The accesses to the disk leave the operations in memory alone.
use audio_down_core.Base.{
  Bool, true, false, Option, none, some, ◌≡◌, refl, ◌∙◌, Result, ok, err, arith, if◌then◌else◌,
}
use Prim.Native.Nat.{compare}
use audio_down_core.Base.Map.{get, remove}
use audio_down_core.Base.Stateful.{fail_when, ◌>>=◌, ◌>>◌, resume}
use audio_down_core.Base.Text.{text_eq}
use audio_down_core.Domain.PluginId.{PluginId, plugin_id_eq}
use audio_down_core.Supervisor.Protocol.{Uuid, PluginInstallArtifact}
use audio_down_core.Supervisor.Install.State.{
  InstallOperationError, InstallAttestation, installed_attestation_mismatch, io,
  candidate_already_exists, World, Host, Disk, Directory, Bytes,
}
use audio_down_core.Supervisor.Install.Files.{
  Action, access, read, exists, attempt, remove_candidate_dir, remove_installed_dir, candidate_dir,
  install_json, read_attestation, verify_attestation, attestation_from_directory, write_candidate,
  remove_mirrors, remove_file_if_exists, mirrored_grant_id, remove_grant, remove_mirror_files,
}
use audio_down_core.Supervisor.Install.Steps.{access-memory}

abbrev pub IsQuiet : {A : Type 0} → Action A → Type 0
IsQuiet action = (w : World) → (action w).1.memory ≡ w.memory

module _ {A B : Type 0} where
  pub bind-IsQuiet :
      (m : Action A) (f : A → Action B) → IsQuiet m → ((a : A) → IsQuiet (f a)) → IsQuiet (m >>= f)
  bind-IsQuiet m f km kf w = later (m w).0 (m w).1 ∙ km w
    where
      later : (r : Result A InstallOperationError) (v : World) → (resume f r v).1.memory ≡ v.memory
      later (ok a) v = kf a v
      later (err e) v = refl

  pub seq-IsQuiet : (m : Action A) (k : Action B) → IsQuiet m → IsQuiet k → IsQuiet (m >> k)
  seq-IsQuiet m k hm hk = bind-IsQuiet m (λ _. k) hm (λ _. hk)

  pub option-IsQuiet :
      (o : Option B) (m : Action A) (f : B → Action A)
      → IsQuiet m
      → ((b : B) → IsQuiet (f b))
      → IsQuiet (elim o as (λ _. Action A) [ none ↦ m | some b ↦ f b ])
  option-IsQuiet none m f hm hf = hm
  option-IsQuiet (some b) m f hm hf = hf b

module _ {A : Type 0} where
  pub if-IsQuiet :
      (b : Bool) (m k : Action A) → IsQuiet m → IsQuiet k → IsQuiet (if b then m else k)
  if-IsQuiet true m k hm hk = hm
  if-IsQuiet false m k hm hk = hk

  pub attempt-IsQuiet : (m : Action A) → IsQuiet m → IsQuiet (attempt m)
  attempt-IsQuiet m h w = h w

module _ (host : Host) where
  pub read-IsQuiet :
      {A : Type 0} (find : Disk → Option A) (cause : InstallOperationError)
      → IsQuiet (read host find cause)
  unfolding read
  read-IsQuiet find cause w = ground arith

  pub exists-IsQuiet : {A : Type 0} (find : Disk → Option A) → IsQuiet (exists host find)
  unfolding exists
  exists-IsQuiet find w = ground arith

  pub remove_candidate_dir-IsQuiet : (id : Uuid) → IsQuiet (remove_candidate_dir host id)
  unfolding remove_candidate_dir access
  remove_candidate_dir-IsQuiet id w = ground arith

  pub remove_installed_dir-IsQuiet : (id : PluginId) → IsQuiet (remove_installed_dir host id)
  unfolding remove_installed_dir access
  remove_installed_dir-IsQuiet id w = ground arith

  pub read_attestation-IsQuiet :
      (directory : Disk → Option Directory) → IsQuiet (read_attestation host directory)
  unfolding read_attestation
  read_attestation-IsQuiet directory =
      bind-IsQuiet (read host (install_json directory) installed_attestation_mismatch) _
        (read-IsQuiet (install_json directory) installed_attestation_mismatch)
        (λ bytes. option-IsQuiet (host.decode_attestation bytes) _ _ (λ w. refl) (λ a w. refl))

  pub verify_attestation-IsQuiet :
      (directory : Disk → Option Directory) (expected : InstallAttestation)
      → IsQuiet (verify_attestation host directory expected)
  unfolding verify_attestation
  verify_attestation-IsQuiet directory expected =
      bind-IsQuiet (read_attestation host directory) _ (read_attestation-IsQuiet directory)
        (λ a w. refl)

  pub attestation_from_directory-IsQuiet :
      (directory : Disk → Option Directory) (plugin_id : PluginId) (id : Uuid)
      (artifact : PluginInstallArtifact)
      → IsQuiet (attestation_from_directory host directory plugin_id id artifact)
  unfolding attestation_from_directory
  attestation_from_directory-IsQuiet directory plugin_id id artifact =
      bind-IsQuiet (read_attestation host directory) _ (read_attestation-IsQuiet directory)
        (λ a. bind-IsQuiet (fail_when _ installed_attestation_mismatch) _ (λ w. refl) (λ _ w. refl))

  pub write_candidate-IsQuiet :
      (id : Uuid) (attestation : InstallAttestation) (manifest : Bytes)
      → IsQuiet (write_candidate host id attestation manifest)
  unfolding write_candidate
  write_candidate-IsQuiet id attestation manifest =
      bind-IsQuiet (exists host (candidate_dir id)) _ (exists-IsQuiet (candidate_dir id))
        (λ present.
          bind-IsQuiet (fail_when present candidate_already_exists) _ (λ w. refl)
            (λ _.
              bind-IsQuiet (access host (λ d. d) (λ d. d)) _ (access-memory host (λ d. d) (λ d. d))
                (λ _.
                  option-IsQuiet (host.encode_attestation attestation) _ _ (λ w. refl)
                    (λ bytes. access-memory host _ _))))

  remove_grant-IsQuiet : (grant : Option Uuid) → IsQuiet (remove_grant host grant)
  unfolding remove_grant
  remove_grant-IsQuiet none w = refl
  remove_grant-IsQuiet (some grant_id) w =
      access-memory host (λ d. record d { grants = remove compare grant_id d.grants }) (λ d. d) w

  remove_mirror_files-IsQuiet : (id : Uuid) → IsQuiet (remove_mirror_files host id)
  unfolding remove_mirror_files
  remove_mirror_files-IsQuiet id =
      bind-IsQuiet (remove_file_if_exists host _) _
        (access-memory host (λ d. record d { prepared = remove compare id d.prepared }) (λ d. d))
        (λ _.
          access-memory host (λ d. record d { mirrored = remove compare id d.mirrored }) (λ d. d))

  pub remove_mirrors-IsQuiet : (id : Uuid) → IsQuiet (remove_mirrors host id)
  unfolding remove_mirrors
  remove_mirrors-IsQuiet id =
      bind-IsQuiet (attempt (read host (λ d. get compare id d.prepared) io))
        (λ prepared.
          remove_grant host (mirrored_grant_id host prepared) >> remove_mirror_files host id)
        (read-IsQuiet (λ d. get compare id d.prepared) io)
        (λ prepared.
          seq-IsQuiet (remove_grant host (mirrored_grant_id host prepared))
            (remove_mirror_files host id) (remove_grant-IsQuiet (mirrored_grant_id host prepared))
            (remove_mirror_files-IsQuiet id))
