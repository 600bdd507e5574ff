-- ===== src/Supervisor/Install/Finalized.antt =====
-- What a success of `finalize` in install_operation.rs tells of the operation.
use audio_down_core.Base.{
  not, ◌&&◌, none, some, ◌≡◌, ◌⊎◌, inl, inr, refl, sym, ◌∙◌, subst, ap, ok, arith, if◌then◌else◌,
}
use Prim.Native.Nat.{compare}
use audio_down_core.Base.Map.{get, get-adjust}
use audio_down_core.Base.Order.{nat_cmp-IsLawful}
use audio_down_core.Base.Stateful.{pure, ◌>>=◌, ◌>>◌, >>=-ok, guarded-ok}
use audio_down_core.Domain.PluginId.{PluginId}
use audio_down_core.Supervisor.Protocol.{
  Uuid, PluginInstallOperation, PluginInstallOperationState, accepted, building, built, finalized,
  failed, aborted, is_terminal, state_beq,
}
use audio_down_core.Supervisor.Install.State.{
  StoredOperation, World, Host, DateTime, InstallOperationError, InstallAttestation,
  invalid_transition,
}
use audio_down_core.Supervisor.Install.Files.{
  Action, persist_record, exists, installed_dir, candidate_dir, attestation_from_directory,
  remove_mirrors, verify_attestation,
}
use audio_down_core.Supervisor.Install.Sections.{status, write_back, set_state, keep, moved}
use audio_down_core.Supervisor.Install.Steps.{matching-ok, write_back-memory}
use audio_down_core.Supervisor.Install.Quiet.{
  IsQuiet, if-IsQuiet, exists-IsQuiet, verify_attestation-IsQuiet,
  attestation_from_directory-IsQuiet, remove_mirrors-IsQuiet,
}
use audio_down_core.Supervisor.Install.Composed.{
  required-IsQuiet, status-IsQuiet, install_candidate-IsQuiet, recheck_installed-IsQuiet,
  finalize_again-IsQuiet,
}
use audio_down_core.Supervisor.Install.Lifecycle.{
  required, install_candidate, recheck_installed, finalize_built, finalize_again, finalize_from,
  finalize,
}

-- A chain that succeeds and begins without touching the operations.
quiet-ok :
    {A B : Type 0} (m : Action A) (f : A → Action B) (w : World) (b : B)
    → IsQuiet m
    → ((m >>= f) w).0 ≡ ok b
    → (a : A) × (v : World) × ((m w).0 ≡ ok a) × (v.memory ≡ w.memory) × ((m >>= f) w ≡ f a v)
quiet-ok m f w b quiet h = let (a, e, same) = >>=-ok m f w b h in (a, (m w).1, e, quiet w, same)

-- The operation, once finalized.
abbrev pub as_finalized : PluginInstallOperation → PluginInstallOperation
as_finalized operation = record operation { state = finalized; error_code = none }

-- The memory holds that operation under the ID.
abbrev pub Holds : Uuid → PluginInstallOperation → World → Type 0
Holds id operation w =
    (stored : StoredOperation) × (get compare id w.memory.operations ≡ some stored)
    × (stored.operation ≡ operation)

module _ (host : Host) where
  write_back-ok :
      (id : Uuid) (old new : StoredOperation) (w : World) (result : PluginInstallOperation)
      → get compare id w.memory.operations ≡ some old
      → (write_back host id new w).0 ≡ ok result
      → (result ≡ new.operation)
        × (get compare id (write_back host id new w).1.memory.operations ≡ some new)
  write_back-ok id old new w result e h =
      let (u, done, same) =
        >>=-ok (persist_record host new) (λ _. pure new.operation) (keep id new w) result
          (unfold write_back in h) in
      let last : (pure {E = InstallOperationError} new.operation
            (persist_record host new (keep id new w)).1).0
          ≡ ok result =
        sym (ap (λ r. r.0) same) ∙ (unfold write_back in h) in
      (
        ground (arith, last),
        ap (λ m. get compare id m.operations) (write_back-memory host id new w)
            ∙ (get-adjust compare nat_cmp-IsLawful id id new old w.memory.operations e
                ∙ ground arith),
      )

  set_state-ok :
      (plugin_id : PluginId) (id : Uuid) (now : DateTime) (w : World) (old : StoredOperation)
      (result : PluginInstallOperation)
      → get compare id w.memory.operations ≡ some old
      → (set_state host plugin_id id finalized none now w).0 ≡ ok result
      → (result ≡ as_finalized old.operation)
        × Holds id result (set_state host plugin_id id finalized none now w).1
  unfolding set_state
  set_state-ok plugin_id id now w old result found h =
      let (stored, e, mine, same) = matching-ok plugin_id id _ w result h in
      let new = moved finalized none now stored in
      let (unmet, passed) =
        guarded-ok
          (is_terminal stored.operation.state && not (state_beq stored.operation.state finalized))
          invalid_transition (write_back host id new) w result (sym (ap (λ r. r.0) same) ∙ h) in
      let (made, held) =
        write_back-ok id stored new w result e (sym (ap (λ r. r.0) (same ∙ passed)) ∙ h) in
      let one : stored ≡ old = ground (arith, e, found) in
      (
        made ∙ ap (λ (s : StoredOperation). as_finalized s.operation) one,
        subst (λ r. Holds id result r.1) (sym (same ∙ passed)) (new, held, sym made),
      )

  finalize_again-ok :
      (plugin_id : PluginId) (id : Uuid) (expected : InstallAttestation)
      (operation : PluginInstallOperation) (w : World) (result : PluginInstallOperation)
      → (finalize_again host plugin_id id expected operation w).0 ≡ ok result
      → result ≡ operation
  unfolding finalize_again
  finalize_again-ok plugin_id id expected operation w result h =
      let (a, v, e, kept, same) =
        quiet-ok (verify_attestation host (installed_dir plugin_id) expected) _ w result
          (verify_attestation-IsQuiet host (installed_dir plugin_id) expected) h in
      let (b, u, e1, kept1, same1) =
        quiet-ok (remove_mirrors host id) (λ _. pure operation) v result
          (remove_mirrors-IsQuiet host id) (sym (ap (λ r. r.0) same) ∙ h) in
      let last = sym (ap (λ r. r.0) (same ∙ same1)) ∙ h in ground (arith, last)

  finalize_built-ok :
      (plugin_id : PluginId) (id : Uuid) (expected : InstallAttestation) (now : DateTime)
      (w : World) (old : StoredOperation) (result : PluginInstallOperation)
      → get compare id w.memory.operations ≡ some old
      → (finalize_built host plugin_id id expected now w).0 ≡ ok result
      → (result ≡ as_finalized old.operation)
        × Holds id result (finalize_built host plugin_id id expected now w).1
  unfolding finalize_built
  finalize_built-ok plugin_id id expected now w old result found h =
      let (installed, v, e, kept, same) =
        quiet-ok (exists host (installed_dir plugin_id)) _ w result
          (exists-IsQuiet host (installed_dir plugin_id)) h in
      let placing =
        if installed
        then recheck_installed host plugin_id id expected
        else install_candidate host plugin_id id expected in
      let (a, u, e1, kept1, same1) =
        quiet-ok placing _ v result
          (if-IsQuiet installed (recheck_installed host plugin_id id expected)
            (install_candidate host plugin_id id expected)
            (recheck_installed-IsQuiet host plugin_id id expected)
            (install_candidate-IsQuiet host plugin_id id expected))
          (sym (ap (λ r. r.0) same) ∙ h) in
      let still = ap (λ m. get compare id m.operations) (kept1 ∙ kept) ∙ found in
      let (done, e2, same2) =
        >>=-ok (set_state host plugin_id id finalized none now)
          (λ done. remove_mirrors host id >> pure done) u result
          (sym (ap (λ r. r.0) (same ∙ same1)) ∙ h) in
      let (made, held) = set_state-ok plugin_id id now u old done still e2 in
      let (b, t, e3, kept3, same3) =
        quiet-ok (remove_mirrors host id) (λ _. pure done) _ result (remove_mirrors-IsQuiet host id)
          (sym (ap (λ r. r.0) (same ∙ same1 ∙ same2)) ∙ h) in
      let last : (pure {E = InstallOperationError} done t).0 ≡ ok result =
        sym (ap (λ r. r.0) (same ∙ same1 ∙ same2 ∙ same3)) ∙ h in
      let one : done ≡ result = ground (arith, last) in
      let (stored, there, its) = held in
      (
        sym one ∙ made,
        subst (λ r. Holds id result r.1) (sym (same ∙ same1 ∙ same2 ∙ same3))
            (stored, ap (λ m. get compare id m.operations) kept3 ∙ there, its ∙ one),
      )

  -- From a built operation, or again from a finalized one.
  abbrev pub Ends : Uuid → PluginInstallOperation → PluginInstallOperation → World → Type 0
  Ends id operation result w =
      (((operation.state ≡ built) × (result ≡ as_finalized operation))
        ⊎ ((operation.state ≡ finalized) × (result ≡ operation)))
      × Holds id result w

  finalize_from-ok :
      (plugin_id : PluginId) (id : Uuid) (expected : InstallAttestation) (now : DateTime)
      (w : World) (old : StoredOperation) (state : PluginInstallOperationState)
      (result : PluginInstallOperation)
      → get compare id w.memory.operations ≡ some old
      → old.operation.state ≡ state
      → (finalize_from host plugin_id id expected now old.operation state w).0 ≡ ok result
      → Ends id old.operation result
          (finalize_from host plugin_id id expected now old.operation state w).1
  unfolding finalize_from
  finalize_from-ok plugin_id id expected now w old finalized result found is h =
      let again = finalize_again-ok plugin_id id expected old.operation w result h in
      (
        inr (is, again),
        (
          old,
          ap (λ m. get compare id m.operations)
                (finalize_again-IsQuiet host plugin_id id expected old.operation w)
              ∙ found,
          sym again,
        ),
      )
  finalize_from-ok plugin_id id expected now w old built result found is h =
      let (made, held) = finalize_built-ok plugin_id id expected now w old result found h in
      (inl (is, made), held)
  finalize_from-ok plugin_id id expected now w old accepted result found is h = absurd (cc)
  finalize_from-ok plugin_id id expected now w old building result found is h = absurd (cc)
  finalize_from-ok plugin_id id expected now w old failed result found is h = absurd (cc)
  finalize_from-ok plugin_id id expected now w old aborted result found is h = absurd (cc)

  status-ok :
      (plugin_id : PluginId) (id : Uuid) (w : World) (operation : PluginInstallOperation)
      → (status plugin_id id w).0 ≡ ok operation
      → (old : StoredOperation) × (get compare id w.memory.operations ≡ some old)
        × (old.operation.plugin_id ≡ plugin_id)
        × (old.operation ≡ operation)
  unfolding status
  status-ok plugin_id id w operation h =
      let (old, e, mine, same) = matching-ok plugin_id id _ w operation h in
      let last = sym (ap (λ r. r.0) same) ∙ h in (old, e, mine, ground (arith, last))

  -- `finalize` succeeds only for an operation that is in memory under that ID and for that plugin, and
  -- only where it is Built, or Finalized already. Its result is the operation as it was, with the state
  -- Finalized and without an error code, or unchanged where it was Finalized already; and the memory
  -- then holds that result under the ID.
  pub finalize-Ends :
      (plugin_id : PluginId) (id : Uuid) (now : DateTime) (w : World)
      (result : PluginInstallOperation)
      → (finalize host plugin_id id now w).0 ≡ ok result
      → (old : StoredOperation) × (get compare id w.memory.operations ≡ some old)
        × (old.operation.plugin_id ≡ plugin_id)
        × Ends id old.operation result (finalize host plugin_id id now w).1
  unfolding finalize
  finalize-Ends plugin_id id now w result h =
      let (operation, v, e, kept, same) =
        quiet-ok (status plugin_id id) _ w result (status-IsQuiet plugin_id id) h in
      let (old, found, mine, own) = status-ok plugin_id id w operation e in
      let (artifact, v1, e1, kept1, same1) =
        quiet-ok (required operation.artifact invalid_transition) _ v result
          (required-IsQuiet operation.artifact invalid_transition) (sym (ap (λ r. r.0) same) ∙ h) in
      let (installed, v2, e2, kept2, same2) =
        quiet-ok (exists host (installed_dir plugin_id)) _ v1 result
          (exists-IsQuiet host (installed_dir plugin_id))
          (sym (ap (λ r. r.0) (same ∙ same1)) ∙ h) in
      let place = if installed then installed_dir plugin_id else candidate_dir id in
      let (expected, v3, e3, kept3, same3) =
        quiet-ok (attestation_from_directory host place plugin_id id artifact) _ v2 result
          (attestation_from_directory-IsQuiet host place plugin_id id artifact)
          (sym (ap (λ r. r.0) (same ∙ same1 ∙ same2)) ∙ h) in
      let still = ap (λ m. get compare id m.operations) (kept3 ∙ kept2 ∙ kept1 ∙ kept) ∙ found in
      let whole =
        same
        ∙ same1
        ∙ same2
        ∙ same3
        ∙ ap (λ o. finalize_from host plugin_id id expected now o o.state v3) (sym own) in
      (
        old,
        found,
        mine,
        subst (λ r. Ends id old.operation result r.1) (sym whole)
            (finalize_from-ok plugin_id id expected now v3 old old.operation.state result still refl
              (sym (ap (λ r. r.0) whole) ∙ h)),
      )
