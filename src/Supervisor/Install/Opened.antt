-- ===== src/Supervisor/Install/Opened.antt =====
-- What an opened manager of install operations holds, whatever was on the disk.
use audio_down_core.Base.{
  false, some, List, [], ◌∷◌, ◌≡◌, refl, subst, Result, ok, err, arith, inl, inr, Bool-cases,
}
use Prim.Native.Nat.{compare}
use audio_down_core.Base.Map.{get, get-insert, get-remove}
use audio_down_core.Base.Order.{nat_cmp-IsLawful}
use audio_down_core.Base.Sort.{sort_by}
use audio_down_core.Base.Stateful.{pure, modify, ◌>>=◌, ◌>>◌, resume}
use audio_down_core.Supervisor.Protocol.{Uuid}
use audio_down_core.Supervisor.Install.State.{
  StoredOperation, OperationState, InstallOperationError, World, Host, DateTime, io,
}
use audio_down_core.Supervisor.Install.Files.{Action, read, remove_record}
use audio_down_core.Supervisor.Install.Sections.{
  by_sequence, forgotten, remove_expired, cleanup_acknowledged, expired_ids,
}
use audio_down_core.Supervisor.Install.Lifecycle.Opening.{
  load_record, load_records, empty_state, read_records, load_state, load_and_restore,
  create_directory, open_manager, reconcile_restart,
}
use audio_down_core.Supervisor.Install.Steps.{Follows, Follows-after, remove_record-memory}
use audio_down_core.Supervisor.Install.Restart.{
  IsKeyed, Settles, Settles-IsPreorder, is_interrupted, reconcile_restart-Clears,
}

abbrev pub IsAtRest : OperationState → Type 0
IsAtRest m =
    (id : Uuid) (stored : StoredOperation)
    → get compare id m.operations ≡ some stored
    → is_interrupted stored.operation.state ≡ false

-- What holds of a success, whatever came before.
module _ {A B : Type 0} (P : B → World → Type 0) where
  ensured :
      (m : Action A) (k : A → Action B) (w : World) (b : B)
      → ((a : A) → (m w).0 ≡ ok a → (k a (m w).1).0 ≡ ok b → P b (k a (m w).1).1)
      → ((m >>= k) w).0 ≡ ok b
      → P b ((m >>= k) w).1
  ensured m k w b h e = by_result (m w).0 h e
    where
      by_result :
          (r : Result A InstallOperationError)
          → ((a : A) → r ≡ ok a → (k a (m w).1).0 ≡ ok b → P b (k a (m w).1).1)
          → (resume k r (m w).1).0 ≡ ok b
          → P b (resume k r (m w).1).1
      by_result (ok a) g f = g a refl f
      by_result (err cause) g f = absurd (cc)

load_records-IsKeyed :
    (records : List StoredOperation) (state : OperationState)
    → IsKeyed state
    → IsKeyed (load_records records state)
load_records-IsKeyed [] state h = h
load_records-IsKeyed (stored ∷ rest) state h =
    load_records-IsKeyed rest (load_record stored state) (λ j s k. ground (
      arith,
      get-insert compare nat_cmp-IsLawful j stored.operation.operation_id stored state.operations,
      h j s,
    ))

module _ (host : Host) where
  load_state-IsKeyed :
      (w : World) (state : OperationState) → (load_state host w).0 ≡ ok state → IsKeyed state
  unfolding load_state
  load_state-IsKeyed w state h =
      ensured (λ b _. IsKeyed b) (read host (λ d. some (host.read_dir d.records)) io) _ w state
        (λ files _ h1.
          ensured (λ b _. IsKeyed b) (read_records host files)
            (λ records. pure (load_records (sort_by by_sequence records) empty_state)) _ state
            (λ records _ h2.
              let loaded : load_records (sort_by by_sequence records) empty_state ≡ state =
                ground arith in
              subst IsKeyed loaded (
                load_records-IsKeyed (sort_by by_sequence records) empty_state
                  (λ j s k. absurd (cc))))
            h1)
        h

  remove_expired-Settles : (ids : List Uuid) → Follows Settles (remove_expired host ids)
  unfolding remove_expired
  remove_expired-Settles [] w = Settles-IsPreorder.of_eq {m = w.memory} refl
  remove_expired-Settles (id ∷ ids) w =
      Follows-after Settles-IsPreorder (remove_record host id)
        (λ _. modify (forgotten id) >> remove_expired host ids) (remove_record-memory host id)
        (λ _ v j s k i.
          let before = remove_expired-Settles ids (forgotten id v) j s k i in
          ground (arith, before, get-remove compare nat_cmp-IsLawful j id v.memory.operations))
        w

  restored-IsAtRest :
      (state : OperationState) (now : DateTime) (w : World)
      → IsKeyed state
      → ((reconcile_restart host now >> cleanup_acknowledged host now)
          (record w { memory = state })).0
        ≡ ok tt
      → IsAtRest
          ((reconcile_restart host now >> cleanup_acknowledged host now)
            (record w { memory = state })).1.memory
  unfolding cleanup_acknowledged
  restored-IsAtRest state now w keyed h =
      ensured (λ _ v. IsAtRest v.memory) (reconcile_restart host now)
        (λ _. cleanup_acknowledged host now) (record w { memory = state }) tt
        (λ done e _ id stored k.
          let v = (reconcile_restart host now (record w { memory = state })).1 in
          elim (Bool-cases (is_interrupted stored.operation.state)) [
            | inr rest ↦ rest
            | inl interrupted ↦
                reconcile_restart-Clears host now (record w { memory = state }) keyed e id stored
                  (remove_expired-Settles (expired_ids now v.memory.operations) v id stored k
                    interrupted)
          ])
        h

  loaded-IsAtRest :
      (now : DateTime) (w : World)
      → (load_and_restore host now w).0 ≡ ok tt
      → IsAtRest (load_and_restore host now w).1.memory
  unfolding load_and_restore
  loaded-IsAtRest now w h =
      ensured (λ _ v. IsAtRest v.memory) (load_state host)
        (λ state.
          modify (λ (v : World). record v { memory = state })
          >> (reconcile_restart host now >> cleanup_acknowledged host now))
        w tt
        (λ state e h1.
          restored-IsAtRest state now (load_state host w).1 (load_state-IsKeyed w state e) h1)
        h

  -- A manager that opens has no operation that is Accepted or Building, whatever records were on the
  -- disk, in whatever order they are read.
  pub open_manager-IsAtRest :
      (now : DateTime) (w : World)
      → (open_manager host now w).0 ≡ ok tt
      → IsAtRest (open_manager host now w).1.memory
  unfolding open_manager
  open_manager-IsAtRest now w h =
      ensured (λ _ v. IsAtRest v.memory) (create_directory host) _ w tt
        (λ _ _ h1.
          ensured (λ _ v. IsAtRest v.memory) (create_directory host) _ _ tt
            (λ _ _ h2.
              ensured (λ _ v. IsAtRest v.memory) (create_directory host) _ _ tt
                (λ _ _ h3.
                  ensured (λ _ v. IsAtRest v.memory) (create_directory host) _ _ tt
                    (λ _ _ h4.
                      ensured (λ _ v. IsAtRest v.memory) (create_directory host) _ _ tt
                        (λ _ _ h5. loaded-IsAtRest now _ h5) h4)
                    h3)
                h2)
            h1)
        h
