-- ===== src/Supervisor/Install/Durable.antt =====
-- What a success of install_operation.rs leaves on the disk.
use audio_down_core.Base.{
  not, ◌&&◌, Option, none, some, List, [], ◌∷◌, ◌≡◌, refl, sym, ◌∙◌, subst, ap, ok, arith,
}
use Prim.Native.Nat.{compare}
use audio_down_core.Base.Map.{Map, get, insert, adjust, remove, get-insert, get-adjust, get-remove}
use audio_down_core.Base.Order.{nat_cmp-IsLawful}
use audio_down_core.Base.Stateful.{pure, modify, ◌>>◌, >>=-ok, guarded-ok}
use audio_down_core.Base.Text.{Text}
use audio_down_core.Domain.PluginId.{PluginId, plugin_id_eq}
use audio_down_core.Supervisor.Protocol.{
  Uuid, PluginInstallOperation, PluginInstallOperationState, is_terminal, state_beq,
}
use audio_down_core.Supervisor.Install.State.{
  StoredOperation, World, Host, Disk, DateTime, Bytes, invalid_transition,
}
use audio_down_core.Supervisor.Install.Files.{access, write_record, persist_record, remove_record}
use audio_down_core.Supervisor.Install.Sections.{
  write_back, set_state, remove_expired, keep, forgotten, moved, cleanup_acknowledged, expired_ids,
}
use audio_down_core.Supervisor.Install.Steps.{
  persist_record-memory, remove_record-memory, matching-ok,
}
use audio_down_core.Supervisor.Install.Restart.{IsKeyed}

abbrev pub encoded : Host → Option StoredOperation → Option Bytes
encoded host none = none
encoded host (some stored) = host.encode_record stored

-- The directory of the records holds, for each ID, the record of the operation in memory, and none
-- for an ID without one.
abbrev pub IsDurable : Host → World → Type 0
IsDurable host w =
    (id : Uuid) → get compare id w.disk.records ≡ encoded host (get compare id w.memory.operations)

module _ (host : Host) where
  access-ok :
      (whole part : Disk → Disk) (w : World)
      → (access host whole part w).0 ≡ ok tt
      → (access host whole part w).1.disk ≡ whole w.disk
  unfolding access
  access-ok whole part w h = ground arith

  write_record-ok :
      (id : Uuid) (o : Option Bytes) (w : World)
      → (write_record host id o w).0 ≡ ok tt
      → (bytes : Bytes) × (o ≡ some bytes)
        × ((write_record host id o w).1.disk.records ≡ insert compare id bytes w.disk.records)
  write_record-ok id none w h = absurd (cc)
  write_record-ok id (some bytes) w h =
      (bytes, refl, ap (λ (d : Disk). d.records) (access-ok _ _ w h))

  persist_record-ok :
      (stored : StoredOperation) (w : World)
      → (persist_record host stored w).0 ≡ ok tt
      → (bytes : Bytes) × (host.encode_record stored ≡ some bytes)
        × ((persist_record host stored w).1.disk.records
            ≡ insert compare stored.operation.operation_id bytes w.disk.records)
  unfolding persist_record
  persist_record-ok stored w h =
      write_record-ok stored.operation.operation_id (host.encode_record stored) w h

  remove_record-ok :
      (id : Uuid) (w : World)
      → (remove_record host id w).0 ≡ ok tt
      → (remove_record host id w).1.disk.records ≡ remove compare id w.disk.records
  unfolding remove_record
  remove_record-ok id w h =
      ap (λ (d : Disk). d.records)
        (access-ok (λ d. record d { records = remove compare id d.records }) (λ d. d) w h)

  -- A record written for the operation that is written, or removed with it.
  module _ (id : Uuid) (records : Map Uuid Bytes) (operations : Map Uuid StoredOperation)
      (durable : (j : Uuid) → get compare j records ≡ encoded host (get compare j operations)) where
    adjusted-match :
        (old new : StoredOperation) (bytes : Bytes)
        → get compare id operations ≡ some old
        → new.operation.operation_id ≡ id
        → host.encode_record new ≡ some bytes
        → (j : Uuid)
        → get compare j (insert compare new.operation.operation_id bytes records)
          ≡ encoded host (get compare j (adjust compare id new operations))
    adjusted-match old new bytes found named enc j = ground (
      arith,
      durable j,
      get-insert compare nat_cmp-IsLawful j new.operation.operation_id bytes records,
      get-adjust compare nat_cmp-IsLawful j id new old operations found,
    )

    removed-match :
        (j : Uuid)
        → get compare j (remove compare id records)
          ≡ encoded host (get compare j (remove compare id operations))
    removed-match j = ground (
      arith,
      durable j,
      get-remove compare nat_cmp-IsLawful j id records,
      get-remove compare nat_cmp-IsLawful j id operations,
    )

  write_back-IsDurable :
      (id : Uuid) (old new : StoredOperation) (w : World) (result : PluginInstallOperation)
      → get compare id w.memory.operations ≡ some old
      → new.operation.operation_id ≡ id
      → IsDurable host w
      → (write_back host id new w).0 ≡ ok result
      → IsDurable host (write_back host id new w).1
  unfolding write_back
  write_back-IsDurable id old new w result found named durable h =
      let (u, e, same) =
        >>=-ok (persist_record host new) (λ _. pure new.operation) (keep id new w) result h in
      let (bytes, enc, recs) = persist_record-ok new (keep id new w) e in
      let memo = persist_record-memory host new (keep id new w) in
      λ j.
        ap (λ r. get compare j r.1.disk.records) same
        ∙ ap (get compare j) recs
        ∙ adjusted-match id w.disk.records w.memory.operations durable old new bytes found named enc
            j
        ∙ sym
            (ap (λ m. encoded host (get compare j m.operations)) (ap (λ r. r.1.memory) same ∙ memo))

  -- A change of state that succeeds is on the disk.
  pub set_state-IsDurable :
      (plugin_id : PluginId) (id : Uuid) (target : PluginInstallOperationState) (code : Option Text)
      (now : DateTime) (w : World) (result : PluginInstallOperation)
      → IsKeyed w.memory
      → IsDurable host w
      → (set_state host plugin_id id target code now w).0 ≡ ok result
      → IsDurable host (set_state host plugin_id id target code now w).1
  unfolding set_state
  set_state-IsDurable plugin_id id target code now w result keyed durable h =
      let (stored, e, mine, same) = matching-ok plugin_id id _ w result h in
      let new = moved target code now stored in
      let (unmet, passed) =
        guarded-ok
          (is_terminal stored.operation.state && not (state_beq stored.operation.state target))
          invalid_transition (write_back host id new) w result (sym (ap (λ r. r.0) same) ∙ h) in
      subst (λ r. IsDurable host r.1) (sym (same ∙ passed))
        (write_back-IsDurable id stored new w result e (keyed id stored e) durable
          (sym (ap (λ r. r.0) (same ∙ passed)) ∙ h))

  -- The records of operations that are cleaned up leave the disk with them.
  pub remove_expired-IsDurable :
      (ids : List Uuid) (w : World)
      → IsDurable host w
      → (remove_expired host ids w).0 ≡ ok tt
      → IsDurable host (remove_expired host ids w).1
  unfolding remove_expired
  remove_expired-IsDurable [] w durable h = durable
  remove_expired-IsDurable (id ∷ ids) w durable h =
      let (u, e, same) =
        >>=-ok (remove_record host id) (λ _. modify (forgotten id) >> remove_expired host ids) w tt
          h in
      let v = forgotten id (remove_record host id w).1 in
      let smaller : IsDurable host v = λ j.
        ap (get compare j) (remove_record-ok id w e)
        ∙ removed-match id w.disk.records w.memory.operations durable j
        ∙ sym (
            ap (λ m. encoded host (get compare j (remove compare id m.operations)))
              (remove_record-memory host id w)) in
      subst (λ r. IsDurable host r.1) (sym same)
        (remove_expired-IsDurable ids v smaller (sym (ap (λ r. r.0) same) ∙ h))

  -- A cleanup that succeeds removes the records of what it forgets, and no other.
  pub cleanup_acknowledged-IsDurable :
      (now : DateTime) (w : World)
      → IsDurable host w
      → (cleanup_acknowledged host now w).0 ≡ ok tt
      → IsDurable host (cleanup_acknowledged host now w).1
  unfolding cleanup_acknowledged
  cleanup_acknowledged-IsDurable now w durable h =
      remove_expired-IsDurable (expired_ids now w.memory.operations) w durable h
