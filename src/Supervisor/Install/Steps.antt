-- ===== src/Supervisor/Install/Steps.antt =====
-- The changes that install_operation.rs may make to the operations in memory, as far as the bounds on
-- them need it, and sequences of such changes.
use audio_down_core.Base.{
  ◌<◌, Bool, true, false, Option, none, some, ◌≡◌, refl, sym, ◌∙◌, subst, any, Result, ok, err,
  arith, inl, inr, Bool-cases, Option-cases, ap, ◌==◌, eq_iff, ◌⊎◌,
}
use Prim.Native.Nat.{compare}
use audio_down_core.Base.Map.{get, insert, adjust, remove, values, count}
use audio_down_core.Base.Stateful.{fail_when, ◌>>=◌, ◌>>◌, resume, state-pure}
use audio_down_core.Domain.PluginId.{PluginId, plugin_id_eq}
use audio_down_core.Supervisor.Protocol.{
  Uuid, PluginInstallOperationState, accepted, failed, is_terminal,
}
use audio_down_core.Supervisor.Install.State.{
  StoredOperation, OperationState, World, Host, Disk, saturating_succ,
  max_unacknowledged_operations, InstallOperationError, Bytes, not_found,
}
use audio_down_core.Supervisor.Install.Files.{
  Action, access, write_record, remove_record, persist_record,
}
use audio_down_core.Supervisor.Install.Sections.{
  is_active, is_unacknowledged, matching_operation, keep, write_back,
}

-- From which state an operation comes to which: from any to any until it has ended, and to Failed
-- even then.
pub data Transition : PluginInstallOperationState → PluginInstallOperationState → Type 0 where
  stay : {s : PluginInstallOperationState} → Transition s s
  move : {s t : PluginInstallOperationState} → is_terminal s ≡ false → Transition s t
  fail : {s : PluginInstallOperationState} → Transition s failed

-- What may change in an operation: not whose it is, nor an acknowledgement.
pub record IsChange (old new : StoredOperation) : Type 0 where
  pub same_id : new.operation.operation_id ≡ old.operation.operation_id
  pub same_plugin : new.operation.plugin_id ≡ old.operation.plugin_id
  pub same_sequence : new.sequence ≡ old.sequence
  pub same_owner : new.installation_id ≡ old.installation_id
  pub transition : Transition old.operation.state new.operation.state
  pub still_acknowledged : old.operation.acknowledged ≡ true → new.operation.acknowledged ≡ true
  pub acknowledged_late :
      new.operation.acknowledged ≡ true
      → old.operation.acknowledged ≡ false
      → is_terminal old.operation.state ≡ true

-- The steps: a sequence number is used up, an operation is accepted, changed or forgotten.
pub data Step (m m' : OperationState) : Type 0 where
  number : m' ≡ record m { next_sequence = saturating_succ m.next_sequence } → Step m m'
  accept :
      (id : Uuid) (stored : StoredOperation)
      → get compare id m.operations ≡ none
      → any is_active (values m.operations) ≡ false
      → count is_unacknowledged (values m.operations) < max_unacknowledged_operations
      → stored.operation.state ≡ accepted
      → stored.operation.acknowledged ≡ false
      → stored.operation.operation_id ≡ id
      → m' ≡ record m { operations = insert compare id stored m.operations }
      → Step m m'
  change :
      (id : Uuid) (old new : StoredOperation)
      → get compare id m.operations ≡ some old
      → IsChange old new
      → m' ≡ record m { operations = adjust compare id new m.operations }
      → Step m m'
  forget : (id : Uuid) → m' ≡ record m { operations = remove compare id m.operations } → Step m m'

pub data Steps : OperationState → OperationState → Type 0 where
  here : {m : OperationState} → Steps m m
  next : {m n o : OperationState} → Step m n → Steps n o → Steps m o

pub Steps-trans : {m n o : OperationState} → Steps m n → Steps n o → Steps m o
Steps-trans here t = t
Steps-trans (next s rest) t = next s (Steps-trans rest t)

pub Steps-one : {m n : OperationState} → Step m n → Steps m n
Steps-one s = next s here

pub Steps-of_eq : {m n : OperationState} → m ≡ n → Steps m n
Steps-of_eq {m} e = subst (λ n. Steps m n) e here

-- A relation on what is before and after a method.
pub record IsPreorder (R : OperationState → OperationState → Type 0) : Type 0 where
  pub of_eq : {m n : OperationState} → m ≡ n → R m n
  pub compose : {m n o : OperationState} → R m n → R n o → R m o

abbrev pub Follows : (OperationState → OperationState → Type 0) → {A : Type 0} → Action A → Type 0
Follows R action = (w : World) → R w.memory (action w).1.memory

module _ {A B : Type 0} {R : OperationState → OperationState → Type 0} (order : IsPreorder R) where
  pub Follows-bind :
      (m : Action A) (f : A → Action B)
      → Follows R m
      → ((a : A) → Follows R (f a))
      → Follows R (m >>= f)
  Follows-bind m f km kf w = order.compose (km w) (later (m w).0 (m w).1)
    where
      later : (r : Result A InstallOperationError) (v : World) → R v.memory (resume f r v).1.memory
      later (ok a) v = kf a v
      later (err e) v = order.of_eq refl

  -- A method that leaves the memory alone, and then another.
  pub Follows-after :
      (m : Action A) (f : A → Action B)
      → ((w : World) → (m w).1.memory ≡ w.memory)
      → ((a : A) → Follows R (f a))
      → Follows R (m >>= f)
  Follows-after m f hm hf = Follows-bind m f (λ w. order.of_eq (sym (hm w))) hf

pub Steps-IsPreorder : IsPreorder Steps
Steps-IsPreorder = record { of_eq = λ e. Steps-of_eq e; compose = λ s t. Steps-trans s t }

-- A method whose effect on the memory is a sequence of steps.
abbrev pub Simulates : {A : Type 0} → Action A → Type 0
Simulates action = Follows Steps action

module _ {A B : Type 0} where
  pub Simulates-bind :
      (m : Action A) (f : A → Action B)
      → Simulates m
      → ((a : A) → Simulates (f a))
      → Simulates (m >>= f)
  Simulates-bind m f km kf = Follows-bind Steps-IsPreorder m f km kf

module _ {A B : Type 0} where
  -- A method that leaves the memory alone, and then another.
  pub unchanged-then :
      (m : Action A)
      → ((w : World) → (m w).1.memory ≡ w.memory)
      → (f : A → Action B) (w : World)
      → ((a : A) (v : World) → v.memory ≡ w.memory → Steps v.memory (f a v).1.memory)
      → Steps w.memory ((m >>= f) w).1.memory
  unchanged-then m same f w h =
      subst (λ n. Steps n ((m >>= f) w).1.memory) (same w) (later (m w).0 (m w).1 (same w))
    where
      later :
          (r : Result A InstallOperationError) (v : World)
          → v.memory ≡ w.memory
          → Steps v.memory (resume f r v).1.memory
      later (ok a) v e = h a v e
      later (err e) v k = here

module _ (host : Host) where
  pub access-memory :
      (whole part : Disk → Disk) (w : World) → (access host whole part w).1.memory ≡ w.memory
  unfolding access
  access-memory whole part w = ground arith

  pub remove_record-memory : (id : Uuid) (w : World) → (remove_record host id w).1.memory ≡ w.memory
  unfolding remove_record access
  remove_record-memory id w = ground arith

  pub write_record-memory :
      (id : Uuid) (bytes : Option Bytes) (w : World)
      → (write_record host id bytes w).1.memory ≡ w.memory
  write_record-memory id none w = refl
  write_record-memory id (some bytes) w = access-memory _ _ w

  pub persist_record-memory :
      (stored : StoredOperation) (w : World) → (persist_record host stored w).1.memory ≡ w.memory
  unfolding persist_record
  persist_record-memory stored w =
      write_record-memory stored.operation.operation_id (host.encode_record stored) w

  pub write_back-memory :
      (id : Uuid) (stored : StoredOperation) (w : World)
      → (write_back host id stored w).1.memory ≡ (keep id stored w).memory
  unfolding write_back
  write_back-memory id stored w =
      ap (λ (v : World). v.memory)
        (state-pure (persist_record host stored) stored.operation (keep id stored w))
      ∙ persist_record-memory stored (keep id stored w)

  pub write_back-Steps :
      (id : Uuid) (old new : StoredOperation) (w : World)
      → get compare id w.memory.operations ≡ some old
      → IsChange old new
      → Steps w.memory (write_back host id new w).1.memory
  write_back-Steps id old new w e c = Steps-one (change id old new e c (write_back-memory id new w))

-- An operation is found by its ID and its plugin, or there is an error.
pub matching_operation-cases :
    (plugin_id : PluginId) (id : Uuid) (w : World)
    → ((stored : StoredOperation) × (get compare id w.memory.operations ≡ some stored)
        × (stored.operation.plugin_id ≡ plugin_id)
        × (matching_operation plugin_id id w ≡ (ok stored, w)))
      ⊎ (matching_operation plugin_id id w ≡ (err not_found, w))
unfolding matching_operation
matching_operation-cases plugin_id id w = elim (Option-cases (get compare id w.memory.operations)) [
  | inl missing ↦ inr (ground arith)
  | inr (stored, e) ↦ elim (Bool-cases (stored.operation.plugin_id == plugin_id)) [
    | inl mine ↦ inl (stored, e, (eq_iff stored.operation.plugin_id plugin_id).0 mine, ground arith)
    | inr other ↦ inr (ground arith)
  ]
]

pub matching-ok :
    {B : Type 0} (plugin_id : PluginId) (id : Uuid) (f : StoredOperation → Action B) (w : World)
    (b : B)
    → ((matching_operation plugin_id id >>= f) w).0 ≡ ok b
    → (stored : StoredOperation) × (get compare id w.memory.operations ≡ some stored)
      × (stored.operation.plugin_id ≡ plugin_id)
      × ((matching_operation plugin_id id >>= f) w ≡ f stored w)
matching-ok plugin_id id f w b h = elim (matching_operation-cases plugin_id id w) [
  | inr missing ↦
      let lost : (resume f (err not_found) w).0 ≡ ok b =
        subst (λ r. (resume f r.0 r.1).0 ≡ ok b) missing h in
      absurd (cc)
  | inl (stored, e, mine, found) ↦ (stored, e, mine, ap (λ r. resume f r.0 r.1) found)
]

module _ {R : OperationState → OperationState → Type 0} (order : IsPreorder R) where
  pub matching-Follows :
      {B : Type 0} (plugin_id : PluginId) (id : Uuid) (f : StoredOperation → Action B)
      → ((stored : StoredOperation) (w : World)
          → get compare id w.memory.operations ≡ some stored
          → R w.memory (f stored w).1.memory)
      → Follows R (matching_operation plugin_id id >>= f)
  matching-Follows plugin_id id f h w = elim (matching_operation-cases plugin_id id w) [
    | inr missing ↦
        subst (λ r. R w.memory (resume f r.0 r.1).1.memory) (sym missing) (order.of_eq refl)
    | inl (stored, e, mine, found) ↦
        subst (λ r. R w.memory (resume f r.0 r.1).1.memory) (sym found) (h stored w e)
  ]

  pub guarded-Follows :
      {B : Type 0} (b : Bool) (cause : InstallOperationError) (k : Action B) (w : World)
      → (b ≡ false → R w.memory (k w).1.memory)
      → R w.memory ((fail_when b cause >> k) w).1.memory
  guarded-Follows true cause k w h = order.of_eq refl
  guarded-Follows false cause k w h = h refl
