-- ===== src/Supervisor/Install/Restart.antt =====
-- What `reconcile_restart` leaves of the operations that a crash interrupted.
use audio_down_core.Base.{
  Bool, true, false, not, ◌&&◌, ◌≢◌, none, some, List, [], ◌∷◌, ◌≡◌, refl, sym, ◌∙◌, subst, ap, ok,
  arith, inl, inr, Bool-cases, map,
}
use Prim.Native.Nat.{compare}
use audio_down_core.Base.Map.{Map, get, values, get-insert, get-adjust, get-remove}
use audio_down_core.Base.Order.{nat_cmp-IsLawful, is_eq}
use audio_down_core.Supervisor.Protocol.{
  Uuid, PluginInstallOperation, PluginInstallOperationState, accepted, building, built, finalized,
  failed, aborted, is_terminal, state_beq, PluginBuildLog,
}
use audio_down_core.Supervisor.Install.State.{
  StoredOperation, OperationState, World, Host, DateTime, invalid_transition,
}
use audio_down_core.Base.Stateful.{pure, >>=-ok}
use audio_down_core.Base.Text.{Text}
use audio_down_core.Domain.PluginId.{PluginId}
use audio_down_core.Supervisor.Install.Sections.{write_back, set_failed, set_state, failed_with}
use audio_down_core.Supervisor.Install.Lifecycle.Opening.{
  discard_files, discard_interrupted, reconcile_as, reconcile_all, reconcile_restart,
  restart_error_code,
}
use audio_down_core.Supervisor.Install.Lifecycle.{finalize}
use audio_down_core.Supervisor.Install.Composed.{finalize-Follows}
use audio_down_core.Supervisor.Install.Composed.Opening.{
  discard_files-IsQuiet, reconcile_as-Simulates,
}
use mathlib.Core.List.{Memᴰ}
use mathlib.Core.List.Memᴰ
use audio_down_core.Supervisor.Install.Steps.{
  Step, number, accept, change, forget, Steps, here, next, IsPreorder, Follows, Follows-bind,
  matching-Follows, guarded-Follows, write_back-memory, matching-ok,
}

-- Every operation stands under its own ID.
abbrev pub IsKeyed : OperationState → Type 0
IsKeyed m =
    (id : Uuid) (stored : StoredOperation)
    → get compare id m.operations ≡ some stored
    → stored.operation.operation_id ≡ id

pub Step-IsKeyed : (m m' : OperationState) → Step m m' → IsKeyed m → IsKeyed m'
Step-IsKeyed m m' (number e) h = subst IsKeyed (sym e) h
Step-IsKeyed m m' (accept id stored fresh idle room state ack named e) h =
    subst IsKeyed (sym e)
      (λ j s k. ground (arith, get-insert compare nat_cmp-IsLawful j id stored m.operations, h j s))
Step-IsKeyed m m' (change id old new found c e) h = subst IsKeyed (sym e) (λ j s k. ground (
  arith,
  get-adjust compare nat_cmp-IsLawful j id new old m.operations found,
  h j s,
  h id old found,
  c.same_id,
))
Step-IsKeyed m m' (forget id e) h =
    subst IsKeyed (sym e)
      (λ j s k. ground (arith, get-remove compare nat_cmp-IsLawful j id m.operations, h j s))

pub Steps-IsKeyed : (m m' : OperationState) → Steps m m' → IsKeyed m → IsKeyed m'
Steps-IsKeyed m m' here h = h
Steps-IsKeyed m m' (next s rest) h = Steps-IsKeyed _ m' rest (Step-IsKeyed m _ s h)

abbrev pub is_interrupted : PluginInstallOperationState → Bool
is_interrupted accepted = true
is_interrupted building = true
is_interrupted _ = false

-- No operation is interrupted that was not there before.
abbrev pub Settles : OperationState → OperationState → Type 0
Settles m m' =
    (id : Uuid) (stored : StoredOperation)
    → get compare id m'.operations ≡ some stored
    → is_interrupted stored.operation.state ≡ true
    → get compare id m.operations ≡ some stored

pub Settles-IsPreorder : IsPreorder Settles
Settles-IsPreorder = record {
  of_eq = λ {m} e. subst (λ n. Settles m n) e (λ id stored k i. k);
  compose = λ first second id stored k i. first id stored (second id stored k i) i;
}

module _ (host : Host) where
  -- An operation that is written back in a state of rest.
  write_back-Settles :
      (id : Uuid) (old new : StoredOperation) (w : World)
      → get compare id w.memory.operations ≡ some old
      → is_interrupted new.operation.state ≡ false
      → Settles w.memory (write_back host id new w).1.memory
  write_back-Settles id old new w found rest =
      subst (λ m. Settles w.memory m) (sym (write_back-memory host id new w))
        (λ j s k i.
          ground
            (arith, get-adjust compare nat_cmp-IsLawful j id new old w.memory.operations found))

  ends-Settles :
      (plugin_id : PluginId) (id : Uuid) (now : DateTime)
      → Follows Settles (set_state host plugin_id id finalized none now)
  unfolding set_state
  ends-Settles plugin_id id now = matching-Follows Settles-IsPreorder plugin_id id _ (λ stored w e.
      guarded-Follows Settles-IsPreorder
        (is_terminal stored.operation.state && not (state_beq stored.operation.state finalized))
        invalid_transition _ w (λ b. write_back-Settles id stored _ w e refl))

  finalize-Settles :
      (plugin_id : PluginId) (id : Uuid) (now : DateTime)
      → Follows Settles (finalize host plugin_id id now)
  finalize-Settles = finalize-Follows host Settles-IsPreorder ends-Settles

  write_back-Clears :
      (id : Uuid) (old new : StoredOperation) (w : World)
      → get compare id w.memory.operations ≡ some old
      → is_interrupted new.operation.state ≡ false
      → (j : Uuid) (s : StoredOperation)
      → get compare j (write_back host id new w).1.memory.operations ≡ some s
      → is_interrupted s.operation.state ≡ true
      → (get compare j w.memory.operations ≡ some s) × (j ≢ id)
  write_back-Clears id old new w found rest j s k i =
      let kept = ap (λ m. get compare j m.operations) (sym (write_back-memory host id new w)) ∙ k in
      let written = get-adjust compare nat_cmp-IsLawful j id new old w.memory.operations found in
      (ground (arith, kept, written), λ equal. ground (arith, kept, written))

  -- A failure that was written: what is still interrupted is another operation.
  set_failed-Clears :
      (plugin_id : PluginId) (id : Uuid) (code : Text) (logs : List PluginBuildLog) (now : DateTime)
      (w : World) (done : PluginInstallOperation)
      → (set_failed host plugin_id id code logs now w).0 ≡ ok done
      → (j : Uuid) (s : StoredOperation)
      → get compare j (set_failed host plugin_id id code logs now w).1.memory.operations ≡ some s
      → is_interrupted s.operation.state ≡ true
      → (get compare j w.memory.operations ≡ some s) × (j ≢ id)
  unfolding set_failed
  set_failed-Clears plugin_id id code logs now w done h j s k i =
      let (stored, e, mine, same) = matching-ok plugin_id id _ w done h in
      write_back-Clears id stored (failed_with code logs now stored) w e refl j s
        (ap (λ r. get compare j r.1.memory.operations) (sym same) ∙ k) i

  -- What is still interrupted is in the list of what is left to do.
  ArePending : List PluginInstallOperation → OperationState → Type 0
  ArePending rest m =
      (id : Uuid) (stored : StoredOperation)
      → get compare id m.operations ≡ some stored
      → is_interrupted stored.operation.state ≡ true
      → Memᴰ stored.operation rest

  ArePending-discard :
      (operation : PluginInstallOperation) (rest : List PluginInstallOperation) (now : DateTime)
      (w : World)
      → IsKeyed w.memory
      → ArePending (operation ∷ rest) w.memory
      → (discard_interrupted host operation now w).0 ≡ ok tt
      → ArePending rest (discard_interrupted host operation now w).1.memory
  unfolding discard_interrupted ArePending
  ArePending-discard operation rest now w keyed pending h id stored k i =
      let (done, e, same) =
        >>=-ok
          (set_failed host operation.plugin_id operation.operation_id restart_error_code [] now)
          (λ _. discard_files host operation) w tt h in
      let before =
        ap (λ m. get compare id m.operations) (sym (discard_files-IsQuiet host operation _))
        ∙ ap (λ r. get compare id r.1.memory.operations) (sym same)
        ∙ k in
      let (old, other) =
        set_failed-Clears operation.plugin_id operation.operation_id restart_error_code [] now w
          done e id stored before i in
      elim_mem (pending id stored old i)
        (λ equal. other (sym (keyed id stored old) ∙ ap (λ o. o.operation_id) equal))
    where
      elim_mem :
          Memᴰ stored.operation (operation ∷ rest)
          → (stored.operation ≡ operation → ⊥)
          → Memᴰ stored.operation rest
      elim_mem (Memᴰ.head equal) other = absurd (other equal)
      elim_mem (Memᴰ.tail m) other = m

  -- An operation at rest was never among the interrupted ones.
  ArePending-rest :
      (operation : PluginInstallOperation) (rest : List PluginInstallOperation)
      (m m' : OperationState)
      → is_interrupted operation.state ≡ false
      → Settles m m'
      → ArePending (operation ∷ rest) m
      → ArePending rest m'
  unfolding ArePending
  ArePending-rest operation rest m m' still settles pending id stored k i =
      later (pending id stored (settles id stored k i) i)
    where
      later : Memᴰ stored.operation (operation ∷ rest) → Memᴰ stored.operation rest
      later (Memᴰ.head equal) =
          let same = ap (λ (o : PluginInstallOperation). is_interrupted o.state) equal in
          absurd (ground (arith, same))
      later (Memᴰ.tail m) = m

  ArePending-reconcile :
      (operation : PluginInstallOperation) (rest : List PluginInstallOperation) (now : DateTime)
      (w : World) (state : PluginInstallOperationState)
      → operation.state ≡ state
      → IsKeyed w.memory
      → ArePending (operation ∷ rest) w.memory
      → (reconcile_as host operation now state w).0 ≡ ok tt
      → ArePending rest (reconcile_as host operation now state w).1.memory
  unfolding reconcile_as
  ArePending-reconcile operation rest now w accepted e keyed pending h =
      ArePending-discard operation rest now w keyed pending h
  ArePending-reconcile operation rest now w building e keyed pending h =
      ArePending-discard operation rest now w keyed pending h
  ArePending-reconcile operation rest now w finalized e keyed pending h =
      ArePending-rest operation rest w.memory _ (ground arith)
        (Follows-bind Settles-IsPreorder
          (finalize host operation.plugin_id operation.operation_id now) (λ _. pure tt)
          (finalize-Settles operation.plugin_id operation.operation_id now) (λ _ v id stored k i. k)
          w)
        pending
  ArePending-reconcile operation rest now w built e keyed pending h =
      ArePending-rest operation rest w.memory _ (ground arith) (λ id stored k i. k) pending
  ArePending-reconcile operation rest now w failed e keyed pending h =
      ArePending-rest operation rest w.memory _ (ground arith) (λ id stored k i. k) pending
  ArePending-reconcile operation rest now w aborted e keyed pending h =
      ArePending-rest operation rest w.memory _ (ground arith) (λ id stored k i. k) pending

  reconcile_all-Clears :
      (operations : List PluginInstallOperation) (now : DateTime) (w : World)
      → IsKeyed w.memory
      → ArePending operations w.memory
      → (reconcile_all host operations now w).0 ≡ ok tt
      → ArePending [] (reconcile_all host operations now w).1.memory
  unfolding reconcile_all
  reconcile_all-Clears [] now w keyed pending h = pending
  reconcile_all-Clears (operation ∷ rest) now w keyed pending h =
      let (done, e, same) =
        >>=-ok (reconcile_as host operation now operation.state) (λ _. reconcile_all host rest now)
          w tt h in
      let v = (reconcile_as host operation now operation.state w).1 in
      subst (λ r. ArePending [] r.1.memory) (sym same)
        (reconcile_all-Clears rest now v
          (Steps-IsKeyed w.memory v.memory
            (reconcile_as-Simulates host operation now operation.state w) keyed)
          (ArePending-reconcile operation rest now w operation.state refl keyed pending e)
          (ap (λ r. r.0) (sym same) ∙ h))

Mem-of_get :
    (id : Uuid) (stored : StoredOperation) (m : Map Uuid StoredOperation)
    → get compare id m ≡ some stored
    → Memᴰ stored.operation (map (λ (s : StoredOperation). s.operation) (values m))
Mem-of_get id stored [] h = absurd (cc)
Mem-of_get id stored (e ∷ m) h = elim (Bool-cases (is_eq (compare id e.0))) [
  | inl found ↦ Memᴰ.head (ground arith)
  | inr missed ↦ Memᴰ.tail (Mem-of_get id stored m (ground arith))
]

-- When `reconcile_restart` succeeds, no operation is Accepted or Building any more, provided that
-- each stood under its own ID.
pub reconcile_restart-Clears :
    (host : Host) (now : DateTime) (w : World)
    → IsKeyed w.memory
    → (reconcile_restart host now w).0 ≡ ok tt
    → (id : Uuid) (stored : StoredOperation)
    → get compare id (reconcile_restart host now w).1.memory.operations ≡ some stored
    → is_interrupted stored.operation.state ≡ false
unfolding reconcile_restart ArePending
reconcile_restart-Clears host now w keyed h id stored k =
    elim (Bool-cases (is_interrupted stored.operation.state)) [
      | inr rest ↦ rest
      | inl interrupted ↦ absurd (
          Memᴰ.not-nil (
            reconcile_all-Clears host
              (map (λ (s : StoredOperation). s.operation) (values w.memory.operations)) now w keyed
              (λ j s e i. Mem-of_get j s w.memory.operations e) h id stored k interrupted))
    ]
