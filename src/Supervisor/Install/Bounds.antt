-- ===== src/Supervisor/Install/Bounds.antt =====
-- The bounds that install_operation.rs keeps on the operations in memory.
use audio_down_core.Base.{ℕ, ◌≤◌, Bool, true, some, ◌≡◌, refl, sym, subst, All, arith}
use Prim.Native.Nat.{compare}
use audio_down_core.Base.Map.{
  Map, get, adjust, values, count, count-insert_new, count-adjust, count-remove-le, All-insert,
  All-adjust, All-remove, All-get, count_of_any,
}
use audio_down_core.Supervisor.Protocol.{PluginInstallOperationState, is_terminal}
use audio_down_core.Supervisor.Install.State.{
  StoredOperation, OperationState, max_unacknowledged_operations,
}
use audio_down_core.Supervisor.Install.Sections.{is_active, is_unacknowledged}
use audio_down_core.Supervisor.Install.Steps.{
  Transition, stay, move, fail, IsChange, Step, number, accept, change, forget, Steps, here, next,
}

-- Only an operation that has ended is acknowledged.
abbrev pub IsSettled : StoredOperation → Type 0
IsSettled stored = stored.operation.acknowledged ≡ true → is_terminal stored.operation.state ≡ true

-- At most one build is on its way, and at most 256 operations wait for an acknowledgement.
abbrev pub IsSound : OperationState → Type 0
IsSound m =
    (count is_active (values m.operations) ≤ 1)
    × (count is_unacknowledged (values m.operations) ≤ max_unacknowledged_operations)
    × All IsSettled (values m.operations)

-- What has ended stays ended.
pub Transition-terminal :
    (s t : PluginInstallOperationState)
    → Transition s t
    → is_terminal s ≡ true
    → is_terminal t ≡ true
Transition-terminal s t stay h = h
Transition-terminal s t (move k) h = absurd (ground arith)
Transition-terminal s t fail h = refl

module _ (old new : StoredOperation) (c : IsChange old new) where
  pub is_active-change : is_active new ≡ true → is_active old ≡ true
  is_active-change h =
      ground (arith, Transition-terminal old.operation.state new.operation.state c.transition)

  is_unacknowledged-change : is_unacknowledged new ≡ true → is_unacknowledged old ≡ true
  is_unacknowledged-change h = ground (arith, c.still_acknowledged)

  IsSettled-change : IsSettled old → IsSettled new
  IsSettled-change settled a = ground (
    arith,
    settled,
    c.acknowledged_late,
    Transition-terminal old.operation.state new.operation.state c.transition,
  )

  count-change :
      (p : StoredOperation → Bool) (id : ℕ) (m : Map ℕ StoredOperation)
      → (p new ≡ true → p old ≡ true)
      → get compare id m ≡ some old
      → count p (values (adjust compare id new m)) ≤ count p (values m)
  count-change p id m h e = ground (arith, count-adjust compare p id new old m e)

pub Step-IsSound : (m m' : OperationState) → Step m m' → IsSound m → IsSound m'
Step-IsSound m m' (number e) h = subst IsSound (sym e) h
Step-IsSound m m' (accept id stored fresh idle room state ack named e) h = subst IsSound (sym e) (
  ground (
    arith,
    count-insert_new compare is_active id stored m.operations fresh,
    count_of_any is_active (values m.operations) idle,
  ),
  ground (arith, count-insert_new compare is_unacknowledged id stored m.operations fresh),
  All-insert compare IsSettled id stored m.operations (λ k. ground arith) h.2,
)
Step-IsSound m m' (change id old new found c e) h = subst IsSound (sym e) (
  ground
      (arith, count-change old new c is_active id m.operations (is_active-change old new c) found),
  ground (
    arith,
    count-change old new c is_unacknowledged id m.operations (is_unacknowledged-change old new c)
        found,
  ),
  All-adjust compare IsSettled id new m.operations
      (IsSettled-change old new c (All-get compare IsSettled id old m.operations found h.2)) h.2,
)
Step-IsSound m m' (forget id e) h = subst IsSound (sym e) (
  ground (arith, count-remove-le compare is_active id m.operations),
  ground (arith, count-remove-le compare is_unacknowledged id m.operations),
  All-remove compare IsSettled id m.operations h.2,
)

pub Steps-IsSound : (m m' : OperationState) → Steps m m' → IsSound m → IsSound m'
Steps-IsSound m m' here h = h
Steps-IsSound m m' (next s rest) h = Steps-IsSound _ m' rest (Step-IsSound m _ s h)
