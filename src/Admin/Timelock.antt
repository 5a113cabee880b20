-- ===== src/Admin/Timelock.antt =====
-- Who ends a pause, and when.
use lumenflow_contracts.Base.{
  Bool-cases, inl, inr, leb, length-push_back, List, contains, eqb, length, none, push_back, refl,
  ◌||◌, ◌∷◌, ◌⊎◌, String, [], arith, false, nat_eq, some, string_eq, true, ◌+◌, ◌<◌, ◌≡◌,
}
use lumenflow_contracts.Admin.Handlers.{
  unpause_contract, approve_early_unpause, early_unpause_threshold, pause_timelock_secs,
  pause_with_reason,
}
use lumenflow_contracts.Storage.{
  get_pause_guardians, World, get_early_unpause_approvals, get_paused, get_unpause_lock_until,
}
use lumenflow_contracts.Action.{is_ok, ok}
use lumenflow_contracts.Host.{Env}
use lumenflow_contracts.Types.{Address}

-- A pause with a reason pauses the contract, locks it for seven days and forgets earlier approvals;
-- in the state that it leaves, `unpause_contract` does not go through before the seven days are
-- over, whoever calls it.
pub pause_with_reason_lem :
    (admin someone : Address) (reason : String) (env later : Env) (w w' : World)
    → pause_with_reason admin reason env w ≡ ok tt w'
    → later.timestamp < env.timestamp + pause_timelock_secs
    → (get_paused w' ≡ true)
      × (get_early_unpause_approvals w' ≡ [])
      × (get_unpause_lock_until w' ≡ some (env.timestamp + pause_timelock_secs))
      × (is_ok (unpause_contract someone later w') ≡ false)
unfolding pause_with_reason unpause_contract
pause_with_reason_lem admin someone reason env later w w' done early =
    (ground arith, ground arith, ground arith, ground arith)

-- No address is in the list twice.
abbrev pub NoRepeat : List Address → Type 0
NoRepeat [] = Unit
NoRepeat (x ∷ xs) = (contains xs x ≡ false) × NoRepeat xs

-- Fewer than three addresses have approved, each of them once.
abbrev pub IsTally : World → Type 0
IsTally w =
    NoRepeat (get_early_unpause_approvals w)
    × (length (get_early_unpause_approvals w) < early_unpause_threshold)

contains-push_back :
    (a b : Address) (xs : List Address) → contains (push_back xs b) a ≡ (contains xs a || eqb b a)
contains-push_back a b [] = ground arith
contains-push_back a b (x ∷ xs) = ground (arith, contains-push_back a b xs)

push_back-NoRepeat :
    (b : Address) (xs : List Address)
    → NoRepeat xs
    → contains xs b ≡ false
    → NoRepeat (push_back xs b)
push_back-NoRepeat b [] d fresh = (refl, tt)
push_back-NoRepeat b (x ∷ xs) d fresh =
    (ground (arith, contains-push_back x b xs), push_back-NoRepeat b xs d.1 (ground arith))

-- Let the approvals be of different addresses and fewer than three. An approval that is accepted is
-- signed by a guardian who had not approved. Either the guardian is put at the end of the approvals,
-- which are otherwise as they were, and the pause and its lock are too; or there were two, and the
-- pause, its lock and the approvals are gone. The approvals stay of different addresses and fewer than
-- three.
pub approve_early_unpause_lem :
    (g : Address) (env : Env) (w w' : World)
    → IsTally w
    → approve_early_unpause g env w ≡ ok tt w'
    → (env.authorized g ≡ true)
      × (contains (get_pause_guardians w) g ≡ true)
      × (contains (get_early_unpause_approvals w) g ≡ false)
      × IsTally w'
      × (((get_early_unpause_approvals w' ≡ push_back (get_early_unpause_approvals w) g)
            × (get_paused w' ≡ get_paused w)
            × (get_unpause_lock_until w' ≡ get_unpause_lock_until w))
          ⊎ ((length (get_early_unpause_approvals w) ≡ 2)
              × (get_paused w' ≡ false)
              × (get_unpause_lock_until w' ≡ none)
              × (get_early_unpause_approvals w' ≡ [])))
unfolding approve_early_unpause
approve_early_unpause_lem g env w w' tally done =
    let xs = get_early_unpause_approvals w in
    let fresh : contains xs g ≡ false = ground arith in
    let n = length-push_back xs g in
    (
      ground arith,
      ground arith,
      fresh,
      elim (Bool-cases (leb early_unpause_threshold (length (push_back xs g)))) [
        | inl enough ↦
            let cleared : get_early_unpause_approvals w' ≡ [] = ground arith in
            rw cleared (tt, omega arith)
        | inr few ↦
            let kept : get_early_unpause_approvals w' ≡ push_back xs g = ground arith in
            rw kept (push_back-NoRepeat g xs tally.0 fresh, ground arith)
      ],
      ground (arith, n),
    )
