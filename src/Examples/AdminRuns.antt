-- ===== src/Examples/AdminRuns.antt =====
-- Runs of the administrator's entry points and of the guard.
use lumenflow_contracts.Action.{is_ok, left_by, ok}
use lumenflow_contracts.Admin.Handlers.{unpause_contract, approve_early_unpause, pause_with_reason}
use lumenflow_contracts.Admin.Timelock.{IsTally, approve_early_unpause_lem, pause_with_reason_lem}
use lumenflow_contracts.Base.{
  List, [], arith, contains, false, length, push_back, nat_eq, none, refl, some, string_eq, true,
  ◌↔◌, ◌∷◌, ◌≡◌, ◌⊎◌,
}
use lumenflow_contracts.Base.Dict.{del, lookup}
use lumenflow_contracts.Examples.Scene.{empty_world, host_at}
use lumenflow_contracts.Guards.{
  clear_auth_fail_count, is_auth_locked_out, require_admin_rate_limited,
}
use lumenflow_contracts.Guards.Rollback.{after_attempts, attempts_never_lock}
use lumenflow_contracts.Guards.{get_auth_fail_count}
use lumenflow_contracts.Types.{Address}
use lumenflow_contracts.Host.{Env}
use lumenflow_contracts.Guards.Access.{require_admin_rate_limited_lem}
use lumenflow_contracts.Storage.{
  World, get_admin, get_early_unpause_approvals, get_pause_guardians, get_paused,
  get_unpause_lock_until,
}

abbrev stopped_world : World
stopped_world = left_by empty_world (pause_with_reason 1 "incident" (host_at 50) empty_world)

pause_run : pause_with_reason 1 "incident" (host_at 50) empty_world ≡ ok tt stopped_world
unfolding pause_with_reason lookup del
pause_run = refl

pause_with_reason_example :
    (get_paused stopped_world ≡ true)
    × (get_early_unpause_approvals stopped_world ≡ [])
    × (get_unpause_lock_until stopped_world ≡ some 604850)
    × (is_ok (unpause_contract 1 (host_at 604849) stopped_world) ≡ false)
pause_with_reason_example =
    pause_with_reason_lem 1 1 "incident" (host_at 50) (host_at 604849) empty_world stopped_world
      pause_run (omega arith)

abbrev two_approvals : World
two_approvals = record stopped_world {
  pause = record (stopped_world.pause) {
    pause_guardians = 11 ∷ 12 ∷ 13 ∷ 14 ∷ 15 ∷ [];
    early_unpause_approvals = 11 ∷ 12 ∷ [];
  };
}

abbrev lifted_world : World
lifted_world = left_by two_approvals (approve_early_unpause 13 (host_at 60) two_approvals)

approve_run : approve_early_unpause 13 (host_at 60) two_approvals ≡ ok tt lifted_world
unfolding approve_early_unpause pause_with_reason lookup del
approve_run = refl

approve_early_unpause_example :
    (true ≡ true)
    × (contains (get_pause_guardians two_approvals) 13 ≡ true)
    × (contains (get_early_unpause_approvals two_approvals) 13 ≡ false)
    × IsTally lifted_world
    × (((get_early_unpause_approvals lifted_world
            ≡ push_back (get_early_unpause_approvals two_approvals) 13)
          × (get_paused lifted_world ≡ get_paused two_approvals)
          × (get_unpause_lock_until lifted_world ≡ get_unpause_lock_until two_approvals))
        ⊎ ((length (get_early_unpause_approvals two_approvals) ≡ 2)
            × (get_paused lifted_world ≡ false)
            × (get_unpause_lock_until lifted_world ≡ none)
            × (get_early_unpause_approvals lifted_world ≡ [])))
approve_early_unpause_example =
    approve_early_unpause_lem 13 (host_at 60) two_approvals lifted_world
      ((refl, (refl, tt)), omega arith) approve_run

require_admin_rate_limited_example :
    (require_admin_rate_limited 1 (host_at 50) empty_world
      ≡ ok tt (clear_auth_fail_count 1 empty_world))
    ↔ ((is_auth_locked_out 1 (host_at 50) empty_world ≡ false)
        × (true ≡ true)
        × (get_admin empty_world ≡ some 1)
        × (clear_auth_fail_count 1 empty_world ≡ clear_auth_fail_count 1 empty_world))
require_admin_rate_limited_example =
    require_admin_rate_limited_lem 1 (host_at 50) empty_world (clear_auth_fail_count 1 empty_world)

-- Ten failed attempts of one address.
abbrev ten_attempts : List (Address × Env)
ten_attempts =
    (5, host_at 50)
    ∷ (5, host_at 51)
    ∷ (5, host_at 52)
    ∷ (5, host_at 53)
    ∷ (5, host_at 54)
    ∷ (5, host_at 55)
    ∷ (5, host_at 56)
    ∷ (5, host_at 57)
    ∷ (5, host_at 58)
    ∷ (5, host_at 59)
    ∷ []

attempts_never_lock_example :
    (is_auth_locked_out 5 (host_at 60) (after_attempts ten_attempts empty_world) ≡ false)
    × ((get_auth_fail_count 5 (after_attempts ten_attempts empty_world) ≡ (0, 0))
        ⊎ (get_auth_fail_count 5 (after_attempts ten_attempts empty_world) ≡ (0, 0)))
unfolding lookup
attempts_never_lock_example = attempts_never_lock ten_attempts 5 (host_at 60) empty_world
