-- ===== src/Guards/Rollback.antt =====
-- The guard of the administrator's entry points as the host runs it: helper.rs records a failed check
-- and then returns an error, and the host undoes the writes of a call that returns one.
use lumenflow_contracts.Action.{Outcome, err, ok, trap}
use lumenflow_contracts.Base.{List, [], arith, inl, nat_eq, refl, string_eq, ◌∙◌, ◌∷◌, ◌≡◌, ◌⊎◌}
use lumenflow_contracts.Base.Dict.{lookup-del}
use lumenflow_contracts.Guards.Checks.{require_admin_rate_limited}
use lumenflow_contracts.Guards.Lockout.{get_auth_fail_count, is_auth_locked_out}
use lumenflow_contracts.Host.{Env}
use lumenflow_contracts.Storage.{World}
use lumenflow_contracts.Types.{Address}

-- What the host keeps of a call that began in `w`.
abbrev pub committed : {A : Type 0} → World → Outcome A → World
committed w (ok a w') = w'
committed w (err e w') = w
committed w trap = w

-- Attempts to pass the guard, one call of the host each.
unfoldable pub after_attempts : List (Address × Env) → World → World
after_attempts [] w = w
after_attempts ((a, env) ∷ rest) w =
    after_attempts rest (committed w (require_admin_rate_limited a env w))

-- No address has become locked out, and the failures of `b` are as they were or forgotten.
pub record IsUncounted (b : Address) (w w' : World) : Type 0 where
  pub lockouts : w'.auth.auth_lockouts ≡ w.auth.auth_lockouts
  pub failures :
      (get_auth_fail_count b w' ≡ get_auth_fail_count b w) ⊎ (get_auth_fail_count b w' ≡ (0, 0))

IsUncounted-trans :
    (b : Address) (u v w : World) → IsUncounted b u v → IsUncounted b v w → IsUncounted b u w
IsUncounted-trans b u v w first second = record {
  lockouts = second.lockouts ∙ first.lockouts;
  failures = ground (arith, first.failures, second.failures);
}

require_admin_rate_limited-IsUncounted :
    (a b : Address) (env : Env) (w : World)
    → IsUncounted b w (committed w (require_admin_rate_limited a env w))
unfolding require_admin_rate_limited
require_admin_rate_limited-IsUncounted a b env w = record {
  lockouts = ground arith;
  failures = ground (arith, lookup-del b a w.auth.auth_fail_counts);
}

after_attempts-IsUncounted :
    (attempts : List (Address × Env)) (b : Address) (w : World)
    → IsUncounted b w (after_attempts attempts w)
unfolding after_attempts
after_attempts-IsUncounted [] b w = record { lockouts = refl; failures = inl refl }
after_attempts-IsUncounted ((a, env) ∷ rest) b w =
    let next = committed w (require_admin_rate_limited a env w) in
    IsUncounted-trans b w next (after_attempts rest next)
      (require_admin_rate_limited-IsUncounted a b env w) (after_attempts-IsUncounted rest b next)

-- However often anybody tries to pass the guard, where the host undoes the writes of a call that
-- returns an error: an address is locked out afterwards if and only if it was, at any time, and its count of
-- failures is what it was, or none at all. So failing the check does not lead to a lockout.
pub attempts_never_lock :
    (attempts : List (Address × Env)) (b : Address) (later : Env) (w : World)
    → (is_auth_locked_out b later (after_attempts attempts w) ≡ is_auth_locked_out b later w)
      × ((get_auth_fail_count b (after_attempts attempts w) ≡ get_auth_fail_count b w)
          ⊎ (get_auth_fail_count b (after_attempts attempts w) ≡ (0, 0)))
attempts_never_lock attempts b later w =
    let kept = after_attempts-IsUncounted attempts b w in (rw kept.lockouts refl, kept.failures)
