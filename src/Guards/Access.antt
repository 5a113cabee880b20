-- ===== src/Guards/Access.antt =====
-- Who passes the guard of the administrator's entry points.
use lumenflow_contracts.Action.{ok}
use lumenflow_contracts.Base.{arith, false, nat_eq, some, string_eq, true, ◌↔◌, ◌≡◌}
use lumenflow_contracts.Guards.Checks.{require_admin_rate_limited}
use lumenflow_contracts.Guards.Lockout.{clear_auth_fail_count, is_auth_locked_out}
use lumenflow_contracts.Host.{Env}
use lumenflow_contracts.Storage.{World, get_admin}
use lumenflow_contracts.Types.{Address}

-- The guard passes exactly when the caller is not locked out, has signed and is the administrator,
-- and then the caller's count of failures is cleared and nothing else changes.
pub require_admin_rate_limited_lem :
    (a : Address) (env : Env) (w w' : World)
    → (require_admin_rate_limited a env w ≡ ok tt w') ↔ (
        (is_auth_locked_out a env w ≡ false)
        × (env.authorized a ≡ true)
        × (get_admin w ≡ some a)
        × (w' ≡ clear_auth_fail_count a w))
unfolding require_admin_rate_limited
require_admin_rate_limited_lem a env w w' = (
  λ done. (ground arith, ground arith, ground arith, ground arith),
  λ h. ground (arith, h.0, h.1, h.2, h.3),
)
