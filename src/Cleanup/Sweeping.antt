-- ===== src/Cleanup/Sweeping.antt =====
-- contracts/lumenflow/src/lib.rs, `cleanup_expired_payments`: its loops. What the function returns and
-- publishes after them are a variable and a type that no file defines, so the function itself does
-- not compile and is not modelled.
use lumenflow_contracts.Action.{Action, add_u32, ask, gets, ok, pure, ◌>>=◌, ◌>>◌}
use lumenflow_contracts.Base.{
  Bool, List, Option, String, [], false, if◌then◌else◌, ltb, nat_eq, none, some, string_eq, ℕ, ◌-◌,
  ◌∷◌,
}
use lumenflow_contracts.Guards.{require_admin_rate_limited, require_not_paused}
use lumenflow_contracts.Host.{Env}
use lumenflow_contracts.Storage.{
  World, get_cleanup_period, get_merchant_list, get_merchant_payment_ids, get_order_refund_ids,
  get_payment, remove_order_refund_index, remove_payment,
}
use lumenflow_contracts.Types.{Address, PaymentOrder}
use lumenflow_contracts.Cleanup.Handlers.{remove_refund}

-- `now.saturating_sub(cleanup_period)`
abbrev pub payment_cutoff : Env → World → ℕ
payment_cutoff env w = env.timestamp - get_cleanup_period w

abbrev pub is_expired : ℕ → Option PaymentOrder → Bool
is_expired cutoff none = false
is_expired cutoff (some p) = ltb p.paid_at cutoff

abbrev pub remove_refunds : List String → World → World
remove_refunds [] w = w
remove_refunds (rid ∷ rids) w = remove_refunds rids (remove_refund rid w)

-- The refunds of the payment, their index and the payment itself.
abbrev pub remove_with_refunds : String → World → World
remove_with_refunds id w =
    remove_payment id (remove_order_refund_index id (remove_refunds (get_order_refund_ids id w) w))

abbrev pub sweep_if : Bool → String → ℕ → Action ℕ
sweep_if expired id cleaned env w =
    if expired then add_u32 cleaned 1 env (remove_with_refunds id w) else ok cleaned w

unfoldable pub sweep_ids : ℕ → List String → ℕ → Action ℕ
sweep_ids cutoff [] cleaned = pure cleaned
sweep_ids cutoff (id ∷ ids) cleaned = do
  found ← gets (get_payment id)
  next ← sweep_if (is_expired cutoff found) id cleaned
  sweep_ids cutoff ids next

unfoldable pub sweep_merchants : ℕ → List Address → ℕ → Action ℕ
sweep_merchants cutoff [] cleaned = pure cleaned
sweep_merchants cutoff (a ∷ addresses) cleaned = do
  ids ← gets (get_merchant_payment_ids a)
  next ← sweep_ids cutoff ids cleaned
  sweep_merchants cutoff addresses next

-- The checks at the start of the function and its loops.
unfoldable pub sweep_expired_payments : Address → Action ℕ
unfolding require_not_paused require_admin_rate_limited
sweep_expired_payments admin = do
  require_not_paused
  require_admin_rate_limited admin
  env ← ask
  cutoff ← gets (payment_cutoff env)
  addresses ← gets get_merchant_list
  sweep_merchants cutoff addresses 0
