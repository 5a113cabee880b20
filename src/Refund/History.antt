-- ===== src/Refund/History.antt =====
-- Histories of the contract as its refunds see them: calls of the four entry points that the host
-- committed, in any order, between any changes made elsewhere.
use lumenflow_contracts.Action.{Action, Done, ok}
use lumenflow_contracts.Base.{String, nat_eq, none, string_eq, ◌≡◌}
use lumenflow_contracts.Base.Dict.{put}
use lumenflow_contracts.Base.Int.{pos, ℤ}
use lumenflow_contracts.Host.{Env}
use lumenflow_contracts.Refund.Execution.{execute_refund}
use lumenflow_contracts.Refund.Requests.{approve_refund, initiate_refund, reject_refund}
use lumenflow_contracts.Storage.{World, get_payment}
use lumenflow_contracts.Types.{Address, PaymentOrder}

pub data Operation : Type 0 where
  initiate : Address → String → String → ℤ → String → Operation
  approve : Address → String → Operation
  reject : Address → String → Operation
  execute : String → Operation

unfoldable pub perform : Operation → Action Done
perform (initiate c k o x reason) = initiate_refund c k o x reason
perform (approve c k) = approve_refund c k
perform (reject c k) = reject_refund c k
perform (execute k) = execute_refund k

-- One committed change. `elsewhere` is any change that leaves the refunds and the payments that are
-- there as they are; it may add payments whose records have nothing refunded.
pub data Step (w w' : World) : Type 0 where
  call : (op : Operation) (env : Env) → perform op env w ≡ ok tt w' → Step w w'
  elsewhere : w'.claims.refunds ≡ w.claims.refunds → w'.book.payments ≡ w.book.payments → Step w w'
  pay :
      (p : PaymentOrder)
      → get_payment p.order_id w ≡ none
      → p.refunded_amount ≡ pos 0
      → w'.claims.refunds ≡ w.claims.refunds
      → w'.book.payments ≡ put p.order_id p w.book.payments
      → Step w w'

pub data Reach (w : World) : World → Type 0 where
  here : Reach w w
  next : {u v : World} → Reach w u → Step u v → Reach w v
