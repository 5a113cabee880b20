-- ===== src/Payment/Checked.antt =====
-- What the checks of a batch establish, and that they change nothing but the counters of the rate
-- limit.
use mathlib.Core.Option
use lumenflow_contracts.Action.{left_by, ok}
use lumenflow_contracts.Base.{
  List, String, arith, contains, false, nat_eq, none, subst, sym, All, push_back, [], ◌∷◌, ap, some,
  string_eq, true, ℕ, ◌≡◌, ◌∙◌,
}
use lumenflow_contracts.Base.Dict.{Dict}
use lumenflow_contracts.Base.Int.{pos, ◌<ℤ◌}
use lumenflow_contracts.Host.{Env}
use lumenflow_contracts.Payment.Batch.{batch_payload, check_item, check_items}
use lumenflow_contracts.Payment.Processing.{
  current_window_start, increment_rate_limit_counter, verify_signature,
}
use lumenflow_contracts.Storage.{get_merchant, World, get_payment, is_token_allowed}
use lumenflow_contracts.Types.{Address, BatchPaymentItem}

abbrev with_counters : Dict Address (Dict ℕ ℕ) → World → World
with_counters c w = record w { book = record (w.book) { rate_limit_counters = c } }

-- `w'` is `w` but for the counters.
abbrev pub IsRecounted : World → World → Type 0
IsRecounted w w' = (c : Dict Address (Dict ℕ ℕ)) × (w' ≡ with_counters c w)

-- What one item of a batch was checked for, in the state `w`.
pub record IsCheckedItem (env : Env) (w : World) (i : BatchPaymentItem) : Type 0 where
  pub positive : pos 0 <ℤ i.amount
  pub allowed : is_token_allowed i.token_address w ≡ true
  pub fresh : get_payment i.order_id w ≡ none
  pub is_active : Option.map (λ m. m.active) (get_merchant i.merchant_address w) ≡ some true
  pub verified :
      env.ed25519_verify i.merchant_public_key (batch_payload i.order_id i.amount env) i.signature
      ≡ true

increment_rate_limit_counter-IsRecounted :
    (m : Address) (start : ℕ) (env : Env) (w w' : World)
    → increment_rate_limit_counter m start env w ≡ ok tt w'
    → IsRecounted w w'
unfolding increment_rate_limit_counter
increment_rate_limit_counter-IsRecounted m start env w w' done =
    (w'.book.rate_limit_counters, ground arith)

check_item_lem :
    (i : BatchPaymentItem) (seen : List String) (env : Env) (w w' : World)
    → check_item i seen env w ≡ ok tt w'
    → (contains seen i.order_id ≡ false) × IsCheckedItem env w i × IsRecounted w w'
unfolding check_item verify_signature
check_item_lem i seen env w w' done =
    let start = current_window_start env in
    let w1 = left_by w (increment_rate_limit_counter i.merchant_address start env w) in
    let counted : increment_rate_limit_counter i.merchant_address start env w ≡ ok tt w1 =
      ground arith in
    let recount =
      increment_rate_limit_counter-IsRecounted i.merchant_address start env w w1 counted in
    let last : w' ≡ w1 = ground (arith, counted) in
    (
      ground arith,
      record {
        positive = ground arith;
        allowed = ground arith;
        fresh = ground arith;
        is_active = ground arith;
        verified = ground arith;
      },
      subst (IsRecounted w) (sym last) recount,
    )

-- No order id is among the ones seen or repeated.
unfoldable pub IsFresh : List String → List BatchPaymentItem → Type 0
IsFresh seen [] = Unit
IsFresh seen (i ∷ items) =
    (contains seen i.order_id ≡ false) × IsFresh (push_back seen i.order_id) items

IsRecounted-trans : (u v w : World) → IsRecounted u v → IsRecounted v w → IsRecounted u w
IsRecounted-trans u v w (c, e) (d, f) = (d, f ∙ ap (with_counters d) e)

-- The counters are not what an item is checked for.
IsCheckedItem-back :
    (env : Env) (w w' : World) (i : BatchPaymentItem)
    → IsRecounted w w'
    → IsCheckedItem env w' i
    → IsCheckedItem env w i
IsCheckedItem-back env w w' i (c, same) h = record {
  positive = h.positive;
  allowed = rw same at (h.allowed);
  fresh = rw same at (h.fresh);
  is_active = rw same at (h.is_active);
  verified = h.verified;
}

checks_back :
    (env : Env) (w w' : World) (items : List BatchPaymentItem)
    → IsRecounted w w'
    → All (IsCheckedItem env w') items
    → All (IsCheckedItem env w) items
checks_back env w w' [] same h = tt
checks_back env w w' (i ∷ items) same (one, rest) =
    (IsCheckedItem-back env w w' i same one, checks_back env w w' items same rest)

-- A batch that passes the checks has an id for each item that no item before it has and that is not
-- among the ones seen; each item is for a positive amount of an allowed token, under an id without a
-- payment, to an active merchant, and carries a signature that the given key accepts. The checks
-- change nothing but the counters of the rate limit.
pub check_items_lem :
    (items : List BatchPaymentItem) (seen : List String) (env : Env) (w w' : World)
    → check_items items seen env w ≡ ok tt w'
    → IsFresh seen items × All (IsCheckedItem env w) items × IsRecounted w w'
unfolding check_items IsFresh
check_items_lem [] seen env w w' done = (tt, tt, (w.book.rate_limit_counters, ground arith))
check_items_lem (i ∷ items) seen env w w' done =
    let u = left_by w (check_item i seen env w) in
    let first : check_item i seen env w ≡ ok tt u = ground arith in
    let (new, one, same) = check_item_lem i seen env w u first in
    let (fresh, rest, same') =
      check_items_lem items (push_back seen i.order_id) env u w' (ground (arith, first)) in
    ((new, fresh), (one, checks_back env w u items same rest), IsRecounted-trans w u w' same same')
