-- ===== src/Payment/Stored.antt =====
-- The records that a batch leaves: one for each item, and no other.
use lumenflow_contracts.Action.{left_by, ok, value_of}
use lumenflow_contracts.Base.{
  ==_eq, ==_refl, All, Bool, Bool-cases, List, Option-cases, String, [], ap, arith, contains, false,
  inl, inr, nat_eq, push_back, refl, some, string_eq, subst, true, ℕ, ◌==◌, ◌||◌, ◌∙◌, ◌∷◌, ◌≡◌,
}
use lumenflow_contracts.Base.Dict.{Dict, lookup, lookup-put, lookup-put_self, put}
use lumenflow_contracts.Base.Int.{pos}
use lumenflow_contracts.Host.{Env}
use lumenflow_contracts.Payment.Batch.{store_item, store_items}
use lumenflow_contracts.Payment.Checked.{IsFresh}
use lumenflow_contracts.Payment.Index.{add_merchant_payment_id, add_payer_payment_id, new_payment}
use lumenflow_contracts.Payment.Replay.{add_merchant_payment_id-Keeps, add_payer_payment_id-Keeps}
use lumenflow_contracts.Storage.{get_merchant, World, set_payment}
use lumenflow_contracts.Types.{Address, BatchPaymentItem, GlobalStats, PaymentOrder}

-- The record of an item.
abbrev pub item_payment : Address → ℕ → BatchPaymentItem → PaymentOrder
item_payment payer time i =
    new_payment i.order_id i.merchant_address payer i.token_address i.amount time i.memo i.tags
      (pos 0)

unfoldable pub put_items :
    Address → ℕ → List BatchPaymentItem → Dict String PaymentOrder → Dict String PaymentOrder
put_items payer time [] d = d
put_items payer time (i ∷ items) d =
    put_items payer time items (put i.order_id (item_payment payer time i) d)

store_item_lem :
    (payer : Address) (i : BatchPaymentItem) (stats stats' : GlobalStats) (env : Env) (w w' : World)
    → store_item payer i stats env w ≡ ok stats' w'
    → (w'.calls ≡ w.calls)
      × (w'.book.payments ≡ put i.order_id (item_payment payer env.timestamp i) w.book.payments)
unfolding store_item
store_item_lem payer i stats stats' env w w' done =
    let p = item_payment payer env.timestamp i in
    let w1 = set_payment p w in
    let w2 = left_by w (add_merchant_payment_id i.merchant_address i.order_id env w1) in
    let w3 = left_by w (add_payer_payment_id payer i.order_id env w2) in
    let first : add_merchant_payment_id i.merchant_address i.order_id env w1 ≡ ok tt w2 =
      ground arith in
    let second : add_payer_payment_id payer i.order_id env w2 ≡ ok tt w3 = ground (arith, first) in
    let one = add_merchant_payment_id-Keeps i.merchant_address i.order_id env w1 w2 first in
    let two = add_payer_payment_id-Keeps payer i.order_id env w2 w3 second in
    let rest : (w'.calls ≡ w3.calls) × (w'.book.payments ≡ w3.book.payments) =
      elim (Option-cases (get_merchant i.merchant_address w3)) [
        | inl unknown ↦ (ground (arith, first, second), ground (arith, first, second))
        | inr (m, known) ↦ (ground (arith, first, second), ground (arith, first, second))
      ] in
    (rest.0 ∙ two.2 ∙ one.2, rest.1 ∙ two.0 ∙ one.0)

pub store_items_lem :
    (payer : Address) (items : List BatchPaymentItem) (stats : GlobalStats) (env : Env)
    (w w' : World)
    → store_items payer items stats env w ≡ ok tt w'
    → (w'.calls ≡ w.calls)
      × (w'.book.payments ≡ put_items payer env.timestamp items w.book.payments)
unfolding store_items put_items
store_items_lem payer [] stats env w w' done = (ground arith, ground arith)
store_items_lem payer (i ∷ items) stats env w w' done =
    let u = left_by w (store_item payer i stats env w) in
    let stats' = value_of stats (store_item payer i stats env w) in
    let first : store_item payer i stats env w ≡ ok stats' u = ground arith in
    let one = store_item_lem payer i stats stats' env w u first in
    let rest = store_items_lem payer items stats' env u w' (ground (arith, first)) in
    (rest.0 ∙ one.0, rest.1 ∙ ap (put_items payer env.timestamp items) one.1)

abbrev pub has_id : String → List BatchPaymentItem → Bool
has_id k [] = false
has_id k (i ∷ items) = i.order_id == k || has_id k items

pub lookup-put_items :
    (k : String) (payer : Address) (time : ℕ) (items : List BatchPaymentItem)
    (d : Dict String PaymentOrder)
    → has_id k items ≡ false
    → lookup k (put_items payer time items d) ≡ lookup k d
unfolding put_items
lookup-put_items k payer time [] d h = refl
lookup-put_items k payer time (i ∷ items) d h =
    let rest =
      lookup-put_items k payer time items (put i.order_id (item_payment payer time i) d)
        (ground arith) in
    let one = lookup-put k i.order_id (item_payment payer time i) d in rest ∙ ground (arith, one)

contains-push_back :
    (seen : List String) (j k : String)
    → contains (push_back seen j) k ≡ (contains seen k || j == k)
contains-push_back [] j k = ground arith
contains-push_back (x ∷ seen) j k = ground (arith, contains-push_back seen j k)

-- What was seen is not repeated.
seen_apart :
    (seen : List String) (k : String) (items : List BatchPaymentItem)
    → contains seen k ≡ true
    → IsFresh seen items
    → has_id k items ≡ false
unfolding IsFresh
seen_apart seen k [] h fresh = refl
seen_apart seen k (i ∷ items) h (new, rest) =
    let later =
      seen_apart (push_back seen i.order_id) k items
        (ground (arith, contains-push_back seen i.order_id k)) rest in
    elim (Bool-cases (i.order_id == k)) [
      | inl same ↦
          let key : i.order_id ≡ k = ==_eq i.order_id k same in
          let clash : contains seen k ≡ false = subst (λ s. contains seen s ≡ false) key new in
          ground arith
      | inr differ ↦ rw differ later
    ]

-- Each item's record is in the dictionary.
abbrev pub AllStored : Address → ℕ → Dict String PaymentOrder → List BatchPaymentItem → Type 0
AllStored payer time d = All (λ i. lookup i.order_id d ≡ some (item_payment payer time i))

pub put_items-AllStored :
    (payer : Address) (time : ℕ) (items : List BatchPaymentItem) (seen : List String)
    (d : Dict String PaymentOrder)
    → IsFresh seen items
    → AllStored payer time (put_items payer time items d) items
unfolding IsFresh put_items
put_items-AllStored payer time [] seen d fresh = tt
put_items-AllStored payer time (i ∷ items) seen d (new, rest) =
    let p = item_payment payer time i in
    let apart =
      seen_apart (push_back seen i.order_id) i.order_id items
        (ground (arith, contains-push_back seen i.order_id i.order_id, ==_refl i.order_id)) rest in
    (
      lookup-put_items i.order_id payer time items (put i.order_id p d) apart
          ∙ lookup-put_self i.order_id p d,
      put_items-AllStored payer time items (push_back seen i.order_id) (put i.order_id p d) rest,
    )
