-- ===== src/Cleanup/Expired.antt =====
-- The sweep of the expired payments without its count: what goes and what stays.
use lumenflow_contracts.Base.{
  ==_eq, Bool, Bool-cases, List, Option, String, [], ap, arith, contains, false, if◌then◌else◌, inl,
  inr, nat_eq, none, refl, string_eq, subst, sym, true, unwrap_or, ℕ, ◌&&◌, ◌++◌, ◌==◌, ◌||◌, ◌∙◌,
  ◌∷◌, ◌≡◌,
}
use lumenflow_contracts.Base.Dict.{del, lookup, lookup-del}
use lumenflow_contracts.Cleanup.Handlers.{remove_refund}
use lumenflow_contracts.Cleanup.Sweeping.{is_expired, remove_refunds, remove_with_refunds}
use lumenflow_contracts.Storage.{
  get_refund, World, get_merchant_payment_ids, get_order_refund_ids, get_payment,
}
use lumenflow_contracts.Types.{Address, PaymentOrder}

-- One turn without the count, and all of them.
abbrev pub swept : ℕ → String → World → World
swept cutoff id w = if is_expired cutoff (get_payment id w) then remove_with_refunds id w else w

unfoldable pub sweep_all : ℕ → List String → World → World
sweep_all cutoff [] w = w
sweep_all cutoff (id ∷ ids) w = sweep_all cutoff ids (swept cutoff id w)

-- The ids that the loops visit.
abbrev pub visited : List Address → World → List String
visited [] w = []
visited (a ∷ addresses) w = get_merchant_payment_ids a w ++ visited addresses w

-- What removing refunds leaves alone.
abbrev KeepsIndexes : World → World → Type 0
KeepsIndexes w v = (v.book ≡ w.book) × (v.claims.order_refund_ids ≡ w.claims.order_refund_ids)

remove_refunds-KeepsIndexes :
    (rids : List String) (w : World) → KeepsIndexes w (remove_refunds rids w)
remove_refunds-KeepsIndexes [] w = (refl, refl)
remove_refunds-KeepsIndexes (rid ∷ rids) w = remove_refunds-KeepsIndexes rids (remove_refund rid w)

remove_refunds-get_refund :
    (rids : List String) (w : World) (j : String)
    → get_refund j (remove_refunds rids w) ≡ (if contains rids j then none else get_refund j w)
remove_refunds-get_refund [] w j = refl
remove_refunds-get_refund (rid ∷ rids) w j =
    remove_refunds-get_refund rids (remove_refund rid w) j
    ∙ ground (arith, lookup-del j rid w.claims.refunds)

-- What one removal does.
pub remove_with_refunds_lem :
    (id k j : String) (w : World)
    → let v = remove_with_refunds id w in
      (get_payment k v ≡ (if id == k then none else get_payment k w))
      × (get_refund j v ≡ (if contains (get_order_refund_ids id w) j then none else get_refund j w))
      × (lookup k v.claims.order_refund_ids
          ≡ (if id == k then none else lookup k w.claims.order_refund_ids))
      × (v.book.merchant_payment_ids ≡ w.book.merchant_payment_ids)
remove_with_refunds_lem id k j w =
    let rids = get_order_refund_ids id w in
    let (book, index) = remove_refunds-KeepsIndexes rids w in
    (
      ap (λ b. lookup k (del id b.payments)) book ∙ lookup-del k id w.book.payments,
      remove_refunds-get_refund rids w j,
      ap (λ d. lookup k (del id d)) index ∙ lookup-del k id w.claims.order_refund_ids,
      ap (λ b. b.merchant_payment_ids) book,
    )

-- A refund that is gone stays gone.
swept-gone :
    (cutoff : ℕ) (id j : String) (w : World)
    → get_refund j w ≡ none
    → get_refund j (swept cutoff id w) ≡ none
swept-gone cutoff id j w gone = elim (Bool-cases (is_expired cutoff (get_payment id w))) [
  | inl old ↦ rw old ((remove_with_refunds_lem id id j w).1 ∙ ground arith)
  | inr young ↦ rw young gone
]

sweep_all-gone :
    (cutoff : ℕ) (ids : List String) (j : String) (w : World)
    → get_refund j w ≡ none
    → get_refund j (sweep_all cutoff ids w) ≡ none
unfolding sweep_all
sweep_all-gone cutoff [] j w gone = gone
sweep_all-gone cutoff (id ∷ ids) j w gone =
    sweep_all-gone cutoff ids j (swept cutoff id w) (swept-gone cutoff id j w gone)

swept-get_payment :
    (cutoff : ℕ) (id k : String) (w : World)
    → get_payment k (swept cutoff id w)
      ≡ (if (id == k) && is_expired cutoff (get_payment k w) then none else get_payment k w)
swept-get_payment cutoff id k w = elim (Bool-cases (is_expired cutoff (get_payment id w))) [
  | inl old ↦ elim (Bool-cases (id == k)) [
    | inl same ↦
        let key : id ≡ k = ==_eq id k same in
        let old_too : is_expired cutoff (get_payment k w) ≡ true =
          subst (λ i. is_expired cutoff (get_payment i w) ≡ true) key old in
        rw old ((remove_with_refunds_lem id k k w).0 ∙ ground arith)
    | inr differ ↦ rw old ((remove_with_refunds_lem id k k w).0 ∙ rw differ refl)
  ]
  | inr young ↦ elim (Bool-cases (id == k)) [
    | inl same ↦
        let key : id ≡ k = ==_eq id k same in
        let young_too : is_expired cutoff (get_payment k w) ≡ false =
          subst (λ i. is_expired cutoff (get_payment i w) ≡ false) key young in
        rw young (rw young_too (rw same refl))
    | inr differ ↦ rw young (rw differ refl)
  ]
]

if_if :
    (a b : Bool) (test : Option PaymentOrder → Bool) (o : Option PaymentOrder)
    → (if b && test (if a && test o then none else o)
        then none
        else (if a && test o then none else o))
      ≡ (if (a || b) && test o then none else o)
if_if a b test o = ground arith

-- A payment is removed if it is visited and old enough.
pub sweep_all-get_payment :
    (cutoff : ℕ) (ids : List String) (w : World) (k : String)
    → get_payment k (sweep_all cutoff ids w)
      ≡ (if contains ids k && is_expired cutoff (get_payment k w) then none else get_payment k w)
unfolding sweep_all
sweep_all-get_payment cutoff [] w k = refl
sweep_all-get_payment cutoff (id ∷ ids) w k =
    sweep_all-get_payment cutoff ids (swept cutoff id w) k
    ∙ rw (swept-get_payment cutoff id k w)
        (if_if (id == k) (contains ids k) (is_expired cutoff) (get_payment k w))

-- The refunds of another payment stay indexed.
swept-index :
    (cutoff : ℕ) (id k : String) (w : World)
    → (id == k) ≡ false
    → get_order_refund_ids k (swept cutoff id w) ≡ get_order_refund_ids k w
swept-index cutoff id k w differ = elim (Bool-cases (is_expired cutoff (get_payment id w))) [
  | inl old ↦
      let kept : lookup k (remove_with_refunds id w).claims.order_refund_ids
          ≡ lookup k w.claims.order_refund_ids =
        (remove_with_refunds_lem id k k w).2 ∙ rw differ refl in
      rw old (ap (unwrap_or []) kept)
  | inr young ↦ rw young refl
]

-- The refunds of a payment that is removed are removed.
pub sweep_all-get_refund :
    (cutoff : ℕ) (ids : List String) (w : World) (k j : String)
    → contains ids k ≡ true
    → is_expired cutoff (get_payment k w) ≡ true
    → contains (get_order_refund_ids k w) j ≡ true
    → get_refund j (sweep_all cutoff ids w) ≡ none
unfolding sweep_all
sweep_all-get_refund cutoff [] w k j visited_k old indexed = ground arith
sweep_all-get_refund cutoff (id ∷ ids) w k j visited_k old indexed = elim (Bool-cases (id == k)) [
  | inl same ↦
      let key : k ≡ id = sym (==_eq id k same) in
      let old_id = subst (λ i. is_expired cutoff (get_payment i w) ≡ true) key old in
      let indexed_id = subst (λ i. contains (get_order_refund_ids i w) j ≡ true) key indexed in
      let gone : get_refund j (swept cutoff id w) ≡ none =
        rw old_id ((remove_with_refunds_lem id k j w).1 ∙ rw indexed_id refl) in
      sweep_all-gone cutoff ids j (swept cutoff id w) gone
  | inr differ ↦
      let kept = swept-get_payment cutoff id k w in
      let old_still : is_expired cutoff (get_payment k (swept cutoff id w)) ≡ true =
        ap (is_expired cutoff) (kept ∙ rw differ refl) ∙ old in
      let indexed_still : contains (get_order_refund_ids k (swept cutoff id w)) j ≡ true =
        ap (λ l. contains l j) (swept-index cutoff id k w differ) ∙ indexed in
      sweep_all-get_refund cutoff ids (swept cutoff id w) k j (ground arith) old_still indexed_still
]
