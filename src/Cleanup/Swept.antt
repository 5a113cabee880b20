-- ===== src/Cleanup/Swept.antt =====
-- What the loops of `cleanup_expired_payments` remove and what they leave.
use lumenflow_contracts.Base.{
  Bool-cases, List, String, [], ap, arith, contains, if◌then◌else◌, inl, inr, leb, length,
  length-append, nat_eq, none, refl, string_eq, sym, true, unwrap_or, ℕ, ◌&&◌, ◌++◌, ◌+◌, ◌∙◌, ◌∷◌,
  ◌≡◌, ◌≤◌,
}
use lumenflow_contracts.Cleanup.Expired.{
  remove_with_refunds_lem, sweep_all, sweep_all-get_payment, sweep_all-get_refund, swept, visited,
}
use lumenflow_contracts.Action.{◌>>=◌, ok, u32_max}
use lumenflow_contracts.Base.Dict.{lookup}
use lumenflow_contracts.Cleanup.Sweeping.{is_expired, sweep_ids, sweep_if, sweep_merchants}
use lumenflow_contracts.Host.{Env}
use lumenflow_contracts.Storage.{
  get_refund, World, get_merchant_payment_ids, get_order_refund_ids, get_payment,
}
use lumenflow_contracts.Types.{Address}

swept-merchant_ids :
    (cutoff : ℕ) (id : String) (w : World)
    → (swept cutoff id w).book.merchant_payment_ids ≡ w.book.merchant_payment_ids
swept-merchant_ids cutoff id w = elim (Bool-cases (is_expired cutoff (get_payment id w))) [
  | inl old ↦ rw old ((remove_with_refunds_lem id id id w).3)
  | inr young ↦ rw young refl
]

sweep_all-merchant_ids :
    (cutoff : ℕ) (ids : List String) (w : World)
    → (sweep_all cutoff ids w).book.merchant_payment_ids ≡ w.book.merchant_payment_ids
unfolding sweep_all
sweep_all-merchant_ids cutoff [] w = refl
sweep_all-merchant_ids cutoff (id ∷ ids) w =
    sweep_all-merchant_ids cutoff ids (swept cutoff id w) ∙ swept-merchant_ids cutoff id w

visited-same :
    (addresses : List Address) (w v : World)
    → v.book.merchant_payment_ids ≡ w.book.merchant_payment_ids
    → visited addresses v ≡ visited addresses w
visited-same [] w v same = refl
visited-same (a ∷ addresses) w v same =
    let here : get_merchant_payment_ids a v ≡ get_merchant_payment_ids a w =
      ap (λ d. unwrap_or [] (lookup a d)) same in
    rw here (rw (visited-same addresses w v same) refl)

sweep_all-append :
    (cutoff : ℕ) (xs ys : List String) (w : World)
    → sweep_all cutoff (xs ++ ys) w ≡ sweep_all cutoff ys (sweep_all cutoff xs w)
unfolding sweep_all
sweep_all-append cutoff [] ys w = refl
sweep_all-append cutoff (x ∷ xs) ys w = sweep_all-append cutoff xs ys (swept cutoff x w)

-- The loops succeed if the count stays in its type, and sweep all ids that they visit.
sweep_if_lem :
    (cutoff : ℕ) (id : String) (n : ℕ) (env : Env) (w : World)
    → n + 1 ≤ u32_max
    → (m : ℕ) × (m ≤ n + 1)
      × (sweep_if (is_expired cutoff (get_payment id w)) id n env w ≡ ok m (swept cutoff id w))
sweep_if_lem cutoff id n env w room = elim (Bool-cases (is_expired cutoff (get_payment id w))) [
  | inl old ↦
      let one_more : leb (n + 1) u32_max ≡ true = ground arith in
      (n + 1, omega arith, rw old (rw one_more refl))
  | inr young ↦ (n, omega arith, rw young refl)
]

sweep_ids_lem :
    (cutoff : ℕ) (ids : List String) (n : ℕ) (env : Env) (w : World)
    → n + length ids ≤ u32_max
    → (m : ℕ) × (m ≤ n + length ids)
      × (sweep_ids cutoff ids n env w ≡ ok m (sweep_all cutoff ids w))
unfolding sweep_ids sweep_all
sweep_ids_lem cutoff [] n env w room = (n, omega arith, refl)
sweep_ids_lem cutoff (id ∷ ids) n env w room =
    let (k, one, first) = sweep_if_lem cutoff id n env w (omega arith) in
    let (m, most, rest) = sweep_ids_lem cutoff ids k env (swept cutoff id w) (omega arith) in
    (m, omega arith, rw (first, ◌>>=◌) rest)

sweep_merchants_lem :
    (cutoff : ℕ) (addresses : List Address) (n : ℕ) (env : Env) (w : World)
    → n + length (visited addresses w) ≤ u32_max
    → (m : ℕ) × (m ≤ n + length (visited addresses w))
      × (sweep_merchants cutoff addresses n env w ≡ ok m (sweep_all cutoff (visited addresses w) w))
unfolding sweep_merchants sweep_all
sweep_merchants_lem cutoff [] n env w room = (n, omega arith, refl)
sweep_merchants_lem cutoff (a ∷ addresses) n env w room =
    let ids = get_merchant_payment_ids a w in
    let u = sweep_all cutoff ids w in
    let lengths = length-append ids (visited addresses w) in
    let same = visited-same addresses w u (sweep_all-merchant_ids cutoff ids w) in
    let size : length (visited addresses u) ≡ length (visited addresses w) = ap length same in
    let (k, one, first) = sweep_ids_lem cutoff ids n env w (omega arith) in
    let (m, most, rest) = sweep_merchants_lem cutoff addresses k env u (omega arith) in
    let end : sweep_all cutoff (visited addresses u) u
        ≡ sweep_all cutoff (ids ++ visited addresses w) w =
      ap (λ l. sweep_all cutoff l u) same
      ∙ sym (sweep_all-append cutoff ids (visited addresses w) w) in
    (m, omega arith, rw (first, ◌>>=◌) (rest ∙ ap (ok m) end))

-- What the sweep makes of a payment `k` and of a refund `j` that is indexed under it.
pub record IsSwept (cutoff : ℕ) (ids : List String) (w v : World) (k j : String) : Type 0 where
  pub payment :
      get_payment k v
      ≡ (if contains ids k && is_expired cutoff (get_payment k w) then none else get_payment k w)
  pub refund :
      contains ids k ≡ true
      → is_expired cutoff (get_payment k w) ≡ true
      → contains (get_order_refund_ids k w) j ≡ true
      → get_refund j v ≡ none

-- The loops of the clean-up of payments, in a state in which at most `u32::MAX` payment ids are
-- indexed for the listed merchants, succeed. They remove exactly those of the indexed payments that
-- were paid before the cutoff, and keep every other payment; with a payment go all refunds that are
-- indexed under it, whatever their status.
pub sweep_merchants-IsSwept :
    (cutoff : ℕ) (addresses : List Address) (env : Env) (w : World) (k j : String)
    → length (visited addresses w) ≤ u32_max
    → (cleaned : ℕ) × (v : World) × (sweep_merchants cutoff addresses 0 env w ≡ ok cleaned v)
      × (cleaned ≤ length (visited addresses w))
      × IsSwept cutoff (visited addresses w) w v k j
sweep_merchants-IsSwept cutoff addresses env w k j room =
    let ids = visited addresses w in
    let (cleaned, most, run) = sweep_merchants_lem cutoff addresses 0 env w (omega arith) in
    (
      cleaned,
      sweep_all cutoff ids w,
      run,
      omega arith,
      record {
        payment = sweep_all-get_payment cutoff ids w k;
        refund = sweep_all-get_refund cutoff ids w k j;
      },
    )
