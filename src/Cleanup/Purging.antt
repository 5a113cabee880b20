-- ===== src/Cleanup/Purging.antt =====
-- The loops that remove old refunds, and what they leave.
use lumenflow_contracts.Base.{
  eqb_iff, some, ==_eq, ==_refl, Bool, Option, ap, length-append, subst, sym, ◌==◌, ◌||◌,
  Bool-cases, List, String, [], arith, contains, if◌then◌else◌, inl, inr, leb, length, nat_eq, none,
  refl, string_eq, true, ℕ, ◌&&◌, ◌++◌, ◌+◌, ◌∙◌, ◌∷◌, ◌≡◌, ◌≤◌,
}
use lumenflow_contracts.Types.{RefundRecord, Address}
use lumenflow_contracts.Guards.{require_admin}
use lumenflow_contracts.Cleanup.Handlers.{
  purge_merchants, purge_payments, purge, is_purged, purge_refunds, remove_refund,
}
use lumenflow_contracts.Host.{Env}
use lumenflow_contracts.Storage.{
  get_admin, get_refund, World, get_merchant_payment_ids, get_order_refund_ids,
}
use lumenflow_contracts.Base.Dict.{lookup-del}
use lumenflow_contracts.Action.{Action, ok, u32_max, ◌>>=◌}

-- The refunds that the loops visit: those indexed under the payments of the listed merchants.
abbrev pub refunds_of : List String → World → List String
refunds_of [] w = []
refunds_of (pid ∷ pids) w = get_order_refund_ids pid w ++ refunds_of pids w

abbrev pub indexed_refunds : List Address → World → List String
indexed_refunds [] w = []
indexed_refunds (a ∷ addresses) w =
    refunds_of (get_merchant_payment_ids a w) w ++ indexed_refunds addresses w

-- The loops without the count.
abbrev purged : ℕ → String → World → World
purged cutoff rid w = if is_purged cutoff (get_refund rid w) then remove_refund rid w else w

unfoldable pub purge_all : ℕ → List String → World → World
purge_all cutoff [] w = w
purge_all cutoff (rid ∷ rids) w = purge_all cutoff rids (purged cutoff rid w)

purged_self :
    (cutoff : ℕ) (k : String) (w : World)
    → get_refund k (purged cutoff k w)
      ≡ (if (k == k) && is_purged cutoff (get_refund k w) then none else get_refund k w)
purged_self cutoff k w = rw (==_refl k) (elim (Bool-cases (is_purged cutoff (get_refund k w))) [
  | inl old ↦ rw old (rw (lookup-del k k w.claims.refunds) (rw (==_refl k) refl))
  | inr young ↦ rw young refl
])

-- Two tests that remove, one after the other; nothing is removed twice.
if_if :
    (a b : Bool) (test : Option RefundRecord → Bool) (o : Option RefundRecord)
    → (if b && test (if a && test o then none else o)
        then none
        else (if a && test o then none else o))
      ≡ (if (a || b) && test o then none else o)
if_if a b test o = ground arith

-- Two states that differ in their refunds at most.
abbrev IsSameBut : World → World → Type 0
IsSameBut w v = v ≡ record w { claims = record (w.claims) { refunds = v.claims.refunds } }

purged-IsSameBut : (cutoff : ℕ) (rid : String) (w : World) → IsSameBut w (purged cutoff rid w)
purged-IsSameBut cutoff rid w = elim (Bool-cases (is_purged cutoff (get_refund rid w))) [
  | inl old ↦ rw old refl
  | inr young ↦ rw young refl
]

pub purge_all-IsSameBut :
    (cutoff : ℕ) (rids : List String) (w : World) → IsSameBut w (purge_all cutoff rids w)
unfolding purge_all
purge_all-IsSameBut cutoff [] w = refl
purge_all-IsSameBut cutoff (rid ∷ rids) w =
    let first = purged-IsSameBut cutoff rid w in
    let later = purge_all-IsSameBut cutoff rids (purged cutoff rid w) in cc

purge_all-append :
    (cutoff : ℕ) (xs ys : List String) (w : World)
    → purge_all cutoff (xs ++ ys) w ≡ purge_all cutoff ys (purge_all cutoff xs w)
unfolding purge_all
purge_all-append cutoff [] ys w = refl
purge_all-append cutoff (x ∷ xs) ys w = purge_all-append cutoff xs ys (purged cutoff x w)

purged-get_refund :
    (cutoff : ℕ) (rid : String) (w : World) (k : String)
    → get_refund k (purged cutoff rid w)
      ≡ (if (rid == k) && is_purged cutoff (get_refund k w) then none else get_refund k w)
purged-get_refund cutoff rid w k = elim (Bool-cases (rid == k)) [
  | inl same ↦
      subst
        (λ j.
          get_refund j (purged cutoff rid w)
          ≡ (if (rid == j) && is_purged cutoff (get_refund j w) then none else get_refund j w))
        (==_eq rid k same) (purged_self cutoff rid w)
  | inr differ ↦ rw differ (elim (Bool-cases (is_purged cutoff (get_refund rid w))) [
    | inl old ↦ rw old (rw (lookup-del k rid w.claims.refunds) (rw differ refl))
    | inr young ↦ rw young refl
  ])
]

-- A refund is removed if it is among those visited and old enough.
pub purge_all-get_refund :
    (cutoff : ℕ) (rids : List String) (w : World) (k : String)
    → get_refund k (purge_all cutoff rids w)
      ≡ (if contains rids k && is_purged cutoff (get_refund k w) then none else get_refund k w)
unfolding purge_all
purge_all-get_refund cutoff [] w k = refl
purge_all-get_refund cutoff (rid ∷ rids) w k =
    purge_all-get_refund cutoff rids (purged cutoff rid w) k
    ∙ rw (purged-get_refund cutoff rid w k)
        (if_if (rid == k) (contains rids k) (is_purged cutoff) (get_refund k w))

-- What a loop that visits `rids` returns and leaves.
unfoldable pub Purges : ℕ → List String → (ℕ → Action ℕ) → World → Type 0
Purges cutoff rids loop w =
    (env : Env) (n : ℕ)
    → n + length rids ≤ u32_max
    → (m : ℕ) × (m ≤ n + length rids) × (loop n env w ≡ ok m (purge_all cutoff rids w))

purge_lem :
    (cutoff : ℕ) (rid : String) (n : ℕ) (env : Env) (w : World)
    → n + 1 ≤ u32_max
    → (m : ℕ) × (m ≤ n + 1) × (purge cutoff rid n env w ≡ ok m (purged cutoff rid w))
purge_lem cutoff rid n env w room = elim (Bool-cases (is_purged cutoff (get_refund rid w))) [
  | inl old ↦
      let one_more : leb (n + 1) u32_max ≡ true = ground arith in
      (n + 1, omega arith, rw old (rw one_more refl))
  | inr young ↦ (n, omega arith, rw young refl)
]

purge_refunds-Purges :
    (cutoff : ℕ) (rids : List String) (w : World) → Purges cutoff rids (purge_refunds cutoff rids) w
unfolding Purges purge_refunds purge_all
purge_refunds-Purges cutoff [] w env n room = (n, omega arith, refl)
purge_refunds-Purges cutoff (rid ∷ rids) w env n room =
    let (k, one, first) = purge_lem cutoff rid n env w (omega arith) in
    let (m, most, rest) =
      purge_refunds-Purges cutoff rids (purged cutoff rid w) env k (omega arith) in
    (m, omega arith, rw (first, ◌>>=◌) rest)

-- Two loops, one after the other.
Purges-append :
    (cutoff : ℕ) (xs ys : List String) (loop next : ℕ → Action ℕ) (w : World)
    → Purges cutoff xs loop w
    → Purges cutoff ys next (purge_all cutoff xs w)
    → Purges cutoff (xs ++ ys) (λ n. loop n >>= next) w
unfolding Purges
Purges-append cutoff xs ys loop next w first second env n room =
    let lengths = length-append xs ys in
    let (k, one, run) = first env n (omega arith) in
    let (m, most, rest) = second env k (omega arith) in
    (m, omega arith, rw (run, ◌>>=◌) (rest ∙ ap (ok m) (sym (purge_all-append cutoff xs ys w))))

refunds_of-same :
    (pids : List String) (w v : World) → IsSameBut w v → refunds_of pids v ≡ refunds_of pids w
refunds_of-same [] w v same = refl
refunds_of-same (pid ∷ pids) w v same =
    let rest = refunds_of-same pids w v same in
    let here : get_order_refund_ids pid v ≡ get_order_refund_ids pid w =
      ap (get_order_refund_ids pid) same in
    rw here (rw rest refl)

indexed_refunds-same :
    (addresses : List Address) (w v : World)
    → IsSameBut w v
    → indexed_refunds addresses v ≡ indexed_refunds addresses w
indexed_refunds-same [] w v same = refl
indexed_refunds-same (a ∷ addresses) w v same =
    let pids : get_merchant_payment_ids a v ≡ get_merchant_payment_ids a w =
      ap (get_merchant_payment_ids a) same in
    rw pids (
      rw (refunds_of-same (get_merchant_payment_ids a w) w v same)
        (rw (indexed_refunds-same addresses w v same) refl))

purge_payments-Purges :
    (cutoff : ℕ) (pids : List String) (w : World)
    → Purges cutoff (refunds_of pids w) (purge_payments cutoff pids) w
unfolding Purges purge_payments purge_all
purge_payments-Purges cutoff [] w = λ env n room. (n, omega arith, refl)
purge_payments-Purges cutoff (pid ∷ pids) w =
    let rids = get_order_refund_ids pid w in
    let v = purge_all cutoff rids w in
    Purges-append cutoff rids (refunds_of pids w) (purge_refunds cutoff rids)
      (purge_payments cutoff pids) w (purge_refunds-Purges cutoff rids w)
      (subst (λ l. Purges cutoff l (purge_payments cutoff pids) v)
        (refunds_of-same pids w v (purge_all-IsSameBut cutoff rids w))
        (purge_payments-Purges cutoff pids v))

pub purge_merchants-Purges :
    (cutoff : ℕ) (addresses : List Address) (w : World)
    → Purges cutoff (indexed_refunds addresses w) (purge_merchants cutoff addresses) w
unfolding Purges purge_merchants purge_all
purge_merchants-Purges cutoff [] w = λ env n room. (n, omega arith, refl)
purge_merchants-Purges cutoff (a ∷ addresses) w =
    let pids = get_merchant_payment_ids a w in
    let rids = refunds_of pids w in
    let v = purge_all cutoff rids w in
    Purges-append cutoff rids (indexed_refunds addresses w) (purge_payments cutoff pids)
      (purge_merchants cutoff addresses) w (purge_payments-Purges cutoff pids w)
      (subst (λ l. Purges cutoff l (purge_merchants cutoff addresses) v)
        (indexed_refunds-same addresses w v (purge_all-IsSameBut cutoff rids w))
        (purge_merchants-Purges cutoff addresses v))

pub require_admin_passes :
    (admin : Address) (env : Env) (w : World)
    → env.authorized admin ≡ true
    → get_admin w ≡ some admin
    → require_admin admin env w ≡ ok tt w
unfolding require_admin
require_admin_passes admin env w signed is_admin = ground (arith, eqb_iff admin admin)
