-- ===== src/Query/Window.antt =====
-- The statistics of a window, against a plain description of them.
use lumenflow_contracts.Base.{
  Option, Option-cases, String, ap, false, length, length-append, subst, sym, ◌∙◌, Bool-cases,
  arith, inl, inr, leb, refl, some, true, ◌≡◌, ◌≤◌, Bool, List, [], if◌then◌else◌, nat_eq, none,
  string_eq, suc, ℕ, ◌&&◌, ◌++◌, ◌+◌, ◌∷◌,
}
use lumenflow_contracts.Guards.{require_admin_rate_limited}
use lumenflow_contracts.Query.Pages.{keep_if_matching, load}
use lumenflow_contracts.Query.Stats.{
  fresh_stats, get_global_payment_stats, in_window, is_reversed, no_window, tally_ids,
  tally_merchants, tally_if,
}
use lumenflow_contracts.Storage.{
  get_global_stats, get_merchant_list, get_payment, World, get_merchant_payment_ids,
}
use lumenflow_contracts.Action.{◌>>=◌, ok, u32_max, saturating_add}
use lumenflow_contracts.Host.{Env}
use lumenflow_contracts.Base.Int.{ltb_ℤ, pos}
use lumenflow_contracts.Types.{Address, GlobalStats, PaymentOrder}

-- All stored payments of the merchants in the list.
unfoldable pub ledger : List Address → World → List PaymentOrder
ledger [] w = []
ledger (a ∷ addresses) w = load none (get_merchant_payment_ids a w) w ++ ledger addresses w

unfoldable pub count : (PaymentOrder → Bool) → List PaymentOrder → ℕ
count test [] = 0
count test (p ∷ ps) = let rest = count test ps in if test p then suc rest else rest

abbrev pub is_refunded : (PaymentOrder → Bool) → PaymentOrder → Bool
is_refunded test p = test p && ltb_ℤ (pos 0) p.refunded_amount

-- The statistics after one more payment, and after more of them, where no count leaves its type.
abbrev with_payment : (PaymentOrder → Bool) → PaymentOrder → GlobalStats → GlobalStats
with_payment test p stats =
    if test p
    then record stats {
      total_payments = stats.total_payments + 1;
      total_volume = saturating_add stats.total_volume p.amount;
      total_refunds =
          if ltb_ℤ (pos 0) p.refunded_amount then stats.total_refunds + 1 else stats.total_refunds;
      total_refund_volume =
          if ltb_ℤ (pos 0) p.refunded_amount
          then saturating_add stats.total_refund_volume p.refunded_amount
          else stats.total_refund_volume;
    }
    else stats

unfoldable with_payments : (PaymentOrder → Bool) → List PaymentOrder → GlobalStats → GlobalStats
with_payments test [] stats = stats
with_payments test (p ∷ ps) stats = with_payments test ps (with_payment test p stats)

-- Room for `n` more payments in both counts.
abbrev HasRoom : ℕ → GlobalStats → Type 0
HasRoom n stats = (stats.total_payments + n ≤ u32_max) × (stats.total_refunds + n ≤ u32_max)

tally_if_lem :
    (test : PaymentOrder → Bool) (p : PaymentOrder) (stats : GlobalStats) (n : ℕ) (env : Env)
    (w : World)
    → HasRoom (suc n) stats
    → (tally_if test (some p) stats env w ≡ ok (with_payment test p stats) w)
      × HasRoom n (with_payment test p stats)
tally_if_lem test p stats n env w room = elim (Bool-cases (test p)) [
  | inr out ↦ rw out (refl, omega arith)
  | inl within ↦ elim (Bool-cases (ltb_ℤ (pos 0) p.refunded_amount)) [
    | inr unrefunded ↦
        let fits_one : leb (stats.total_payments + 1) u32_max ≡ true = ground arith in
        rw within (rw unrefunded (rw (fits_one, ◌>>=◌) (refl, omega arith)))
    | inl refunded ↦
        let fits_one : leb (stats.total_payments + 1) u32_max ≡ true = ground arith in
        let fits_both : leb (stats.total_refunds + 1) u32_max ≡ true = ground arith in
        rw within (rw refunded (rw (fits_one, ◌>>=◌) (rw (fits_both, ◌>>=◌) (refl, omega arith))))
  ]
]

with_payments_room :
    (test : PaymentOrder → Bool) (ps : List PaymentOrder) (stats : GlobalStats) (n : ℕ)
    → HasRoom (length ps + n) stats
    → HasRoom n (with_payments test ps stats)
unfolding with_payments
with_payments_room test [] stats n room = (omega (arith, room.0), omega (arith, room.1))
with_payments_room test (p ∷ ps) stats n room =
    let next : HasRoom (length ps + n) (with_payment test p stats) =
      ground (arith, room.0, room.1) in
    with_payments_room test ps (with_payment test p stats) n next

with_payments-append :
    (test : PaymentOrder → Bool) (ps qs : List PaymentOrder) (stats : GlobalStats)
    → with_payments test (ps ++ qs) stats ≡ with_payments test qs (with_payments test ps stats)
unfolding with_payments
with_payments-append test [] qs stats = refl
with_payments-append test (p ∷ ps) qs stats =
    with_payments-append test ps qs (with_payment test p stats)

tally_ids_lem :
    (test : PaymentOrder → Bool) (ids : List String) (stats : GlobalStats) (env : Env) (w : World)
    → HasRoom (length (load none ids w)) stats
    → tally_ids test ids stats env w ≡ ok (with_payments test (load none ids w) stats) w
unfolding tally_ids load with_payments
tally_ids_lem test [] stats env w room = refl
tally_ids_lem test (id ∷ ids) stats env w room = elim (Option-cases (get_payment id w)) [
  | inl missing ↦ rw missing (
      tally_ids_lem test ids stats env w (
        subst (λ o. HasRoom (length (keep_if_matching none o (load none ids w))) stats) missing
          room))
  | inr (p, found) ↦
      let room' : HasRoom (suc (length (load none ids w))) stats =
        subst (λ o. HasRoom (length (keep_if_matching none o (load none ids w))) stats) found
          room in
      let (one, left) = tally_if_lem test p stats (length (load none ids w)) env w room' in
      rw found (rw (one, ◌>>=◌) (tally_ids_lem test ids (with_payment test p stats) env w left))
]

tally_merchants_lem :
    (test : PaymentOrder → Bool) (addresses : List Address) (stats : GlobalStats) (env : Env)
    (w : World)
    → HasRoom (length (ledger addresses w)) stats
    → tally_merchants test addresses stats env w
      ≡ ok (with_payments test (ledger addresses w) stats) w
unfolding tally_merchants ledger with_payments
tally_merchants_lem test [] stats env w room = refl
tally_merchants_lem test (a ∷ addresses) stats env w room =
    let ps = load none (get_merchant_payment_ids a w) w in
    let lengths = length-append ps (ledger addresses w) in
    let room' : HasRoom (length ps + length (ledger addresses w)) stats =
      subst (λ n. HasRoom n stats) lengths room in
    let here : HasRoom (length ps) stats = (omega (arith, room'.0), omega (arith, room'.1)) in
    let first = tally_ids_lem test (get_merchant_payment_ids a w) stats env w here in
    rw (first, ◌>>=◌)
      (tally_merchants_lem test addresses (with_payments test ps stats) env w
          (with_payments_room test ps stats (length (ledger addresses w)) room')
        ∙ ap (λ s. ok s w) (sym (with_payments-append test ps (ledger addresses w) stats)))

with_payments-counts :
    (test : PaymentOrder → Bool) (ps : List PaymentOrder) (stats : GlobalStats)
    → ((with_payments test ps stats).total_payments ≡ stats.total_payments + count test ps)
      × ((with_payments test ps stats).total_refunds
          ≡ stats.total_refunds + count (is_refunded test) ps)
      × ((with_payments test ps stats).active_merchants ≡ stats.active_merchants)
unfolding with_payments count
with_payments-counts test [] stats = (omega arith, omega arith, refl)
with_payments-counts test (p ∷ ps) stats =
    let (payments, refunds, actives) = with_payments-counts test ps (with_payment test p stats) in
    (ground (arith, payments), ground (arith, refunds), ground (arith, actives))

-- Let the guard of the administrator's calls pass and leave `v`. If a bound of the window is given, the bounds
-- are not in the wrong order and the merchants have at most `u32::MAX` stored payments, then the statistics
-- of the window are returned: they count the stored payments of the merchants that were paid within
-- the window, bounds included, and those of them that have been refunded in part or in full, and
-- take the number of active merchants from the cached statistics. If no bound is given, the cached
-- statistics are returned.
pub get_global_payment_stats_lem :
    (admin : Address) (start end : Option ℕ) (env : Env) (w v : World)
    → require_admin_rate_limited admin env w ≡ ok tt v
    → is_reversed start end ≡ false
    → length (ledger (get_merchant_list v) v) ≤ u32_max
    → (no_window start end ≡ false
        → (stats : GlobalStats) × (get_global_payment_stats admin start end env w ≡ ok stats v)
          × (stats.total_payments ≡ count (in_window start end) (ledger (get_merchant_list v) v))
          × (stats.total_refunds
              ≡ count (is_refunded (in_window start end)) (ledger (get_merchant_list v) v))
          × (stats.active_merchants ≡ (get_global_stats v).active_merchants))
      × (no_window start end ≡ true
          → get_global_payment_stats admin start end env w ≡ ok (get_global_stats v) v)
unfolding get_global_payment_stats
get_global_payment_stats_lem admin start end env w v guard ordered bounded =
    let ps = ledger (get_merchant_list v) v in
    let test = in_window start end in
    let run =
      tally_merchants_lem test (get_merchant_list v) (fresh_stats v) env v
        (omega arith, omega arith) in
    let (payments, refunds, actives) = with_payments-counts test ps (fresh_stats v) in
    (
      λ windowed. (
        with_payments test ps (fresh_stats v),
        rw (guard, ◌>>=◌) (rw (ordered, ◌>>=◌) (rw (windowed, ◌>>=◌) run)),
        omega (arith, payments),
        omega (arith, refunds),
        actives,
      ),
      λ cached. rw (guard, ◌>>=◌) (rw (ordered, ◌>>=◌) (rw (cached, ◌>>=◌) refl)),
    )
