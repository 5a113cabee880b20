-- ===== src/Router/Traffic.antt =====
-- How the traffic is split while the canary's weight is not zero.
use lumenflow_contracts.Base.{
  not, ◌≢◌, Bool, Option, arith, eqb, false, if◌then◌else◌, ltb, nat_eq, none, refl, some,
  string_eq, suc, zero, ℕ, ◌%◌, ◌+◌, ◌≡◌, ◌≤◌, min,
}
use lumenflow_contracts.Router.Handlers.{get_canary_weight, route_call}
use lumenflow_contracts.Router.State.{Router}
use lumenflow_contracts.Types.{Address}

-- How many of `n` ledgers from `start` on have a bucket below the weight.
unfoldable pub in_buckets : ℕ → ℕ → ℕ → ℕ
in_buckets weight start zero = 0
in_buckets weight start (suc n) =
    let rest = in_buckets weight (suc start) n in
    if ltb (start % 100) weight then suc rest else rest

-- Whether a call is routed to a contract.
abbrev pub returns : Address → Option (Address × Router) → Bool
returns contract none = false
returns contract (some (c, r)) = eqb c contract

-- How many of the calls in `n` ledgers from `start` on return a contract.
unfoldable pub calls_to : Address → Router → ℕ → ℕ → ℕ
calls_to contract r start zero = 0
calls_to contract r start (suc n) =
    let rest = calls_to contract r (suc start) n in
    if returns contract (route_call start r) then suc rest else rest

in_buckets-cons :
    (weight start n : ℕ)
    → in_buckets weight start (suc n)
      ≡ (if ltb (start % 100) weight then 1 else 0) + in_buckets weight (suc start) n
unfolding in_buckets
in_buckets-cons weight start n = ground arith

in_buckets-snoc :
    (weight start n : ℕ)
    → in_buckets weight start (suc n)
      ≡ in_buckets weight start n + (if ltb ((start + n) % 100) weight then 1 else 0)
unfolding in_buckets
in_buckets-snoc weight start zero = ground arith
in_buckets-snoc weight start (suc n) = grind (arith, in_buckets-snoc weight (suc start) n)

-- A window of a hundred ledgers holds as many buckets below the weight as the next one.
in_buckets-slide :
    (weight start : ℕ) → in_buckets weight (suc start) 100 ≡ in_buckets weight start 100
in_buckets-slide weight start =
    grind (arith, in_buckets-snoc weight start 100, in_buckets-cons weight start 100)

in_buckets-zero : (weight n : ℕ) → n ≤ 100 → in_buckets weight 0 n ≡ min n weight
unfolding in_buckets
in_buckets-zero weight zero small = ground arith
in_buckets-zero weight (suc n) small =
    grind (arith, in_buckets-snoc weight 0 n, in_buckets-zero weight n (omega arith))

in_buckets_lem : (weight start : ℕ) → weight ≤ 100 → in_buckets weight start 100 ≡ weight
in_buckets_lem weight zero small = omega (arith, in_buckets-zero weight 100 (omega arith))
in_buckets_lem weight (suc start) small =
    omega (arith, in_buckets-slide weight start, in_buckets_lem weight start small)

-- Whether one call goes to the canary.
route_call_canary :
    (r : Router) (canary stable : Address) (seq : ℕ)
    → 1 ≤ get_canary_weight r
    → r.canary_contract ≡ some canary
    → r.stable_contract ≡ some stable
    → canary ≢ stable
    → (returns canary (route_call seq r) ≡ ltb (seq % 100) (get_canary_weight r))
      × (returns stable (route_call seq r) ≡ not (ltb (seq % 100) (get_canary_weight r)))
unfolding route_call
route_call_canary r canary stable seq positive to_canary to_stable differ = ground arith

calls_to-in_buckets :
    (r : Router) (canary stable : Address) (start n : ℕ)
    → 1 ≤ get_canary_weight r
    → r.canary_contract ≡ some canary
    → r.stable_contract ≡ some stable
    → canary ≢ stable
    → (calls_to canary r start n ≡ in_buckets (get_canary_weight r) start n)
      × (calls_to stable r start n + calls_to canary r start n ≡ n)
unfolding calls_to in_buckets
calls_to-in_buckets r canary stable start zero positive to_canary to_stable differ = (refl, refl)
calls_to-in_buckets r canary stable start (suc n) positive to_canary to_stable differ =
    let (here_canary, here_stable) =
      route_call_canary r canary stable start positive to_canary to_stable differ in
    let (rest_canary, rest_stable) =
      calls_to-in_buckets r canary stable (suc start) n positive to_canary to_stable differ in
    rw here_canary (rw here_stable (ground arith))

-- While the weight of the canary is at least 1 and at most 100, and its contract and the stable one
-- are set and differ, exactly as many of any hundred consecutive ledgers route to the canary as the
-- weight says, and all the others to the stable contract.
pub canary_share :
    (r : Router) (canary stable : Address) (start : ℕ)
    → 1 ≤ get_canary_weight r
    → get_canary_weight r ≤ 100
    → r.canary_contract ≡ some canary
    → r.stable_contract ≡ some stable
    → canary ≢ stable
    → (calls_to canary r start 100 ≡ get_canary_weight r)
      × (calls_to stable r start 100 + get_canary_weight r ≡ 100)
canary_share r canary stable start positive bounded to_canary to_stable differ =
    let (share, others) =
      calls_to-in_buckets r canary stable start 100 positive to_canary to_stable differ in
    let exact = in_buckets_lem (get_canary_weight r) start bounded in (omega arith, omega arith)
