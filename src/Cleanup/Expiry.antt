-- ===== src/Cleanup/Expiry.antt =====
-- What the cancelling of expired payment requests leaves.
use lumenflow_contracts.Base.{
  length, push_back, Option-cases, ap, ltb, true, ◌+◌, ◌||◌, ◌∙◌, ◌≤◌, ==_eq, ==_refl, Bool-cases,
  inl, inr, subst, Bool, List, Option, String, [], arith, contains, false, if◌then◌else◌, leb,
  nat_eq, none, not, refl, some, string_eq, ℕ, ◌&&◌, ◌==◌, ◌∷◌, ◌≡◌,
}
use lumenflow_contracts.Cleanup.Handlers.{
  cancel_expired_payment_requests, cancel_requests, cancel_if_expired,
}
use lumenflow_contracts.Cleanup.Purging.{require_admin_passes}
use lumenflow_contracts.Host.{payment_request_cancelled, Env}
use lumenflow_contracts.Storage.{get_admin, World}
use lumenflow_contracts.Types.{Address, PaymentRequest}
use lumenflow_contracts.Action.{ok, u32_max, ◌>>=◌}
use lumenflow_contracts.Base.Dict.{lookup, lookup-del}
use lumenflow_contracts.Payment.Requests.{
  get_payment_request, get_payment_request_ids, remove_payment_request, without,
}

-- A request that is stored and has not expired.
abbrev pub is_live : ℕ → Option PaymentRequest → Bool
is_live now none = false
is_live now (some pr) = leb now pr.expires_at

-- The loop without its count and its events, over the same ids.
abbrev dropped : ℕ → String → World → World
dropped now k w = if is_live now (get_payment_request k w) then w else remove_payment_request k w

contains-without :
    (k j : String) (xs : List String) → contains (without k xs) j ≡ contains xs j && not (k == j)
contains-without k j [] = refl
contains-without k j (x ∷ xs) = ground (
  arith,
  contains-without k j xs,
  string_eq.beq_iff x k,
  string_eq.beq_iff k j,
  string_eq.beq_iff x j,
)

-- The id `k` still has what it had, unless it is gone.
record IsKept (now : ℕ) (seen : List String) (w v : World) : Type 0 where
  stored :
      (k : String)
      → get_payment_request k v ≡ (
          if contains seen k && not (is_live now (get_payment_request k w))
          then none
          else get_payment_request k w)
  indexed :
      (k : String)
      → contains (get_payment_request_ids v) k
        ≡ contains (get_payment_request_ids w) k
          && not (contains seen k && not (is_live now (get_payment_request k w)))

dropped-stored :
    (now : ℕ) (j : String) (w : World) (k : String)
    → get_payment_request k (dropped now j w) ≡ (
        if (j == k) && not (is_live now (get_payment_request k w))
        then none
        else get_payment_request k w)
dropped-stored now j w k = elim (Bool-cases (j == k)) [
  | inl same ↦
      subst
        (λ i. get_payment_request i (dropped now j w) ≡ (
          if (j == i) && not (is_live now (get_payment_request i w))
          then none
          else get_payment_request i w))
        (==_eq j k same)
        (elim (Bool-cases (is_live now (get_payment_request j w))) [
          | inl live ↦ rw live (ground arith)
          | inr dead ↦
              rw dead (rw (lookup-del j j w.requests.payment_requests) (rw (==_refl j) refl))
        ])
  | inr differ ↦ rw differ (elim (Bool-cases (is_live now (get_payment_request j w))) [
    | inl live ↦ rw live refl
    | inr dead ↦ rw dead (rw (lookup-del k j w.requests.payment_requests) (rw differ refl))
  ])
]

dropped-indexed :
    (now : ℕ) (j : String) (w : World) (k : String)
    → contains (get_payment_request_ids (dropped now j w)) k
      ≡ contains (get_payment_request_ids w) k
        && not ((j == k) && not (is_live now (get_payment_request k w)))
dropped-indexed now j w k = elim (Bool-cases (j == k)) [
  | inl same ↦
      subst
        (λ i.
          contains (get_payment_request_ids (dropped now j w)) i
          ≡ contains (get_payment_request_ids w) i
            && not ((j == i) && not (is_live now (get_payment_request i w))))
        (==_eq j k same)
        (elim (Bool-cases (is_live now (get_payment_request j w))) [
          | inl live ↦ rw live (ground arith)
          | inr dead ↦
              rw dead (rw (contains-without j j (get_payment_request_ids w)) (rw (==_refl j) refl))
        ])
  | inr differ ↦ rw differ (elim (Bool-cases (is_live now (get_payment_request j w))) [
    | inl live ↦ rw live (ground arith)
    | inr dead ↦
        rw dead (rw (contains-without j k (get_payment_request_ids w)) (rw differ (ground arith)))
  ])
]

-- Two turns of the loop, one after the other.
stored_twice :
    (now : ℕ) (e s : Bool) (o : Option PaymentRequest)
    → let o' = if e && not (is_live now o) then none else o in
      (if s && not (is_live now o') then none else o')
      ≡ (if (e || s) && not (is_live now o) then none else o)
stored_twice now e s none = ground arith
stored_twice now e s (some pr) = ground arith

indexed_twice :
    (now : ℕ) (c e s : Bool) (o : Option PaymentRequest)
    → let o' = if e && not (is_live now o) then none else o in
      (c && not (e && not (is_live now o))) && not (s && not (is_live now o'))
      ≡ c && not ((e || s) && not (is_live now o))
indexed_twice now c e s none = ground arith
indexed_twice now c e s (some pr) = ground arith

dropped-IsKept :
    (now : ℕ) (j : String) (ids : List String) (w u v : World)
    → u.requests ≡ (dropped now j w).requests
    → IsKept now ids u v
    → IsKept now (j ∷ ids) w v
dropped-IsKept now j ids w u v same rest = record {
  stored = λ k.
      let here : get_payment_request k u ≡ _ =
        ap (λ r. lookup k r.payment_requests) same ∙ dropped-stored now j w k in
      rest.stored k
      ∙ rw here (stored_twice now (j == k) (contains ids k) (get_payment_request k w));
  indexed = λ k.
      let here : get_payment_request k u ≡ _ =
        ap (λ r. lookup k r.payment_requests) same ∙ dropped-stored now j w k in
      let listed : contains (get_payment_request_ids u) k ≡ _ =
        ap (λ r. contains r.payment_request_ids k) same ∙ dropped-indexed now j w k in
      rest.indexed k
      ∙ rw listed (
          rw here (
            indexed_twice now (contains (get_payment_request_ids w) k) (j == k) (contains ids k)
              (get_payment_request k w)));
}

cancel_if_expired_lem :
    (k : String) (n : ℕ) (env : Env) (w : World)
    → n + 1 ≤ u32_max
    → (m : ℕ) × (u : World) × (cancel_if_expired k (get_payment_request k w) n env w ≡ ok m u)
      × (m ≤ n + 1)
      × (u.requests ≡ (dropped env.timestamp k w).requests)
cancel_if_expired_lem k n env w room =
    let one_more : leb (n + 1) u32_max ≡ true = ground arith in
    elim (Option-cases (get_payment_request k w)) [
      | inl missing ↦ (n, remove_payment_request k w, rw missing refl, omega arith, rw missing refl)
      | inr (pr, found) ↦ elim (Bool-cases (ltb pr.expires_at env.timestamp)) [
        | inl old ↦
            let dead : leb env.timestamp pr.expires_at ≡ false = ground arith in
            (
              n + 1,
              record (remove_payment_request k w) {
                events = push_back w.events (payment_request_cancelled k);
              },
              rw found (rw (old, ◌>>=◌) (rw (one_more, ◌>>=◌) refl)),
              omega arith,
              rw found (rw dead refl),
            )
        | inr young ↦
            let live : leb env.timestamp pr.expires_at ≡ true = ground arith in
            (n, w, rw found (rw (young, ◌>>=◌) refl), omega arith, rw found (rw live refl))
      ]
    ]

cancel_requests_lem :
    (ids : List String) (n : ℕ) (env : Env) (w : World)
    → n + length ids ≤ u32_max
    → (m : ℕ) × (v : World) × (cancel_requests ids n env w ≡ ok m v)
      × (m ≤ n + length ids)
      × IsKept env.timestamp ids w v
unfolding cancel_requests
cancel_requests_lem [] n env w room =
    (n, w, refl, omega arith, record { stored = λ k. refl; indexed = λ k. ground arith })
cancel_requests_lem (k ∷ ids) n env w room =
    let (a, u, first, one, same) = cancel_if_expired_lem k n env w (omega arith) in
    let (m, v, run, most, rest) = cancel_requests_lem ids a env u (omega arith) in
    (m, v, rw (first, ◌>>=◌) run, omega arith, dropped-IsKept env.timestamp k ids w u v same rest)

-- If the administrator has signed and there are at most `u32::MAX` ids of requests, then the call
-- succeeds. Afterwards a request of the index is stored if and only if it was and has not expired,
-- and unchanged then; and the index has lost the ids of all others, those whose request was no longer
-- stored among them.
pub cancel_expired_payment_requests_lem :
    (admin : Address) (env : Env) (w : World)
    → env.authorized admin ≡ true
    → get_admin w ≡ some admin
    → length (get_payment_request_ids w) ≤ u32_max
    → (removed : ℕ) × (v : World) × (cancel_expired_payment_requests admin env w ≡ ok removed v)
      × (removed ≤ length (get_payment_request_ids w))
      × ((k : String)
          → contains (get_payment_request_ids w) k ≡ true
          → (get_payment_request k v ≡ (
              if is_live env.timestamp (get_payment_request k w)
              then get_payment_request k w
              else none))
            × (contains (get_payment_request_ids v) k
                ≡ is_live env.timestamp (get_payment_request k w)))
unfolding cancel_expired_payment_requests
cancel_expired_payment_requests_lem admin env w signed is_admin room =
    let ids = get_payment_request_ids w in
    let (removed, v, run, most, kept) = cancel_requests_lem ids 0 env w (omega arith) in
    (
      removed,
      v,
      rw (require_admin_passes admin env w signed is_admin, ◌>>=◌) run,
      omega arith,
      λ k listed. (ground (arith, kept.stored k), ground (arith, kept.indexed k)),
    )
