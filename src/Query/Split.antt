-- ===== src/Query/Split.antt =====
-- One page: what the loop puts on it, and where a cursor starts the next.
use lumenflow_contracts.Base.{
  ==_refl, Bool, List, Option, String, [], ap, append_nil, arith, drop, if◌then◌else◌, length, ltb,
  map, nat_eq, none, push_back, push_back-append, refl, some, string_eq, suc, take, zero, ℕ, ◌++◌,
  ◌+◌, ◌<◌, ◌∙◌, ◌∷◌, ◌≡◌,
}
use lumenflow_contracts.Query.Pages.{fill, last_id, position, start_idx}
use lumenflow_contracts.Types.{PaymentOrder}
use mathlib.Core.List.{Mem, Nodup, Pairwise, mem-cons_of_mem, mem-cons_self}

-- What the loop returns: as much as there is room for, and a cursor if anything is left.
abbrev pub filled : List PaymentOrder → Bool → List PaymentOrder × Option String
filled page more = (page, if more then last_id page else none)

pub fill_lem :
    (left : ℕ) (result rest : List PaymentOrder)
    → fill left result rest ≡ filled (result ++ take left rest) (ltb left (length rest))
unfolding fill
fill_lem zero result [] = rw (append_nil result) refl
fill_lem (suc left) result [] = rw (append_nil result) (ground arith)
fill_lem zero result (p ∷ ps) = rw (append_nil result) (ground arith)
fill_lem (suc left) result (p ∷ ps) =
    let more : ltb (suc left) (length (p ∷ ps)) ≡ ltb left (length ps) = ground arith in
    rw more (
      fill_lem left (push_back result p) ps
      ∙ ap (λ page. filled page (ltb left (length ps))) (push_back-append result p (take left ps)))

-- A page that leaves something over ends in a payment that stands right before what is left.
pub data PageEnd (k : ℕ) (rest : List PaymentOrder) : Type 0 where
  page_end :
      (front : List PaymentOrder) (last : PaymentOrder) (left : List PaymentOrder)
      → rest ≡ front ++ last ∷ left
      → take (suc k) rest ≡ push_back front last
      → length rest ≡ length left + suc k
      → PageEnd k rest

pub take-PageEnd : (k : ℕ) (rest : List PaymentOrder) → k < length rest → PageEnd k rest
take-PageEnd k [] long = ground arith
take-PageEnd zero (p ∷ ps) long = page_end [] p ps refl refl (omega arith)
take-PageEnd (suc k) (p ∷ ps) long = elim (take-PageEnd k ps (omega arith)) [
  | page_end front last left split taken lengths ↦
      page_end (p ∷ front) last left (ap (λ l. p ∷ l) split) (ap (λ l. p ∷ l) taken) (omega arith)
]

pub last_id-push_back :
    (front : List PaymentOrder) (last : PaymentOrder)
    → last_id (push_back front last) ≡ some last.order_id
last_id-push_back [] last = refl
last_id-push_back (p ∷ []) last = refl
last_id-push_back (p ∷ q ∷ front) last = last_id-push_back (q ∷ front) last

abbrev pub order_ids : List PaymentOrder → List String
order_ids = map (λ p. p.order_id)

mem_split :
    (front : List PaymentOrder) (last : PaymentOrder) (left : List PaymentOrder)
    → Mem last.order_id (order_ids (front ++ last ∷ left))
mem_split [] last left = mem-cons_self
mem_split (p ∷ front) last left = mem-cons_of_mem p.order_id (mem_split front last left)

-- Where no two ids are the same, the cursor is found where it stands.
position_lem :
    (front : List PaymentOrder) (last : PaymentOrder) (left : List PaymentOrder)
    → Nodup (order_ids (front ++ last ∷ left))
    → position last.order_id (front ++ last ∷ left) ≡ some (length front)
unfolding position
position_lem [] last left distinct = rw (==_refl last.order_id) refl
position_lem (p ∷ front) last left (Pairwise.cons apart distinct) =
    let differ = apart last.order_id (mem_split front last left) in
    rw (position_lem front last left distinct)
      (ground (arith, string_eq.beq_iff p.order_id last.order_id, differ))

drop-append :
    (front : List PaymentOrder) (last : PaymentOrder) (left : List PaymentOrder)
    → drop (suc (length front)) (front ++ last ∷ left) ≡ left
drop-append [] last left = refl
drop-append (p ∷ front) last left = drop-append front last left

-- The page that starts after a cursor.
pub start_idx_after :
    (front : List PaymentOrder) (last : PaymentOrder) (left : List PaymentOrder)
    → Nodup (order_ids (front ++ last ∷ left))
    → drop (start_idx (some last.order_id) (front ++ last ∷ left)) (front ++ last ∷ left) ≡ left
start_idx_after front last left distinct =
    rw (position_lem front last left distinct) (drop-append front last left)
