-- ===== src/Payment/Grouping.antt =====
-- What the groups of a batch come to.
use lumenflow_contracts.Base.{
  ◌⊎◌, subst, sym, push_back, true, ◌∙◌, Bool-cases, arith, inl, inr, refl, Bool, List, [], false,
  if◌then◌else◌, nat_eq, string_eq, ◌&&◌, ◌||◌, ◌∷◌, ◌≡◌,
}
use lumenflow_contracts.Payment.Batch.{
  group_items, with_group, Group, is_group_of, new_group, update_groups,
}
use lumenflow_contracts.Action.{left_by, value_of, ok}
use lumenflow_contracts.Base.Int.{int_laws, pos, ℤ, ◌+ℤ◌}
use lumenflow_contracts.Host.{Env}
use lumenflow_contracts.Storage.{World}
use lumenflow_contracts.Types.{Address, BatchPaymentItem}

-- What the groups hold for a token and a merchant.
unfoldable pub grouped_amount : Address → Address → List Group → ℤ
grouped_amount t m [] = pos 0
grouped_amount t m (g ∷ gs) =
    (if is_group_of t m g then g.total else pos 0) +ℤ grouped_amount t m gs

-- What the items ask for, for a token and a merchant.
unfoldable pub item_amount : Address → Address → List BatchPaymentItem → ℤ
item_amount t m [] = pos 0
item_amount t m (i ∷ rest) =
    (if is_group_of t m (new_group i) then i.amount else pos 0) +ℤ item_amount t m rest

unfoldable pub has_group : Address → Address → List Group → Bool
has_group t m [] = false
has_group t m (g ∷ gs) = is_group_of t m g || has_group t m gs

-- No token and merchant have two groups.
unfoldable pub OneEach : List Group → Type 0
OneEach [] = Unit
OneEach (g ∷ gs) = (has_group g.token g.merchant gs ≡ false) × OneEach gs

-- What an update of the groups `gs` by the item `i` comes to.
abbrev pub IsUpdate : BatchPaymentItem → List Group → List Group × Bool → Type 0
IsUpdate i gs r =
    (r.1 ≡ has_group i.token_address i.merchant_address gs)
    × ((t m : Address) → has_group t m (r.0) ≡ has_group t m gs)
    × ((t m : Address)
        → grouped_amount t m (r.0)
          ≡ grouped_amount t m gs
            +ℤ (if r.1 && is_group_of t m (new_group i) then i.amount else pos 0))
    × OneEach (r.0)

IsUpdate-cons_hit :
    (i : BatchPaymentItem) (g : Group) (gs : List Group) (s : List Group × Bool)
    → is_group_of i.token_address i.merchant_address g ≡ true
    → OneEach (g ∷ gs)
    → IsUpdate i gs s
    → IsUpdate i (g ∷ gs) (record g { total = g.total +ℤ i.amount } ∷ s.0, true)
unfolding has_group grouped_amount OneEach
IsUpdate-cons_hit i g gs s hit one ih =
    let alone : s.1 ≡ false = ground (arith, ih.0, one.0) in
    (
      ground arith,
      λ t m. ground (arith, ih.1 t m),
      λ t m.
          let rest : grouped_amount t m (s.0) ≡ grouped_amount t m gs =
            grind (int_laws, ih.2 t m) in
          grind (int_laws, rest),
      (ground (arith, ih.1 g.token g.merchant, one.0), ih.3),
    )

IsUpdate-cons_miss :
    (i : BatchPaymentItem) (g : Group) (gs : List Group) (s : List Group × Bool)
    → is_group_of i.token_address i.merchant_address g ≡ false
    → OneEach (g ∷ gs)
    → IsUpdate i gs s
    → IsUpdate i (g ∷ gs) (g ∷ s.0, s.1)
unfolding has_group grouped_amount OneEach
IsUpdate-cons_miss i g gs s miss one ih = (
  ground (arith, ih.0),
  λ t m. ground (arith, ih.1 t m),
  λ t m. grind (int_laws, ih.2 t m),
  (ground (arith, ih.1 g.token g.merchant, one.0), ih.3),
)

-- One step of the loop.
update_groups-cons :
    (i : BatchPaymentItem) (g : Group) (gs : List Group) (env : Env) (w w' : World)
    (r : List Group × Bool)
    → update_groups i (g ∷ gs) env w ≡ ok r w'
    → (s : List Group × Bool) × (update_groups i gs env w ≡ ok s w')
      × (((is_group_of i.token_address i.merchant_address g ≡ true)
            × (r ≡ (record g { total = g.total +ℤ i.amount } ∷ s.0, true)))
          ⊎ ((is_group_of i.token_address i.merchant_address g ≡ false) × (r ≡ (g ∷ s.0, s.1))))
unfolding update_groups
update_groups-cons i g gs env w w' r done = (
  value_of ([], false) (update_groups i gs env w),
  ground arith,
  elim (Bool-cases (is_group_of i.token_address i.merchant_address g)) [
    | inl hit ↦ inl (hit, ground arith)
    | inr miss ↦ inr (miss, ground arith)
  ],
)

IsUpdate-cons :
    (i : BatchPaymentItem) (g : Group) (gs : List Group) (r s : List Group × Bool)
    → OneEach (g ∷ gs)
    → IsUpdate i gs s
    → ((is_group_of i.token_address i.merchant_address g ≡ true)
        × (r ≡ (record g { total = g.total +ℤ i.amount } ∷ s.0, true)))
      ⊎ ((is_group_of i.token_address i.merchant_address g ≡ false) × (r ≡ (g ∷ s.0, s.1)))
    → IsUpdate i (g ∷ gs) r
IsUpdate-cons i g gs r s one ih (inl (hit, value)) =
    subst (IsUpdate i (g ∷ gs)) (sym value) (IsUpdate-cons_hit i g gs s hit one ih)
IsUpdate-cons i g gs r s one ih (inr (miss, value)) =
    subst (IsUpdate i (g ∷ gs)) (sym value) (IsUpdate-cons_miss i g gs s miss one ih)

IsUpdate-nil :
    (i : BatchPaymentItem) (env : Env) (w w' : World) (r : List Group × Bool)
    → update_groups i [] env w ≡ ok r w'
    → (w' ≡ w) × IsUpdate i [] r
unfolding update_groups has_group grouped_amount OneEach
IsUpdate-nil i env w w' r done =
    let empty : r ≡ ([], false) = ground arith in
    (ground arith, rw empty (refl, λ t m. refl, λ t m. omega int_laws, tt))

OneEach-tail : (g : Group) (gs : List Group) → OneEach (g ∷ gs) → OneEach gs
unfolding OneEach
OneEach-tail g gs one = one.1

update_groups-IsUpdate :
    (i : BatchPaymentItem) (gs : List Group) (env : Env) (w w' : World) (r : List Group × Bool)
    → OneEach gs
    → update_groups i gs env w ≡ ok r w'
    → (w' ≡ w) × IsUpdate i gs r
update_groups-IsUpdate i [] env w w' r one done = IsUpdate-nil i env w w' r done
update_groups-IsUpdate i (g ∷ gs) env w w' r one done =
    let c = update_groups-cons i g gs env w w' r done in
    let ih = update_groups-IsUpdate i gs env w w' c.0 (OneEach-tail g gs one) c.1 in
    (ih.0, IsUpdate-cons i g gs r c.0 one ih.1 c.2)

push_back_group :
    (i : BatchPaymentItem) (gs : List Group) (t m : Address)
    → OneEach gs
    → has_group i.token_address i.merchant_address gs ≡ false
    → (has_group t m (push_back gs (new_group i))
        ≡ (has_group t m gs || is_group_of t m (new_group i)))
      × (grouped_amount t m (push_back gs (new_group i))
          ≡ grouped_amount t m gs +ℤ (if is_group_of t m (new_group i) then i.amount else pos 0))
      × OneEach (push_back gs (new_group i))
unfolding has_group grouped_amount OneEach
push_back_group i [] t m one fresh = (ground arith, grind int_laws, (refl, tt))
push_back_group i (g ∷ gs) t m one fresh =
    let ih = push_back_group i gs t m one.1 (ground arith) in
    let own = (push_back_group i gs g.token g.merchant one.1 (ground arith)).0 in
    (ground (arith, ih.0), grind (int_laws, ih.1), (ground (arith, own, one.0), ih.2))

with_group_lem :
    (i : BatchPaymentItem) (gs : List Group) (env : Env) (w w' : World) (r : List Group × Bool)
    (t m : Address)
    → OneEach gs
    → update_groups i gs env w ≡ ok r w'
    → (grouped_amount t m (with_group i r)
        ≡ grouped_amount t m gs +ℤ (if is_group_of t m (new_group i) then i.amount else pos 0))
      × OneEach (with_group i r)
with_group_lem i gs env w w' r t m one done =
    let known = (update_groups-IsUpdate i gs env w w' r one done).1 in
    elim (Bool-cases (r.1)) [
      | inl had ↦ rw had (grind (int_laws, known.2 t m), known.3)
      | inr new ↦
          let fresh : has_group i.token_address i.merchant_address (r.0) ≡ false =
            ground (arith, known.0, known.1 i.token_address i.merchant_address) in
          let added = push_back_group i (r.0) t m known.3 fresh in
          rw new (grind (int_laws, known.2 t m, added.1), added.2)
    ]

-- Grouping pays each merchant, in each token, exactly what the items ask for: it changes no state,
-- and if it starts from one group for each token and merchant, then so it ends, and the amount
-- grouped for a token and a merchant grows by the sum of their items.
pub group_items_lem :
    (items : List BatchPaymentItem) (gs gs' : List Group) (env : Env) (w w' : World) (t m : Address)
    → OneEach gs
    → group_items items gs env w ≡ ok gs' w'
    → (w' ≡ w)
      × OneEach gs'
      × (grouped_amount t m gs' ≡ grouped_amount t m gs +ℤ item_amount t m items)
unfolding group_items item_amount
group_items_lem [] gs gs' env w w' t m one done =
    let same : gs' ≡ gs = ground arith in (ground arith, rw same one, rw same (omega int_laws))
group_items_lem (i ∷ items) gs gs' env w w' t m one done =
    let r = value_of (gs, false) (update_groups i gs env w) in
    let u = left_by w (update_groups i gs env w) in
    let first : update_groups i gs env w ≡ ok r u = ground arith in
    let still = (update_groups-IsUpdate i gs env w u r one first).0 in
    let step = with_group_lem i gs env w u r t m one first in
    let rest =
      group_items_lem items (with_group i r) gs' env u w' t m step.1 (ground (arith, first)) in
    (rest.0 ∙ still, rest.1, grind (int_laws, rest.2, step.0))
