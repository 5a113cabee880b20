-- ===== src/Query/Filter.antt =====
-- contracts/lumenflow/src/lib.rs, `matches_filter`, and what a query of payments takes and returns
-- (types.rs).
use lumenflow_contracts.Base.{
  Bool, List, Option, String, contains, eqb, false, leb, nat_eq, none, some, string_eq, true, ℕ,
  ◌&&◌,
}
use lumenflow_contracts.Base.Int.{ℤ, leb_ℤ}
use lumenflow_contracts.Types.{Address, PaymentOrder, PaymentStatus}

pub data SortField : Type 0 where
  date amount : SortField

pub data SortOrder : Type 0 where
  ascending descending : SortOrder

pub data StatusFilter : Type 0 where
  any completed partially_refunded fully_refunded : StatusFilter

pub record PaymentFilter : Type 0 where
  pub date_start : Option ℕ
  pub date_end : Option ℕ
  pub amount_min : Option ℤ
  pub amount_max : Option ℤ
  pub token : Option Address
  pub status : StatusFilter
  pub tag : Option String

pub record PaymentPage : Type 0 where
  pub payments : List PaymentOrder
  pub next_cursor : Option String
  pub total_matching : ℕ

-- `if let Some(x) = opt { if !test(x) { return false; } }`
abbrev pub passes : {A : Type 0} → Option A → (A → Bool) → Bool
passes none test = true
passes (some a) test = test a

abbrev pub has_status : StatusFilter → PaymentStatus → Bool
has_status StatusFilter.any s = true
has_status StatusFilter.completed PaymentStatus.completed = true
has_status StatusFilter.completed _ = false
has_status StatusFilter.partially_refunded PaymentStatus.partially_refunded = true
has_status StatusFilter.partially_refunded _ = false
has_status StatusFilter.fully_refunded PaymentStatus.fully_refunded = true
has_status StatusFilter.fully_refunded _ = false

abbrev pub has_tag : Option (List String) → String → Bool
has_tag none tag = false
has_tag (some tags) tag = contains tags tag

abbrev pub matches_filter : Option PaymentFilter → PaymentOrder → Bool
matches_filter none p = true
matches_filter (some f) p =
    passes f.date_start (λ start. leb start p.paid_at)
    && passes f.date_end (λ end. leb p.paid_at end)
    && passes f.amount_min (λ min. leb_ℤ min p.amount)
    && passes f.amount_max (λ max. leb_ℤ p.amount max)
    && passes f.token (λ token. eqb p.token token)
    && has_status f.status p.status
    && passes f.tag (has_tag p.tags)
