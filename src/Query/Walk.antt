-- ===== src/Query/Walk.antt =====
-- Reading a history to its end, page by page.
use lumenflow_contracts.Base.{
  Bool-cases, List, Option, String, [], ap, append-push_back, arith, drop, false, if◌then◌else◌,
  inl, inr, leb, leb→le, length, ltb, nat_eq, none, push_back, push_back-append, refl, some,
  string_eq, subst, suc, sym, take, take-all, true, zero, ℕ, ◌++◌, ◌<◌, ◌∙◌, ◌∷◌, ◌≡◌, ◌≤◌,
}
use lumenflow_contracts.Query.Split.{
  order_ids, page_end, start_idx_after, take-PageEnd, last_id-push_back, fill_lem,
}
use lumenflow_contracts.Action.{Outcome, err, ok, trap}
use lumenflow_contracts.Query.Filter.{PaymentPage}
use lumenflow_contracts.Query.Pages.{last_id, page_of, start_idx}
use lumenflow_contracts.Storage.{World}
use lumenflow_contracts.Types.{PaymentOrder}
use mathlib.Core.List.{Nodup}

abbrev pub after_page : List PaymentOrder → Option (List PaymentOrder) → Option (List PaymentOrder)
after_page page none = none
after_page page (some rest) = some (page ++ rest)

-- The client's loop: ask with the cursor of the page before, until there is none.
abbrev pub follow :
    (String → Option (List PaymentOrder)) → Outcome PaymentPage → Option (List PaymentOrder)
follow next trap = none
follow next (err e w) = none
follow next (ok page w) = elim page.next_cursor [
  | none ↦ some page.payments
  | some cursor ↦ after_page page.payments (next cursor)
]

unfoldable pub read_pages :
    (Option String → Outcome PaymentPage) → ℕ → Option String → Option (List PaymentOrder)
read_pages query zero cursor = none
read_pages query (suc more) cursor =
    follow (λ next. read_pages query more (some next)) (query cursor)

-- A query whose pages are those of one list.
abbrev pub Pages : ℕ → List PaymentOrder → (Option String → Outcome PaymentPage) → Type 0
Pages limit xs query =
    (cursor : Option String) → (w : World) × (query cursor ≡ ok (page_of limit xs cursor) w)

-- The page at a cursor, by what is left from there.
page_of_lem :
    (limit : ℕ) (xs left : List PaymentOrder) (cursor : Option String)
    → drop (start_idx cursor xs) xs ≡ left
    → page_of limit xs cursor ≡ record {
      payments = take limit left;
      next_cursor = if ltb limit (length left) then last_id (take limit left) else none;
      total_matching = length xs;
    }
page_of_lem limit xs left cursor here = rw here (rw (fill_lem limit [] left) refl)

read_pages-suc :
    (query : Option String → Outcome PaymentPage) (more : ℕ) (cursor : Option String)
    → read_pages query (suc more) cursor
      ≡ follow (λ next. read_pages query more (some next)) (query cursor)
unfolding read_pages
read_pages-suc query more cursor = refl

module _ (k : ℕ) (xs : List PaymentOrder) (query : Option String → Outcome PaymentPage)
    (pages : Pages (suc k) xs query) where
  read_pages_last :
      (more : ℕ) (cursor : Option String) (left : List PaymentOrder)
      → length left ≤ suc k
      → drop (start_idx cursor xs) xs ≡ left
      → read_pages query (suc more) cursor ≡ some left
  read_pages_last more cursor left short here =
      let (w, answer) = pages cursor in
      let none_left : ltb (suc k) (length left) ≡ false = ground arith in
      rw (read_pages-suc query more cursor) (
        rw answer (
          rw (page_of_lem (suc k) xs left cursor here)
            (rw none_left (rw (take-all (suc k) left short) refl))))

  read_pages_next :
      (more : ℕ) (cursor : Option String) (front left : List PaymentOrder) (last : PaymentOrder)
      → read_pages query more (some last.order_id) ≡ some left
      → take (suc k) (front ++ last ∷ left) ≡ push_back front last
      → suc k < length (front ++ last ∷ left)
      → drop (start_idx cursor xs) xs ≡ front ++ last ∷ left
      → read_pages query (suc more) cursor ≡ some (push_back front last ++ left)
  read_pages_next more cursor front left last rest taken long here =
      let (w, answer) = pages cursor in
      let some_left : ltb (suc k) (length (front ++ last ∷ left)) ≡ true = ground arith in
      rw (read_pages-suc query more cursor) (
        rw answer (
          rw (page_of_lem (suc k) xs (front ++ last ∷ left) cursor here)
            (rw some_left (rw taken (rw (last_id-push_back front last) (rw rest refl))))))

module _ (k : ℕ) (xs : List PaymentOrder) (query : Option String → Outcome PaymentPage)
    (pages : Pages (suc k) xs query) (distinct : Nodup (order_ids xs)) where
  -- From the start, or from after the payment `a`.
  pub data From (left : List PaymentOrder) : Option String → Type 0 where
    from_start : xs ≡ left → From left none
    from_after :
        (before : List PaymentOrder) (a : PaymentOrder)
        → xs ≡ before ++ a ∷ left
        → From left (some a.order_id)

  From-drop :
      (left : List PaymentOrder) (cursor : Option String)
      → From left cursor
      → drop (start_idx cursor xs) xs ≡ left
  From-drop left _ (from_start split) = split
  From-drop left _ (from_after before a split) =
      rw split (start_idx_after before a left (subst (λ l. Nodup (order_ids l)) split distinct))

  From-next :
      (front left : List PaymentOrder) (last : PaymentOrder) (cursor : Option String)
      → From (front ++ last ∷ left) cursor
      → From left (some last.order_id)
  From-next front left last _ (from_start split) = from_after front last split
  From-next front left last _ (from_after before a split) =
      from_after (before ++ a ∷ front) last (split ∙ append-push_back before front a last left)

  pub read_pages-From :
      (more : ℕ) (cursor : Option String) (left : List PaymentOrder)
      → From left cursor
      → length left < more
      → read_pages query more cursor ≡ some left
  read_pages-From zero cursor left from enough = absurd (omega arith)
  read_pages-From (suc more) cursor left from enough =
      let here = From-drop left cursor from in
      elim (Bool-cases (leb (length left) (suc k))) [
        | inl short ↦ read_pages_last k xs query pages more cursor left (leb→le _ _ short) here
        | inr long ↦ elim (take-PageEnd k left (ground arith)) [
          | page_end front last rest split taken lengths ↦
              let next = From-next front rest last cursor (subst (λ l. From l cursor) split from) in
              read_pages_next k xs query pages more cursor front rest last
                (read_pages-From more (some last.order_id) rest next (omega arith))
                (subst (λ l. take (suc k) l ≡ push_back front last) split taken)
                (subst (λ l. suc k < length l) split (ground arith)) (here ∙ split)
              ∙ ap some (push_back-append front last rest ∙ sym split)
        ]
      ]
