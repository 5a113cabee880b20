-- ===== src/Cli/Redaction.antt =====
-- What the client shows of a secret key, and when it warns.
use lumenflow_contracts.Base.{
  Bool-cases, Option, false, [], inl, inr, Option-cases, none, len, List, String, ap, arith,
  if◌then◌else◌, leb, length, ltb, nat_eq, refl, some, string_eq, subst, sym, true, ℕ, ◌++◌, ◌+◌,
  ◌-◌, ◌<◌, ◌∙◌, ◌∷◌, ◌≡◌, ◌≤◌,
}
use lumenflow_contracts.Base.Texts.{text_append}
use lumenflow_contracts.Cli.Commands.{Client, Reply, answer, printed, texts}
use lumenflow_contracts.Cli.Invocation.{base_invoke}
use lumenflow_contracts.Cli.Reports.{
  account_stats, account_stats_on, show_count, stats_reply, config_lines, last_count, print_config,
  redact, shown_with,
}
use lumenflow_contracts.Cli.Submission.{Ran, exited, not_started}
use lumenflow_contracts.Payment.Index.{payment_history_warning_threshold}
use Prim.Native.String.len
use text.Mathlib.Text.{get?}
use text.Mathlib.TextLemmas.{nil-append, append-nil, append_assoc}
use text.Mathlib.TextPositions.{len-append, get?-append_middle}
use lumenflow_contracts.Cli.Config.{Config}

-- A text between two texts of four bytes.
abbrev pub key_of : String → String → String → String
key_of a x b = text_append a (text_append x b)

get?-front : (a t : String) → len a ≡ 4 → get? (text_append a t) 0 4 ≡ some a
get?-front a t four =
    let s = text_append a t in
    let middle : get? (text_append "" s) (len "") (len "" + len a) ≡ some a =
      get?-append_middle "" a t in
    let whole : get? s (len "") (len "" + len a) ≡ some a =
      subst (λ u. get? u (len "") (len "" + len a) ≡ some a) (nil-append s) middle in
    let from_start : get? s 0 (0 + len a) ≡ some a =
      subst (λ i. get? s i (i + len a) ≡ some a) len.nil whole in
    let four_on : 0 + len a ≡ 4 = omega (arith, four) in
    subst (λ j. get? s 0 j ≡ some a) four_on from_start

get?-back :
    (a x b : String)
    → len b ≡ 4
    → get? (key_of a x b) (len (key_of a x b) - 4) (len (key_of a x b)) ≡ some b
get?-back a x b four =
    let front = text_append a x in
    let middle : get? (text_append front (text_append b "")) (len front) (len front + len b)
        ≡ some b =
      get?-append_middle front b "" in
    let whole : text_append front (text_append b "") ≡ key_of a x b =
      ap (text_append front) (append-nil b) ∙ append_assoc a x b in
    let size : len (key_of a x b) ≡ len front + len b =
      ap len (sym (append_assoc a x b)) ∙ len-append front b in
    let start : len (key_of a x b) - 4 ≡ len front = omega (arith, size, four) in
    rw start (rw size (subst (λ s. get? s (len front) (len front + len b) ≡ some b) whole middle))

redact_long :
    (a x b : String)
    → len a ≡ 4
    → len b ≡ 4
    → 0 < len x
    → redact (key_of a x b) ≡ some (texts (a ∷ "…" ∷ b ∷ []))
unfolding redact
redact_long a x b front back more =
    let size : ltb 8 (len (key_of a x b)) ≡ true =
      ground (arith, len-append a (text_append x b), len-append x b, front, back) in
    rw size (rw (get?-front a (text_append x b) front) (rw (get?-back a x b back) refl))

redact_short : (s : String) → len s ≤ 8 → redact s ≡ some "*****"
unfolding redact
redact_short s h = ground arith

-- The printed configuration shows of a source account that is longer than eight bytes its first four
-- and its last four, and nothing of one that is not longer: two keys with the same ends, or two keys
-- of at most eight bytes, give the same text.
pub print_config_hides :
    (config : Config) (a b x y s t : String)
    → len a ≡ 4
    → len b ≡ 4
    → 0 < len x
    → 0 < len y
    → len s ≤ 8
    → len t ≤ 8
    → (print_config (record config { source_account = some (key_of a x b) })
        ≡ print_config (record config { source_account = some (key_of a y b) }))
      × (print_config (record config { source_account = some (key_of a x b) })
          ≡ some (config_lines config (texts (a ∷ "…" ∷ b ∷ []))))
      × (print_config (record config { source_account = some s })
          ≡ print_config (record config { source_account = some t }))
unfolding print_config
print_config_hides config a b x y s t front back more more' short short' = (
  ap (shown_with config)
      (redact_long a x b front back more ∙ sym (redact_long a y b front back more')),
  ap (shown_with config) (redact_long a x b front back more),
  ap (shown_with config) (redact_short s short ∙ sym (redact_short t short')),
)

answered :
    (c : Client) (next : String → Reply) (ran : Ran) (lines : List String)
    → answer c "get_account_payment_count" next ran ≡ printed lines
    → (stdout : String) × (stderr : String) × (ran ≡ exited true stdout stderr)
      × (next stdout ≡ printed lines)
answered c next (exited true stdout stderr) lines done = (stdout, stderr, refl, done)
answered c next (exited false stdout stderr) lines done = ground arith
answered c next (not_started e) lines done = ground arith

stats_reply_lem :
    (c : Client) (address stdout : String) (o : Option ℕ) (lines : List String)
    → stats_reply c address stdout o ≡ printed lines
    → (n : ℕ) × (o ≡ some n)
      × (length lines ≡ (if leb payment_history_warning_threshold n then 5 else 4))
stats_reply_lem c address stdout none lines done = ground arith
stats_reply_lem c address stdout (some n) lines done =
    elim (Bool-cases (leb payment_history_warning_threshold n)) [
      | inl near ↦ (n, refl, rw near (ground arith))
      | inr far ↦ (n, refl, rw far (ground arith))
    ]

-- The statistics of an account, if they are printed, come from the last line of the contract's answer
-- that is a number, and end with the warning exactly if that number has reached the threshold at
-- which the contract itself publishes its own warning.
pub account_stats_lem :
    (c : Client) (config : Config) (address : String) (lines : List String)
    → account_stats c config address ≡ printed lines
    → (base : List String) × (stdout : String) × (stderr : String) × (n : ℕ) × (base_invoke config
        ≡ some base)
      × (c.shell.stellar 0
            (base ++ ("--" ∷ "get_account_payment_count" ∷ "--address" ∷ address ∷ []))
          ≡ exited true stdout stderr)
      × (last_count c (c.shell.text.lines stdout) ≡ some n)
      × (length lines ≡ (if leb payment_history_warning_threshold n then 5 else 4))
unfolding account_stats
account_stats_lem c config address lines done = elim (Option-cases (base_invoke config)) [
  | inl missing ↦ ground arith
  | inr (base, target) ↦
      let (stdout, stderr, ran, shown) =
        answered c (show_count c address)
          (c.shell.stellar 0
            (base ++ ("--" ∷ "get_account_payment_count" ∷ "--address" ∷ address ∷ [])))
          lines (subst (λ o. account_stats_on c address o ≡ printed lines) target done) in
      let (n, found, long) =
        stats_reply_lem c address stdout (last_count c (c.shell.text.lines stdout)) lines shown in
      (base, stdout, stderr, n, target, ran, found, long)
]
