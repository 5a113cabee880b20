-- ===== src/Base/Texts.antt =====
-- Texts as the client prints them: joined, repeated and padded, and how many characters they have.
use Prim.Native.Nat.{ℕ, zero, suc, ◌+◌, ◌-◌, ◌≤◌}
use Prim.Native.String.{String, [], ◌∷◌, ◌++◌, len, count}
use Prim.Native.String.len
use mathlib.Core.Path.{◌≡◌, refl}
use native.Mathlib.Omega.{arith}
use text.Mathlib.TextLemmas.{length-nil, length-cons, length-append}
use text.Mathlib.TextPositions.{len_utf8-pos}

abbrev pub text_append : String → String → String
text_append s t = s ++ t

-- A text has at least as many bytes as characters.
pub count-le-len : (s : String) → count s ≤ len s
count-le-len [] = rw (length-nil, len.nil) (omega arith)
count-le-len (c ∷ s) =
    let (k, one_more) = len_utf8-pos c in
    rw (length-cons c s, len.cons c s) (omega (arith, one_more, count-le-len s))

pub count-append : (s t : String) → count (text_append s t) ≡ count s + count t
count-append s t = length-append s t

-- `"x".repeat(n)`, for a text of one character.
abbrev pub repeat : String → ℕ → String
repeat x zero = ""
repeat x (suc n) = text_append x (repeat x n)

pub count-repeat : (x : String) (n : ℕ) → count x ≡ 1 → count (repeat x n) ≡ n
count-repeat x zero h = length-nil
count-repeat x (suc n) h = omega (arith, count-append x (repeat x n), h, count-repeat x n h)

-- `{:<w$}`, which counts characters.
abbrev pub pad : ℕ → String → String
pad w s = text_append s (repeat " " (w - count s))

pub count-pad : (w : ℕ) (s : String) → count s ≤ w → count (pad w s) ≡ w
count-pad w s h =
    let spaces = repeat " " (w - count s) in
    omega (arith, count-append s spaces, count-repeat " " (w - count s) refl)
