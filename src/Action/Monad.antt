-- ===== src/Action/Monad.antt =====
-- The monad of the contract's entry points.
use lumenflow_contracts.Base.{
  nat_eq, string_eq, Bool, true, false, Option, none, some, ◌∷◌, if◌then◌else◌, push_back,
}
use lumenflow_contracts.Types.{PaymentError, Address}
use lumenflow_contracts.Host.{Env, TokenCall, Event}
use lumenflow_contracts.Storage.State.{World}

pub data Outcome (A : Type 0) : Type 0 where
  ok : A → World → Outcome A
  err : PaymentError → World → Outcome A
  trap : Outcome A

abbrev pub Action : Type 0 → Type 0
Action A = Env → World → Outcome A

abbrev pub Done : Type 0
Done = Unit {0}

infixl 5 ◌>>=◌ ◌>>◌
abbrev pub ◌>>=◌ : {A B : Type 0} → Action A → (A → Action B) → Action B
◌>>=◌ m f env w = elim (m env w) [ ok a w' ↦ f a env w' | err e w' ↦ err e w' | trap ↦ trap ]

abbrev pub ◌>>◌ : {A B : Type 0} → Action A → Action B → Action B
m >> k = m >>= λ _. k

module _ {A : Type 0} where
  abbrev pub pure : A → Action A
  pure a env w = ok a w

  -- `return Err(e)`
  abbrev pub fail : PaymentError → Action A
  fail e env w = err e w

  -- `ok_or(e)?`
  abbrev pub or_fail : Option A → PaymentError → Action A
  or_fail none e env w = err e w
  or_fail (some a) e env w = ok a w

  abbrev pub gets : (World → A) → Action A
  gets f env w = ok (f w) w

  abbrev pub asks : (Env → A) → Action A
  asks f env w = ok (f env) w

abbrev pub ask : Action Env
ask env w = ok env w

-- `if test { return Err(e) }`
abbrev pub fail_if : Bool → PaymentError → Action Done
fail_if c e env w = if c then err e w else ok tt w

abbrev pub modify : (World → World) → Action Done
modify f env w = ok tt (f w)

-- `if test { ... }`
abbrev pub when : Bool → Action Done → Action Done
when c m env w = elim c [ true ↦ m env w | false ↦ ok tt w ]

-- `address.require_auth()`
abbrev pub require_auth : Address → Action Done
require_auth a env w = if env.authorized a then ok tt w else trap

-- A call to a token contract.
abbrev pub call_token : TokenCall → Action Done
call_token c env w =
    if env.accepts w.calls c then ok tt (record w { calls = c ∷ w.calls }) else trap

-- `env.events().publish`
abbrev pub publish : Event → Action Done
publish e env w = ok tt (record w { events = push_back w.events e })

-- A property of the state that an action leaves, with a value or with an error.
abbrev pub After : {A : Type 0} → (World → Type 0) → Outcome A → Type 0
After P (ok a w) = P w
After P (err e w) = P w
After P trap = Unit

abbrev pub is_ok : {A : Type 0} → Outcome A → Bool
is_ok (ok a w) = true
is_ok (err e w) = false
is_ok trap = false

-- The state that an action leaves, and `w` if it traps.
abbrev pub left_by : {A : Type 0} → World → Outcome A → World
left_by w (ok a w') = w'
left_by w (err e w') = w'
left_by w trap = w

-- The value that an action returns, and `a` if it returns none.
abbrev pub value_of : {A : Type 0} → A → Outcome A → A
value_of a (ok b w) = b
value_of a (err e w) = a
value_of a trap = a
