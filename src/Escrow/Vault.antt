-- ===== src/Escrow/Vault.antt =====
-- The escrows as an abstract vault: what anybody can rely on, without the records that keep it.
use lumenflow_contracts.Storage.{get_escrow}
use lumenflow_contracts.Base.{
  Option, String, false, nat_eq, none, some, string_eq, true, ℕ, ◌<◌, ◌==◌, ◌∷◌, ◌≡◌, ◌≤◌,
}
use lumenflow_contracts.Base.Int.{ℤ}
use lumenflow_contracts.Host.{Env, TokenCall, transfer}
use lumenflow_contracts.Storage.{World}
use lumenflow_contracts.Types.{Address, EscrowRecord, EscrowStatus}
use lumenflow_contracts.Escrow.History.{
  Operation, cancel, cancel_hold, create, hold, release, release_hold,
}

-- What a deal is about, and where it stands.
pub record Deal : Type 0 where
  pub payer : Address
  pub merchant : Address
  pub token : Address
  pub amount : ℤ
  pub deadline : ℕ

pub data Stage : Type 0 where
  vacant : Stage
  live : Deal → Stage
  paid_out : Deal → Stage
  paid_back : Deal → Stage

-- The moves of one deal at the time `now`, with the transfer that each makes: before the deadline the
-- payer may deposit and take back, from the deadline on the merchant is paid.
pub data Move (c : Address) (now : ℕ) : Stage → Stage → TokenCall → Type 0 where
  deposit :
      (d : Deal)
      → now < d.deadline
      → Move c now vacant (live d) (transfer d.token d.payer c d.amount)
  pay_out :
      (d : Deal)
      → d.deadline ≤ now
      → Move c now (live d) (paid_out d) (transfer d.token c d.merchant d.amount)
  pay_back :
      (d : Deal)
      → now < d.deadline
      → Move c now (live d) (paid_back d) (transfer d.token c d.payer d.amount)

abbrev pub deal_of : EscrowRecord → Deal
deal_of e = record {
  payer = e.payer;
  merchant = e.merchant;
  token = e.token;
  amount = e.amount;
  deadline = e.unlock_at;
}

abbrev pub stage_in : EscrowStatus → Deal → Stage
stage_in EscrowStatus.locked d = live d
stage_in EscrowStatus.released d = paid_out d
stage_in EscrowStatus.cancelled d = paid_back d

abbrev pub stage_of : Option EscrowRecord → Stage
stage_of none = vacant
stage_of (some e) = stage_in e.status (deal_of e)

-- The view of the contract's state as a vault.
abbrev pub stage : World → String → Stage
stage w k = stage_of (get_escrow k w)

-- The deal `k` goes from one stage to another by a move of the vault, with its transfer `t` and no
-- other; all other deals stay.
pub record IsMove (env : Env) (k : String) (before after : Stage) (t : TokenCall) (w w' : World)
    : Type 0 where
  pub from : stage w k ≡ before
  pub to : stage w' k ≡ after
  pub move : Move env.contract env.timestamp before after t
  pub called : w'.calls ≡ t ∷ w.calls
  pub others : (j : String) → (k == j) ≡ false → stage w' j ≡ stage w j

-- The deposit of the deal that the arguments of `create_escrow` describe, signed by its payer.
abbrev pub IsDeposit : Deal → String → Env → World → World → Type 0
IsDeposit d k env w w' =
    (env.authorized d.payer ≡ true)
    × IsMove env k vacant (live d) (transfer d.token d.payer env.contract d.amount) w w'

abbrev pub IsPayOut : String → Env → World → World → Type 0
IsPayOut k env w w' =
    (d : Deal) × IsMove env k (live d) (paid_out d)
      (transfer d.token env.contract d.merchant d.amount) w w'

-- The caller is the payer of the deal, and has signed.
abbrev pub IsPayBack : Address → String → Env → World → World → Type 0
IsPayBack p k env w w' =
    (env.authorized p ≡ true)
    × ((d : Deal) × (d.payer ≡ p)
        × IsMove env k (live d) (paid_back d) (transfer d.token env.contract d.payer d.amount) w w')

-- What each call is for the vault; the conditional holds are none of its business.
abbrev pub Refines : Operation → Env → World → World → Type 0
Refines (create p m x t u k) env w w' =
    IsDeposit (record { payer = p; merchant = m; token = t; amount = x; deadline = u }) k env w w'
Refines (release k) env w w' = IsPayOut k env w w'
Refines (cancel p k) env w w' = IsPayBack p k env w w'
Refines (hold p k m t x h a u) env w w' = (j : String) → stage w' j ≡ stage w j
Refines (release_hold c k) env w w' = (j : String) → stage w' j ≡ stage w j
Refines (cancel_hold c k) env w w' = (j : String) → stage w' j ≡ stage w j
