-- ===== src/Escrow/History.antt =====
-- Histories of the contract as its escrows see them: calls of the six entry points that the host
-- committed, in any order, between any changes made elsewhere.
use lumenflow_contracts.Base.{subst, String, arith, false, nat_eq, string_eq, sym, ℕ, ◌≡◌}
use lumenflow_contracts.Escrow.Solvency.Steps.{
  cancel_escrow_before_lock-Inv, create_escrow-Inv, escrow_cancel-Inv, escrow_hold-Inv,
  escrow_release-Inv, release_escrow-Inv,
}
use lumenflow_contracts.Action.{Action, After, Done, ok, pure, ◌>>◌}
use lumenflow_contracts.Base.Dict.{Entries}
use lumenflow_contracts.Base.Int.{ℤ, ◌≤ℤ◌}
use lumenflow_contracts.Escrow.Conditional.{escrow_cancel, escrow_hold, escrow_release}
use lumenflow_contracts.Escrow.Solvency.{Inv, IsSoundEscrow, IsSoundHold, net}
use lumenflow_contracts.Escrow.Timed.{cancel_escrow_before_lock, create_escrow, release_escrow}
use lumenflow_contracts.Host.{Env}
use lumenflow_contracts.Storage.{World}
use lumenflow_contracts.Types.{Address, Bytes}

pub data Operation : Type 0 where
  create : Address → Address → ℤ → Address → ℕ → String → Operation
  release : String → Operation
  cancel : Address → String → Operation
  hold : Address → String → Address → Address → ℤ → Bytes → Address → ℕ → Operation
  release_hold : Address → String → Operation
  cancel_hold : Address → String → Operation

unfoldable pub perform : Operation → Action Done
perform (create p m x t u k) = create_escrow p m x t u k
perform (release k) = release_escrow k
perform (cancel p k) = cancel_escrow_before_lock p k
perform (hold p k m t x h a u) = escrow_hold p k m t x h a u >> pure tt
perform (release_hold c k) = escrow_release c k
perform (cancel_hold c k) = escrow_cancel c k

-- One committed change. The contract itself never authorises a call of its own entry points.
-- `elsewhere` is any change that leaves the escrows alone and takes no tokens out of the contract.
pub data Step (c : Address) (w w' : World) : Type 0 where
  call :
      (op : Operation) (env : Env)
      → env.contract ≡ c
      → env.authorized env.contract ≡ false
      → perform op env w ≡ ok tt w'
      → Step c w w'
  elsewhere :
      w'.escrows ≡ w.escrows
      → w'.escrow_holds ≡ w.escrow_holds
      → ((t : Address) → net c t w.calls ≤ℤ net c t w'.calls)
      → Step c w w'

pub data Reach (c : Address) (w : World) : World → Type 0 where
  here : Reach c w w
  next : {u v : World} → Reach c w u → Step c u v → Reach c w v

perform-Inv :
    (op : Operation) (t : Address) (env : Env) (w : World)
    → env.authorized env.contract ≡ false
    → Inv env.contract t w
    → After (Inv env.contract t) (perform op env w)
unfolding perform
perform-Inv (create p m x tok u k) t env w h s = create_escrow-Inv p m x tok u k t env w h s
perform-Inv (release k) t env w h s = release_escrow-Inv k t env w s
perform-Inv (cancel p k) t env w h s = cancel_escrow_before_lock-Inv p k t env w s
perform-Inv (hold p k m tok x hash a u) t env w h s =
    ground (arith, escrow_hold-Inv p k m tok x hash a u t env w h s)
perform-Inv (release_hold c k) t env w h s = escrow_release-Inv c k t env w s
perform-Inv (cancel_hold c k) t env w h s = escrow_cancel-Inv c k t env w s

Step-Inv : {c : Address} {w w' : World} (t : Address) → Inv c t w → Step c w w' → Inv c t w'
Step-Inv {c} {w} {w'} t s (call op env e h done) =
    let kept = perform-Inv op t env w h (subst (λ a. Inv a t w) (sym e) s) in
    subst (λ a. Inv a t w') e (rw done at kept)
Step-Inv {c} {w} {w'} t s (elsewhere same same_holds gain) = record {
  escrows_sound = subst (Entries IsSoundEscrow) (sym same) s.escrows_sound;
  holds_sound = subst (Entries IsSoundHold) (sym same_holds) s.holds_sound;
  solvent = ground (arith, gain t, s.solvent);
}

-- Let each escrow and each hold stand under its own id, for a positive amount, and let the tokens
-- that the contract has received, less those that it has paid out, cover its locked escrows and open
-- holds. Then all this is so after any history of calls of the six entry points by anybody, none of
-- them authorised by the contract itself, with changes in between that touch neither escrows nor
-- holds and take no tokens out of the contract.
pub Reach-Inv : {c : Address} {w w' : World} (t : Address) → Inv c t w → Reach c w w' → Inv c t w'
Reach-Inv t s here = s
Reach-Inv t s (next r st) = Step-Inv t (Reach-Inv t s r) st
