-- ===== src/Cleanup/Retention.antt =====
-- What the removal of old refunds promises.
use lumenflow_contracts.Cleanup.Purging.{
  Purges, indexed_refunds, purge_all, purge_all-IsSameBut, purge_all-get_refund,
  purge_merchants-Purges, require_admin_passes,
}
use lumenflow_contracts.Base.{
  false, ◌<◌, ◌⊎◌, push_back, some, Option, ap, List, String, arith, contains, inl, inr, length,
  nat_eq, none, refl, string_eq, true, ℕ, ◌∙◌, ◌≡◌, ◌≤◌,
}
use lumenflow_contracts.Types.{RefundStatus, RefundRecord, Address}
use lumenflow_contracts.Base.Int.{pos}
use lumenflow_contracts.Cleanup.Handlers.{cleanup_expired_refunds, cutoff_at, is_purged}
use lumenflow_contracts.Host.{admin_action, Env}
use lumenflow_contracts.Storage.{get_admin, get_merchant_list, get_refund, World}
use lumenflow_contracts.Action.{ok, u32_max, ◌>>=◌}

-- Completed or rejected, and made before the cutoff; and the opposite of this.
abbrev pub IsOld : ℕ → RefundRecord → Type 0
IsOld cutoff r =
    ((r.status ≡ RefundStatus.completed) ⊎ (r.status ≡ RefundStatus.rejected))
    × (r.created_at < cutoff)

abbrev pub IsYoung : ℕ → RefundRecord → Type 0
IsYoung cutoff r =
    (r.status ≡ RefundStatus.pending) ⊎ (r.status ≡ RefundStatus.approved) ⊎ (cutoff ≤ r.created_at)

-- What the clean-up makes of the refund under the key `k`, if `rids` are visited.
pub record IsCleaned (cutoff : ℕ) (rids : List String) (w : World) (k : String)
    (left : Option RefundRecord) : Type 0 where
  pub removed :
      (r : RefundRecord)
      → get_refund k w ≡ some r
      → contains rids k ≡ true
      → IsOld cutoff r
      → left ≡ none
  pub recent : (r : RefundRecord) → get_refund k w ≡ some r → IsYoung cutoff r → left ≡ some r
  pub unvisited : contains rids k ≡ false → left ≡ get_refund k w

is_purged-IsOld :
    (cutoff : ℕ) (r : RefundRecord) → IsOld cutoff r → is_purged cutoff (some r) ≡ true
is_purged-IsOld cutoff r (inl completed, before) = rw completed (ground arith)
is_purged-IsOld cutoff r (inr rejected, before) = rw rejected (ground arith)

is_purged-IsYoung :
    (cutoff : ℕ) (r : RefundRecord) → IsYoung cutoff r → is_purged cutoff (some r) ≡ false
is_purged-IsYoung cutoff r (inl pending) = rw pending refl
is_purged-IsYoung cutoff r (inr (inl approved)) = rw approved refl
is_purged-IsYoung cutoff r (inr (inr late)) = ground arith

purge_all-IsCleaned :
    (cutoff : ℕ) (rids : List String) (w : World) (k : String)
    → IsCleaned cutoff rids w k (get_refund k (purge_all cutoff rids w))
purge_all-IsCleaned cutoff rids w k =
    let kept = purge_all-get_refund cutoff rids w k in
    record {
      removed = λ r found visited old.
          let purged_here : is_purged cutoff (get_refund k w) ≡ true =
            rw found (is_purged-IsOld cutoff r old) in
          kept ∙ rw visited (rw purged_here refl);
      recent = λ r found young.
          let kept_here : is_purged cutoff (get_refund k w) ≡ false =
            rw found (is_purged-IsYoung cutoff r young) in
          kept ∙ ground (arith, kept_here, found);
      unvisited = λ absent. kept ∙ rw absent refl;
    }

-- If the administrator has signed and at most `u32::MAX` refunds are indexed under the payments of the
-- listed merchants, then the call succeeds. It removes those of the indexed refunds that are completed
-- or rejected and were made before the retention period began. Every pending or approved refund,
-- however old it is, every later one and every one that is not indexed stays as it was; and nothing
-- else of the state changes but the events.
pub cleanup_expired_refunds_lem :
    (admin : Address) (env : Env) (w : World)
    → env.authorized admin ≡ true
    → get_admin w ≡ some admin
    → length (indexed_refunds (get_merchant_list w) w) ≤ u32_max
    → (removed : ℕ) × (v : World) × (cleanup_expired_refunds admin env w ≡ ok removed v)
      × (removed ≤ length (indexed_refunds (get_merchant_list w) w))
      × ((k : String)
          → IsCleaned
              (cutoff_at env w)
              (indexed_refunds (get_merchant_list w) w)
              w
              k
              (get_refund k v))
      × (v ≡ record w {
        claims = record (w.claims) { refunds = v.claims.refunds };
        events = v.events;
      })
unfolding cleanup_expired_refunds Purges
cleanup_expired_refunds_lem admin env w signed is_admin room =
    let cutoff = cutoff_at env w in
    let rids = indexed_refunds (get_merchant_list w) w in
    let u = purge_all cutoff rids w in
    let (removed, most, run) =
      purge_merchants-Purges cutoff (get_merchant_list w) w env 0 (omega arith) in
    let guard = require_admin_passes admin env w signed is_admin in
    (
      removed,
      record u {
        events = push_back u.events (admin_action "cleanup_expired_refunds" admin (pos removed));
      },
      rw (guard, ◌>>=◌) (rw (run, ◌>>=◌) refl),
      omega arith,
      purge_all-IsCleaned cutoff rids w,
      ap {A = World}
          (λ s. record s {
            events =
                push_back u.events (admin_action "cleanup_expired_refunds" admin (pos removed));
          })
          (purge_all-IsSameBut cutoff rids w),
    )
