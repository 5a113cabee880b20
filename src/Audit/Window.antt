-- ===== src/Audit/Window.antt =====
-- What the log keeps: the newest entries, as many as the maximum allows.
use lumenflow_contracts.Action.{ok}
use lumenflow_contracts.Audit.Log.{
  append_audit, get_admin_audit_count, get_admin_audit_entry, get_admin_audit_max_entries,
  new_audit_entry,
}
use lumenflow_contracts.Base.{
  String, arith, is_some, leb, ltb, nat_eq, some, string_eq, ℕ, ◌&&◌, ◌+◌, ◌-◌, ◌≡◌, ◌≤◌,
}
use lumenflow_contracts.Base.Dict.{del, lookup-del, lookup-put, lookup-put_self}
use lumenflow_contracts.Host.{Env}
use lumenflow_contracts.Storage.{World}
use lumenflow_contracts.Types.{Address, AdminActionType}

-- With `m` entries allowed, the entries present are those of the indices from `count - m` up to, but
-- not including, `count`.
abbrev pub IsWindow : ℕ → World → Type 0
IsWindow m w =
    (i : ℕ)
    → is_some (get_admin_audit_entry i w)
      ≡ (leb (get_admin_audit_count w - m) i && ltb i (get_admin_audit_count w))

-- If the log holds its newest entries, as many as its maximum, which is at least one, allows, then
-- so it does after an entry is appended; the entry stands at the old count, and the count grows by
-- one.
pub append_audit-IsWindow :
    (action : AdminActionType) (caller : Address) (params : String) (env : Env) (w w' : World)
    → 1 ≤ get_admin_audit_max_entries w
    → IsWindow (get_admin_audit_max_entries w) w
    → append_audit action caller params env w ≡ ok tt w'
    → (get_admin_audit_count w' ≡ get_admin_audit_count w + 1)
      × (get_admin_audit_entry (get_admin_audit_count w) w'
          ≡ some (new_audit_entry (get_admin_audit_count w) action caller params env))
      × IsWindow (get_admin_audit_max_entries w') w'
unfolding append_audit
append_audit-IsWindow action caller params env w w' positive window done =
    let n = get_admin_audit_count w in
    let m = get_admin_audit_max_entries w in
    let e = new_audit_entry n action caller params env in
    let d = w.audit.admin_audit_entries in
    (
      ground arith,
      ground (arith, lookup-put_self n e d, lookup-put_self n e (del (n - m) d)),
      λ i. ground (
        arith,
        window i,
        lookup-put i n e d,
        lookup-put i n e (del (n - m) d),
        lookup-del i (n - m) d,
      ),
    )
