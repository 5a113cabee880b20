-- ===== src/Examples/AuditRuns.antt =====
-- Runs of the audit log.
use lumenflow_contracts.Action.{left_by, ok}
use lumenflow_contracts.Audit.Log.{
  append_audit, get_admin_audit_count, get_admin_audit_entry, new_audit_entry,
  query_admin_audit_log,
}
use lumenflow_contracts.Audit.Query.{Ordered, matching, query_admin_audit_log-eq-take}
use lumenflow_contracts.Audit.Window.{IsWindow, append_audit-IsWindow}
use lumenflow_contracts.Base.{[], arith, nat_eq, refl, some, string_eq, suc, take, zero, ◌∷◌, ◌≡◌}
use lumenflow_contracts.Base.Dict.{del, lookup, put}
use lumenflow_contracts.Examples.Scene.{empty_world, host_at}
use lumenflow_contracts.Storage.{World}
use lumenflow_contracts.Types.{AdminActionType, AdminAuditEntry}

-- A log of at most two entries, with two entries in it.
abbrev first_entry : AdminAuditEntry
first_entry = new_audit_entry 0 AdminActionType.set_admin 1 "" (host_at 5)

abbrev second_entry : AdminAuditEntry
second_entry = new_audit_entry 1 AdminActionType.pause_contract 1 "" (host_at 8)

abbrev log_world : World
log_world = record empty_world {
  audit = record {
    admin_audit_count = some 2;
    admin_audit_max_entries = some 2;
    admin_audit_entries = (0, first_entry) ∷ (1, second_entry) ∷ [];
  };
}

abbrev longer_world : World
longer_world =
    left_by log_world (append_audit AdminActionType.unpause_contract 1 "" (host_at 9) log_world)

append_run :
    append_audit AdminActionType.unpause_contract 1 "" (host_at 9) log_world ≡ ok tt longer_world
unfolding append_audit lookup put del
append_run = refl

log_world-IsWindow : IsWindow 2 log_world
unfolding lookup
log_world-IsWindow zero = refl
log_world-IsWindow (suc zero) = refl
log_world-IsWindow (suc (suc i)) = ground arith

append_audit_example :
    (get_admin_audit_count longer_world ≡ 3)
    × (get_admin_audit_entry 2 longer_world
        ≡ some (new_audit_entry 2 AdminActionType.unpause_contract 1 "" (host_at 9)))
    × IsWindow 2 longer_world
unfolding append_audit lookup put del
append_audit_example =
    append_audit-IsWindow AdminActionType.unpause_contract 1 "" (host_at 9) log_world longer_world
      (omega arith) log_world-IsWindow append_run

log_world-Ordered : Ordered log_world.audit.admin_audit_entries
unfolding lookup Ordered
log_world-Ordered i j a b less found other_found = ground arith

query_admin_audit_log_example :
    query_admin_audit_log 6 9 1 log_world
    ≡ take 1 (matching log_world.audit.admin_audit_entries 6 9 2)
query_admin_audit_log_example = query_admin_audit_log-eq-take 6 9 1 log_world log_world-Ordered
