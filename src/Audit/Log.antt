-- ===== src/Audit/Log.antt =====
-- contracts/lumenflow/src/storage.rs, "Admin Audit Log", and `append_audit` of lib.rs.
use lumenflow_contracts.Action.{
  Action, Done, add_u32, ask, fail_if, gets, modify, when, ◌>>=◌, ◌>>◌,
}
use lumenflow_contracts.Base.{
  List, Option, String, [], eqb, false, leb, ltb, min, nat_eq, none, some, string_eq, suc, true,
  unwrap_or, zero, ℕ, ◌-◌, ◌||◌, ◌∷◌,
}
use lumenflow_contracts.Base.Dict.{Dict, del, lookup, put}
use lumenflow_contracts.Guards.{require_admin}
use lumenflow_contracts.Host.{Env}
use lumenflow_contracts.Storage.{World}
use lumenflow_contracts.Types.{Address, AdminActionType, AdminAuditEntry, invalid_input}

abbrev pub default_admin_audit_max_entries : ℕ
default_admin_audit_max_entries = 10_000

abbrev pub get_admin_audit_count : World → ℕ
get_admin_audit_count w = unwrap_or 0 w.audit.admin_audit_count

abbrev pub set_admin_audit_count : ℕ → World → World
set_admin_audit_count n w = record w { audit = record (w.audit) { admin_audit_count = some n } }

abbrev pub get_admin_audit_max_entries : World → ℕ
get_admin_audit_max_entries w =
    unwrap_or default_admin_audit_max_entries w.audit.admin_audit_max_entries

abbrev pub get_admin_audit_entry : ℕ → World → Option AdminAuditEntry
get_admin_audit_entry i w = lookup i w.audit.admin_audit_entries

abbrev pub remove_admin_audit_entry : ℕ → World → World
remove_admin_audit_entry i w = record w {
  audit = record (w.audit) { admin_audit_entries = del i w.audit.admin_audit_entries };
}

abbrev pub set_admin_audit_entry : AdminAuditEntry → World → World
set_admin_audit_entry e w = record w {
  audit = record (w.audit) { admin_audit_entries = put e.index e w.audit.admin_audit_entries };
}

unfoldable pub append_admin_audit_entry : AdminAuditEntry → Action Done
append_admin_audit_entry entry = do
  max ← gets get_admin_audit_max_entries
  count ← gets get_admin_audit_count
  when (leb max count) (modify (remove_admin_audit_entry (count - max)))
  modify (set_admin_audit_entry entry)
  next ← add_u32 count 1
  modify (set_admin_audit_count next)

abbrev pub new_audit_entry : ℕ → AdminActionType → Address → String → Env → AdminAuditEntry
new_audit_entry index action caller params env = record {
  index = index;
  action = action;
  caller = caller;
  params = params;
  timestamp = env.timestamp;
  ledger_sequence = env.sequence;
}

unfoldable pub append_audit : AdminActionType → Address → String → Action Done
unfolding append_admin_audit_entry
append_audit action caller params = do
  index ← gets get_admin_audit_count
  env ← ask
  append_admin_audit_entry (new_audit_entry index action caller params env)

-- The loop of `query_admin_audit_log` from index `i` downwards, with room for `left` results.
unfoldable pub query_from : Dict ℕ AdminAuditEntry → ℕ → ℕ → ℕ → ℕ → List AdminAuditEntry
query_from d from to zero i = []
query_from d from to (suc left) zero = []
query_from d from to (suc left) (suc i) = elim (lookup i d) [
  | none ↦ query_from d from to (suc left) i
  | some entry ↦ elim (ltb entry.ledger_sequence from) [
    | true ↦ []
    | false ↦ elim (leb entry.ledger_sequence to) [
      | true ↦ entry ∷ query_from d from to left i
      | false ↦ query_from d from to (suc left) i
    ]
  ]
]

unfoldable pub query_admin_audit_log : ℕ → ℕ → ℕ → World → List AdminAuditEntry
unfolding query_from
query_admin_audit_log from to limit w =
    query_from w.audit.admin_audit_entries from to limit (get_admin_audit_count w)

unfoldable pub get_admin_audit_log : Address → ℕ → ℕ → ℕ → Action (List AdminAuditEntry)
unfolding require_admin query_admin_audit_log
get_admin_audit_log admin from to limit = do
  require_admin admin
  fail_if (ltb to from || eqb limit 0) invalid_input
  gets (query_admin_audit_log from to (min limit 100))
