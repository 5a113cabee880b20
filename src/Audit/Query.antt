-- ===== src/Audit/Query.antt =====
-- The query of the log against a plain description of its result.
use lumenflow_contracts.Audit.Log.{get_admin_audit_count, query_admin_audit_log, query_from}
use lumenflow_contracts.Base.{
  Bool, List, Option, Option-cases, [], arith, if◌then◌else◌, inl, inr, leb, nat_eq, none, refl,
  some, string_eq, suc, take, zero, ℕ, ◌&&◌, ◌<◌, ◌∷◌, ◌≡◌, ◌≤◌,
}
use lumenflow_contracts.Base.Dict.{Dict, lookup}
use lumenflow_contracts.Storage.{World}
use lumenflow_contracts.Types.{AdminAuditEntry}

abbrev pub in_range : ℕ → ℕ → AdminAuditEntry → Bool
in_range from to e = leb from e.ledger_sequence && leb e.ledger_sequence to

abbrev pub keep : ℕ → ℕ → Option AdminAuditEntry → List AdminAuditEntry → List AdminAuditEntry
keep from to none rest = rest
keep from to (some e) rest = if in_range from to e then e ∷ rest else rest

-- The entries of the indices below `i` whose ledger is within the range, newest first.
pub matching : Dict ℕ AdminAuditEntry → ℕ → ℕ → ℕ → List AdminAuditEntry
matching d from to zero = []
matching d from to (suc i) = keep from to (lookup i d) (matching d from to i)

-- Entries are written in the order of the ledgers.
unfoldable pub Ordered : Dict ℕ AdminAuditEntry → Type 0
Ordered d =
    (i j : ℕ) (a b : AdminAuditEntry)
    → i < j
    → lookup i d ≡ some a
    → lookup j d ≡ some b
    → a.ledger_sequence ≤ b.ledger_sequence

-- Below an entry older than the range nothing matches.
matching_old :
    (d : Dict ℕ AdminAuditEntry) (from to i j : ℕ) (b : AdminAuditEntry)
    → Ordered d
    → i ≤ j
    → lookup j d ≡ some b
    → b.ledger_sequence < from
    → matching d from to i ≡ []
unfolding matching Ordered
matching_old d from to zero j b sorted h found old = refl
matching_old d from to (suc i) j b sorted h found old =
    let rest = matching_old d from to i j b sorted (omega arith) found old in
    elim (Option-cases (lookup i d)) [
      | inl missing ↦ rw missing rest
      | inr (a, here) ↦ rw here (ground (arith, rest, sorted i j a b h here found))
    ]

query_from-eq-take :
    (d : Dict ℕ AdminAuditEntry) (from to left i : ℕ)
    → Ordered d
    → query_from d from to left i ≡ take left (matching d from to i)
unfolding query_from matching
query_from-eq-take d from to zero i sorted = refl
query_from-eq-take d from to (suc left) zero sorted = refl
query_from-eq-take d from to (suc left) (suc i) sorted = elim (Option-cases (lookup i d)) [
  | inl missing ↦ rw (missing, query_from) (query_from-eq-take d from to (suc left) i sorted)
  | inr (e, found) ↦
      rw (found, query_from)
        (ground (
          arith,
          query_from-eq-take d from to (suc left) i sorted,
          query_from-eq-take d from to left i sorted,
          matching_old d from to i i e sorted,
        ))
]

-- If the entries are in the order of their ledgers, the query gives the newest entries of the range,
-- at most `limit` of them, although its loop stops at the first entry that is too old.
pub query_admin_audit_log-eq-take :
    (from to limit : ℕ) (w : World)
    → Ordered w.audit.admin_audit_entries
    → query_admin_audit_log from to limit w
      ≡ take limit (matching w.audit.admin_audit_entries from to (get_admin_audit_count w))
unfolding query_admin_audit_log
query_admin_audit_log-eq-take from to limit w sorted =
    query_from-eq-take w.audit.admin_audit_entries from to limit (get_admin_audit_count w) sorted
