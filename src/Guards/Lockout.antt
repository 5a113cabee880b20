-- ===== src/Guards/Lockout.antt =====
-- contracts/lumenflow/src/storage.rs, "Auth failure rate limiting": failures are counted in a
-- window of ledgers, and the tenth in one window locks the address out.
use lumenflow_contracts.Base.{
  nat_eq, string_eq, ℕ, Bool, true, false, ◌&&◌, if◌then◌else◌, ltb, leb, eqb, unwrap_or,
}
use lumenflow_contracts.Base.Dict.{lookup, put, del}
use lumenflow_contracts.Types.{Address}
use lumenflow_contracts.Host.{Env}
use lumenflow_contracts.Storage.{World}
use lumenflow_contracts.Action.{Action, Done, ◌>>=◌, ◌>>◌, pure, gets, asks, modify, add_u32}

abbrev pub auth_max_failures : ℕ
auth_max_failures = 10

abbrev pub auth_failure_window_ledgers : ℕ
auth_failure_window_ledgers = 100

abbrev pub auth_lockout_ledgers : ℕ
auth_lockout_ledgers = 1000

abbrev pub get_auth_fail_count : Address → World → ℕ × ℕ
get_auth_fail_count a w = unwrap_or (0, 0) (lookup a w.auth.auth_fail_counts)

abbrev pub set_auth_fail_count : Address → ℕ → ℕ → World → World
set_auth_fail_count a count start w = record w {
  auth = record (w.auth) { auth_fail_counts = put a (count, start) w.auth.auth_fail_counts };
}

abbrev pub clear_auth_fail_count : Address → World → World
clear_auth_fail_count a w = record w {
  auth = record (w.auth) { auth_fail_counts = del a w.auth.auth_fail_counts };
}

abbrev pub get_auth_lockout_until : Address → World → ℕ
get_auth_lockout_until a w = unwrap_or 0 (lookup a w.auth.auth_lockouts)

unfoldable pub set_auth_lockout : Address → Action Done
set_auth_lockout a = do
  seq ← asks (λ env. env.sequence)
  until ← add_u32 seq auth_lockout_ledgers
  modify (λ w. record w {
    auth = record (w.auth) { auth_lockouts = put a until w.auth.auth_lockouts };
  })

abbrev pub clear_auth_lockout : Address → World → World
clear_auth_lockout a w =
    clear_auth_fail_count a
      (record w { auth = record (w.auth) { auth_lockouts = del a w.auth.auth_lockouts } })

abbrev pub is_auth_locked_out : Address → Env → World → Bool
is_auth_locked_out a env w =
    ltb 0 (get_auth_lockout_until a w) && ltb env.sequence (get_auth_lockout_until a w)

-- The count and the window's start after one more failure: the end of the old window is computed
-- only if there is one, and traps if it exceeds `u32`.
unfoldable pub next_fail_count : ℕ → ℕ → ℕ → Action (ℕ × ℕ)
next_fail_count seq count start = if eqb start 0 then pure (1, seq) else (do
  end ← add_u32 start auth_failure_window_ledgers
  if leb end seq then pure (1, seq) else (do next ← add_u32 count 1; pure (next, start)))

unfoldable pub record_auth_failure : Address → Action Bool
unfolding next_fail_count set_auth_lockout
record_auth_failure a = do
  seq ← asks (λ env. env.sequence)
  (count, start) ← gets (get_auth_fail_count a)
  (new_count, new_start) ← next_fail_count seq count start
  modify (set_auth_fail_count a new_count new_start)
  if leb auth_max_failures new_count then set_auth_lockout a >> pure true else pure false
