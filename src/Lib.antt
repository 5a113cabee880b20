-- ===== src/Lib.antt =====
-- LumenFlow: a payment contract for Soroban (contracts/lumenflow/src), and the router in front of
-- its deployments (contracts/router/src), with its command line client (cli/lumenflow-cli).
--
-- The contract is one object with a storage and some eighty entry points. An entry point checks the
-- pause, the signatures and its arguments, reads and writes records in the storage, asks token
-- contracts to move amounts, and publishes events. It returns a value or a `PaymentError`, or it
-- traps. The parts share the storage and little else: refunds and disputes read and change payment
-- records; multi-signature payments and payment requests write them; all parts read the pause, the
-- administrator and the allowed tokens.
--
-- Types.Records, Types.Errors: the records and enumerations of types.rs and error.rs, with the
--   source's fields and constructors. Addresses are numbers, `i128` is an integer whose range is
--   checked where the source's arithmetic checks it, `u32` and `u64` are natural numbers, likewise.
-- Host: what the Soroban environment provides. Signatures, token contracts, encodings, hashes and
--   ed25519 are parameters; so is `MAX_MEMO_LENGTH`, which no file of the contract defines.
-- Storage.State, Storage.Entries, Storage.Settings, Storage.Configuration: storage.rs, and Reserved:
--   those of its accessors that no entry point calls. The state `World` has one field for each
--   `DataKey`, grouped by part, then the token calls made and the events published. An unset key is
--   `none`, and the getters give the source's defaults.
-- Action.Monad, Action.Arithmetic: how entry points run. An action takes the host and the state to
--   `ok`, `err` or `trap`; `do` blocks follow the order of the source's statements. The profile has
--   overflow-checks on, so plain arithmetic traps out of range; saturating arithmetic stops.
-- Guards.Checks, Guards.Lockout: helper.rs, and the lockout of storage.rs (record_auth_failure);
--   Guards.Rollback: the same as the host commits it.
-- Admin.Handlers: set_admin, transfer_admin, pause_contract, unpause_contract, pause_with_reason,
--   set_pause_guardians, approve_early_unpause, reset_auth_lockout.
-- Admin.Settings, Admin.Upgrade: the setters of the configuration, the versions, upgrade, migrate and
--   migrate_storage_keys. lib.rs defines six setters twice; each is modelled once, as the
--   first: one of the others calls an accessor that storage.rs does not have.
-- Helper.Bytes: constant_time_eq_bytes and build_canonical_payload of helper.rs.
-- Registration.Handlers: commit_merchant_registration, reveal_merchant_registration,
--   register_merchant, update_merchant, deactivate_merchant, reactivate_merchant, verify_merchant,
--   unverify_merchant.
-- Payment.Index, Payment.Fees, Payment.Processing, Payment.Batch, Payment.Requests: the ids of each
--   account, the platform fee, process_payment_with_nonce, process_payment_with_signature,
--   batch_payment, and the payment requests (create, pay, cancel).
-- Refund.Requests, Refund.Execution: initiate_refund, approve_refund, reject_refund, execute_refund,
--   update_payment_status.
-- Dispute.Handlers: raise_dispute, initiate_dispute, mark_dispute_under_review, escalate_dispute,
--   resolve_dispute.
-- Multisig.Handlers: initiate, sign, cancel and execute_multisig_payment.
-- Subscription.Handlers: create_subscription_plan, subscribe, charge_subscription,
--   cancel_subscription, renew_subscription_allowance.
-- Escrow.Timed, Escrow.Conditional: create_escrow, release_escrow, cancel_escrow_before_lock, and
--   escrow_hold, escrow_release, escrow_cancel.
-- Audit.Log: append_audit, append_admin_audit_entry, query_admin_audit_log, get_admin_audit_log.
-- Query.Filter, Query.Pages, Query.Merchants, Query.Stats, Query.Getters: matches_filter, build_page and
--   the histories, build_merchant_page, get_global_payment_stats, and the getters. The comparison
--   sort of the standard library is a parameter of build_page; its documented behaviour is IsSort.
-- Cleanup.Handlers, Cleanup.Sweeping: archive_payment_record, cleanup_expired_refunds,
--   cancel_expired_payment_requests, and the loops of cleanup_expired_payments.
-- Router.State, Router.Handlers: contracts/router/src/lib.rs, a contract of its own. A call that panics
--   is `none`.
-- Cli.Config, Cli.Invocation, Cli.Csv: cli/lumenflow-cli/src/main.rs, the configuration of the client, the
--   arguments that it passes on and the parser of its batch file.
-- Cli.Submission, Cli.Table, Cli.Commands, Cli.Reports, Cli.Main: the loop that submits a batch, the tables,
--   what each command prints and runs, and `main`. The environment, the terminal, the file system, the
--   runs of the `stellar` command, the TOML and JSON libraries and most of the standard library's
--   operations on text are parameters.
-- Refund.Change, Refund.History: what a call does to the refunds, as edges of a diagram, and histories of
--   such calls.
-- Subscription.Calls, Subscription.Counting: what each call of the subscriptions writes, and what it
--   means for the charges of one of them, for histories of such calls.
-- Escrow.Vault: what the escrows promise, as an abstract vault that their calls refine.
-- The other modules of these parts hold their theorems, and Examples holds runs.
--
-- An action that ends in `err` keeps the state it has reached, as the source's code does; the host
-- undoes the writes of such a call, so a history of the contract is made of calls that end in `ok`.
-- No definition of the contract needs fuel: every loop of the modelled code runs over a list or a
-- count. The client that reads a history to its end (read_pages) takes fuel, one more than the number
-- of payments, and the theorem on it shows that this is enough.
--
-- Not modelled: times to live and the archiving of entries; the end of cleanup_expired_payments and
-- the client's load_config, which use variables and a type that no file defines; the parsing of the
-- client's arguments, which is the clap library; the sdk and the rest of the repository.
pub mod Base
pub mod Types
pub mod Host
pub mod Router
pub mod Storage
pub mod Action
pub mod Guards
pub mod Helper
pub mod Admin
pub mod Registration
pub mod Reserved
pub mod Escrow
pub mod Query
pub mod Cleanup
pub mod Refund
pub mod Dispute
pub mod Payment
pub mod Multisig
pub mod Subscription
pub mod Audit
pub mod Cli
pub mod Examples
