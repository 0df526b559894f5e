-- ===== src/Lib.antt =====
-- The bank-email-fetcher dashboard: the durable state that decides when its ledger is pushed to
-- Paisa, the merge of the mails and messages that report one transaction, the masks and the linker
-- that attribute a transaction to an account, the billing cycles of credit cards, the categories
-- of transactions and the cashflow report.
--
-- Every bank mail or message is merged into the rows of `transactions`: it makes a row, enriches
-- one, or waits for a review (financial_dashboard/services/txn_merge.py), which an operator ends
-- (financial_dashboard/services/sms_duplicate_resolution.py for messages). The linker
-- (financial_dashboard/services/linker.py) gives the row its account and card by the masks that
-- the message carries (financial_dashboard/core/masks.py), and the categorization
-- (financial_dashboard/services/categorization) its category. Row triggers
-- (financial_dashboard/db/init_db.py) record in the one row of `extension_sync_state` that the
-- ledger changed, and a coordinator claims the lease of that row, publishes the journal and
-- records how it went (financial_dashboard/services/paisa/coordinator.py and sync_state.py beside
-- it).
--
-- Prelude: names of the libraries, Boolean tests on the native naturals, lists, and texts as
--   lists of code points.
-- SyncState: sync_state.py and the triggers. Table is the row and the table, a function from the
--   extension id; an UPDATE ... RETURNING is `update_where`, which runs as one step, as SQLite
--   does it. Backoff is `backoff_delta` and the constants, Eligibility `reconcile_eligibility`
--   and `should_skip_remote_post`, Lease `claim_lease`, `heartbeat_lease`, `release_lease` and
--   `_fetch_guarded`, Completion the `record_*` functions and `_apply_caught_up`, Admin
--   `set_force_reload`, `reset_sync_state` and `capture_target`, Dirty the triggers. Run makes
--   one step of each of them, so that a list of steps with their instants is any interleaving of
--   coordinators, operators and writers at the grain of committed statements. Guards, Effects,
--   Rows, Invariant, Fencing, Timing and Delivery are proofs.
-- Masks: core/masks.py. Denotes says which numbers a mask can stand for, Reference describes
--   `normalize_mask` without its loop.
-- Linker: services/linker.py. Context is `build_link_context`, Link `link_transaction`, Relink
--   `relink_orphans`; Sources, Lookup and Evidence are proofs.
-- Coordinator: coordinator.py on top of SyncState. World is what an attempt meets: the reports of
--   the seams `preflight`, `generate` and `sync_remote`, each of which may also raise or time
--   out, the steps that other sessions commit between two transactions of the attempt, its own
--   heartbeats among them, and whether the release of the lease commits, as `_attempt` only logs a
--   release that raises. Results is `AttemptResult`, Stages `_run_attempt_stages` and the
--   `_record_*_outcome` functions, Tick `_attempt` and `_tick`. Keeps, TickKeeps, Invariant,
--   Guard, Fenced, Calm, Delivery, Unchanged and Gates are proofs.
-- Cycle: services/cc_cycle.py, which says to the statement of which billing cycle a payment
--   belongs. Order, Places, Rows and Partition are proofs. A date is the number of a day; the
--   parser of due dates, python-dateutil through core/dates.py, is a parameter with no law
--   assumed of it.
-- Categorize: services/categorization. Polarity is `resolve_direction`, Text the two normalizers,
--   Rules `match_rules`, each rule a definition in the order of the function, Transfer
--   self_transfer.py over a table of rows, Engine `categorize_one` and the WHERE of
--   `select_needs_work_stmt`. Direction, Legs, Marks and Work are proofs. A confidence is a
--   number of millionths; the hash of the inputs and the language model, which may raise, are
--   parameters.
--
-- Merge: services/txn_merge.py, with the claim of a slot of email_attachments.py beside it.
--   Decimal is the comparison of balances, Row the columns and `txn_data`, Text and Window the
--   tests on texts and times, Match `_gather_fuzzy_candidates` and `_decide`, Find `find_match`,
--   Enrich the diff, where the type of a value depends on the field, Store the table with its
--   unique index and its columns of two decimal places, and Run `merge_transaction`, which takes
--   the table as the matcher read it and the table as it is when it writes, so that other sessions
--   may commit in between. The self-transfer rule that follows a write is that of Categorize.
--   Cents, Lists, Candidates, Evidence, Table, Outcomes, Merged, Fields, Alias, Kept, Replay,
--   Again, Force and Near are proofs.
-- Sms: services/sms_pipeline.py and services/sms_duplicate_resolution.py, on Merge and Linker.
--   Row is `SmsMessage`, what the package bank_sms_parser gives (`parse_sms` is a parameter, with
--   no law assumed of it) and `parsed_sms_to_txn_data`; Complete the completion leg; Accounts the
--   link of a row and the gates of services/cc_disambiguation.py; Cards its search among the
--   cards of the bank, for which the pipeline has the argument `choose`, as no theorem on it
--   depends on the search; Process `process_sms_row`; Resolve the operator's answer to a deferred
--   message. A call takes the message and the table and returns them, so a message is one row of
--   `sms_messages` and a session that raises leaves both as they were. Blanks, Unique, Completed,
--   Outcome, Rows, Uploads, Chosen, Resolved and Grounds are proofs.
-- Cashflow: services/cashflow. Buckets is buckets.py, Rows the clauses of scope.py and report.py as
--   tests on rows, Report `cashflow_summary` with its aggregations and Footnotes `_footnotes`. A
--   query is a filter of a list of rows, a GROUP BY keeps one group per key, and money is an
--   integer number of paise (Prelude/Int). Sums, Net, Scopes and Accounted are proofs.
--
-- An instant is a number of microseconds, since the columns store no zone and every reader takes
-- them as UTC. A token that the code mints is an argument; that two mints differ is a hypothesis
-- where it matters. A LeaseStaleError or ValueError is a value of `Outcome`. `strip().lower()`
-- is that of ASCII texts, which bank names and the normalized narrations are. All loops are
-- structural, with no fuel.
--
-- Not modelled: log calls; the asyncio loop of the coordinator, its audit rows and notifications,
-- and its HTTP calls; the projection of the ledger and the renderers; parsers, mail clients and
-- language models, which are third-party or I/O; the web layer; statements (but for the search
-- among the cards), investments and settings; the trend of the cashflow report; the explicit
-- merge of a deferred mail (services/duplicate_resolution.py); the texts of notifications, and
-- `card_id` in the SMS pipeline.
pub mod Prelude
pub mod SyncState
pub mod Masks
pub mod Linker
pub mod Coordinator
pub mod Cycle
pub mod Categorize
pub mod Merge
pub mod Cashflow
pub mod Sms
