-- ===== src/Lib.antt =====
-- mailmind: a service that lets agents propose changes to somebody's mail, and a person decide.
--
-- An agent proposes a bundle: one operation (a move, a flag, a deletion, the discarding of empty
-- folders) over an enumerated list of items. Each item keeps the premise that it was computed on.
-- A person reviews the bundle and accepts or rejects it; the agent may withdraw it or, until then,
-- add to it; time expires it; and the service marks an item stale once its premise fails. An accepted
-- bundle becomes a task, which applies its items one by one against the mail server, each after a
-- second check of its premise.
--
-- What is cached of a mailbox comes from synchronisation, which folds what the server lists into
-- messages and placements and marks what has left. An agent reaches any of this under a grant, which a
-- person consents to over OAuth and which says which accounts and what kinds of act it covers.
--
-- The state is explicit. `Scope.Db` is what one tenant's scope reaches: the cached mailbox (accounts,
-- folders, placements of messages), the record of events, the clock and the ids to come. An operation
-- takes the `Db` and the bundle that it works on and returns both with its answer; an exception is
-- the answer `refused` or `failed`, with the state as it stands when it is raised. A sentence for a
-- person is a constructor with the values that it is made from.
--
--   Prelude, Text    tests on numbers, lists, and Python's strings as lists of code points
--   Models           the enumerations and rows of src/mailmind/db/models.py
--   Scope            get and audit of src/mailmind/db/scope.py
--   Content          the values and derived texts of src/mailmind/content/parse.py, and Findings:
--                    src/mailmind/content/findings.py
--   Grants           the guards of src/mailmind/mcp/server.py (Absence: what they let out),
--                    Local: local_context
--   Oauth            src/mailmind/mcp/oauth.py: Rows (its tables and values), Codes (clients, requests,
--                    codes), Tokens (refreshing, resolving, revoking), Agreeing (consent); Spending,
--                    Access, Issuing and Consent on one operation or a chain of them, Steps on any
--                    sequence of operations
--   Staleness        src/mailmind/suggest/staleness.py: check (Check), refresh_bundle (Refresh),
--                    sweep_queue (Sweep)
--   Search           fts_query and the searches of src/mailmind/db/cache.py (Query)
--   Suggest          src/mailmind/suggest/model.py: Names and Target (validate_container_name,
--                    resolve_target), Items (_add_messages), Request and Propose (propose_bundle),
--                    Grow (add_to_bundle), Discard (propose_discard), Decide (accept, reject,
--                    withdraw, exclude, expire_due)
--   Caching          the writing half of src/mailmind/db/cache.py: upsert_message, index_message,
--                    assessments, bodies; Evicting (evict_bodies; Eviction and Oldest: its
--                    budget and its order)
--   Imap             src/mailmind/imap/apply.py over the interface of src/mailmind/imap/backend.py:
--                    Perform (_perform, _discard), Record (_record, _update_cache), Item
--                    (_apply_one), Apply (apply_bundle); src/mailmind/imap/sync.py: Sync.Container
--                    (break_identity, _absorb), Sync.Running (sync_container), Sync.Accounts
--                    (discover_containers, sync_account, fetch_and_cache_body); Probe:
--                    src/mailmind/imap/capabilities.py
--   Tasks            src/mailmind/tasks.py: enqueue, claim_next and the recovery at a start
--   Worker           src/mailmind/worker.py: _execute_apply over Imap and Tasks; Syncing:
--                    _execute_sync_container and _execute_fetch_body over Imap.Sync and Tasks
--   Witnesses        examples at one small mailbox and one small server
--
-- Parameters. SHA-256 is a function `digest` on texts, and what the search index of SQLite finds is
-- a function `found`; nothing is assumed of either, nor of `traceback`, which stands for what the
-- traceback module prints. `hash` and `mint` of Oauth are
-- SHA-256 and the texts that the secrets module draws, in order; a theorem that needs it says which of
-- them are not in use yet. A `Reader` is what reading a message stands on: the parser, the regular
-- expressions of the findings, urlsplit, unicodedata, SHA-256 and Python's `str` and `isoformat`. The mail server is a record `MailBackend S` of calls on a state `S` of any
-- type: a server may fail at any call, and change between two of them. `should_stop` is asked by how
-- many items are done, in a sync by how often it was asked. `upper` is Python's `str.upper`.
--
-- Every loop is a recursion over a list, so that no fuel is needed. The numbers are ids, counts and
-- times, which Python does not bound. The clock stands still during an operation.
--
-- Not modelled. The lock of the database: an operation is one step, and only synchronisation, which
-- commits on its way, tells what is committed from what is not. The tenant criteria of the scope, the
-- worker's executor of a whole account and its dispatcher, the tools of the agents' server, the pages for the browser, the command line, the migrations, and parsing. What str.strip and str.split take for a space is what Text says.
pub mod Prelude
pub mod Text
pub mod Models
pub mod Scope
pub mod Content
pub mod Grants
pub mod Oauth
pub mod Staleness
pub mod Search
pub mod Suggest
pub mod Caching
pub mod Imap
pub mod Tasks
pub mod Worker
pub mod Witnesses
