-- ===== src/Lib.antt =====
-- DeployGuard AI: the durable job queue of the backend, its workspaces, incidents and
-- deployments, the search for what a change reaches, and the verification command that gates a
-- change on evidence.
--
-- The backend stores its work as rows of `background_jobs`. Producers enqueue jobs, workers
-- claim them under a lease, run a handler and complete or fail them, expired leases are
-- recovered, and an operator may replay what failed. The command `deployguard verify` collects
-- a git change, a policy and the artifacts of a CI run, turns the artifacts into evidence
-- items, decides PASS, REVIEW or BLOCK, writes a receipt and exits with the code of the
-- decision. In front of the API a middleware bounds the size of a request's body and the rate
-- of requests. Users work in workspaces, which they enter by invitation; incidents of a
-- workspace have a lifecycle that its members write; GitHub reports deployments, which are
-- matched with analyzed changes; and the analysis of a change searches the dependency graph for
-- the services that it reaches. A workspace lists its services with their dependencies.
-- Incidents, services and deployments use the memberships and the audit events of the
-- workspaces; the other parts share no state.
--
-- Which file models what:
--
-- - Queue/Payload: `_SENSITIVE_PAYLOAD_KEY` and `_validate_payload` of
--   backend/app/job_queue.py; Queue/Payload/Accepted says what is let through.
-- - Queue/Job: `BackgroundJob` of backend/app/job_models.py and the table as a list of rows;
--   Queue/Job/Rows and Queue/Job/Append are lemmas on it.
-- - Queue/Lifecycle: `requeue_expired_jobs`, `claim_next_job`, `complete_job`, `fail_job` and
--   `replay_dead_letter_job` of backend/app/job_queue.py.
-- - Queue/Enqueue: `enqueue_job`. It takes the rows that its lookup saw and those that its
--   insert meets, since another session may commit in between.
-- - Queue/Run: `run_one_job`, and how it ends in Queue/Run/Ends; the handlers are parameters,
--   each a function that returns a result or raises.
-- - Queue/Worker: `run_worker` of backend/app/worker.py; its rounds are those before the stop
--   event is set, and the other sessions act between them.
-- - Queue/Session: what a session of backend/app/database.py writes when it commits, by the
--   columns that its objects have changed; Queue/Session/Current and Queue/Session/Moved are
--   about the commits whose rows are as the session has read them.
-- - Queue/Validity, Queue/Invariant, Queue/Claim, Queue/Leases, Queue/Retry, Queue/Trace:
--   theorems on these operations and on sequences of them. A step of Queue/Trace is one
--   operation of one session, with what that session has read before: an insert and the
--   compare-and-set of a claim meet the rows as they are, the other operations act on the
--   objects of the session.
-- - Verify/Models, Verify/Policy, Verify/Findings, Verify/Engine: models.py, policy.py and
--   engine.py under verify/deployguard_verify. Verify/Policy/Yaml and Verify/Policy/Check are
--   `_validate_policy` and `parse_policy`, and Verify/Policy/Names and Verify/Policy/Rules say
--   what they let through. Verify/Glob writes out `fnmatch.fnmatchcase`.
-- - Verify/Evidence/Junit, Coverage, Sarif, Collect: evidence.py under
--   verify/deployguard_verify, behind the reading of the files.
-- - Verify/Cli: `_verify` and `main` of verify/deployguard_verify/cli.py.
-- - Guard, Guard/Limiter, Guard/Body: `RequestGuardMiddleware` of backend/app/request_guard.py,
--   up to its call of the application and with the messages that `replay_receive` gives it;
--   Guard/Forwarded is about these messages; Guard/Window, Guard/Times and Guard/Entries
--   compare its limiter with a full log.
-- - Workspace/Store, Workspace/Access, Workspace/Invitations: backend/app/workspace_services.py
--   and its rows in backend/app/models.py; Workspace/Found, Workspace/Once and
--   Workspace/Invited are about who may invite whom and what becomes of an invitation,
--   Workspace/Governed and Workspace/Roles about where owners and admins come from.
-- - Incident/Status, Incident/Record, Incident/Update: `update_incident_lifecycle`,
--   `add_incident_note` and what they call in backend/app/operations_services.py;
--   Incident/Later, Incident/History and Incident/Refused are about sequences of them and about
--   refused ones.
-- - Catalog/Graph, Catalog/Services: `_validate_service_dependencies`, `create_service` and
--   `update_service` of backend/app/operations_services.py; Catalog/Cycles and Catalog/Fuel are
--   about the search for cycles, Catalog/Accepted about the answers of the check,
--   Catalog/Shapes, Catalog/Kept and Catalog/Sequence about the graphs behind new and changed
--   services.
-- - Impact/Graph, Impact/Result: `calculate_blast_radius` of backend/app/engines.py, its three
--   dictionaries as one list of marks; Impact/Marks and Impact/Rules are lemmas on the search,
--   Impact/Ends, Impact/Reached and Impact/Hops are about its end and about what it finds.
-- - Deploy/Payload, Deploy/Rows, Deploy/Upsert: `upsert_github_deployment`, `_matched_change`
--   and `_service_ids` of backend/app/deployment_services.py; Deploy/Ordered and
--   Deploy/Repeated are about sequences of deliveries.
-- - Prelude: Boolean tests, lists, texts, a stable sort, and computations that return or raise.
--
-- Conventions. A point in time is a number of microseconds, and `locked_at < timestamp - lease`
-- is written `since + lease < now`. Rows that a query leaves unordered stand in table order. A
-- call that raises leaves the committed rows alone. `run_one_job` assumes that no other session
-- touches the claimed row between its claim and its end, which is what the object in the
-- session shows. In Queue/Trace a result that is absent before and behind an operation is not
-- written at a commit, and any other one is; each object that an operation changes has another
-- status then. The keys of a mapping are texts, and `max_attempts` is not negative; a negative
-- one is rejected as 0 is. Claims take the worker's name as a text. A rate is a finite float
-- that is not negative, as a number of units of 2 ^ -1074, so comparisons are exact. Operations
-- on workspaces, incidents and services run one at a time, and the time is the same throughout
-- a call. The names of roles and states stand for the texts in their columns, an entry or a
-- message for people for what it is made from; the metadata of audit events is left out. A row
-- that a query by a primary key, or by the unique key of a deployment, has found is the one
-- with that key. Whether the commit of a service conflicts is an argument. The response of an
-- update is made behind its commit. A confidence, a double from 0.0 to 1.0, stands as its bit
-- pattern, since those are ordered as the doubles are; an edge comes with its defaults and its
-- clamped confidence, and an edge of the result shows it before it is rounded. A value in a
-- webhook's payload is the text that `str` makes of it.
--
-- Fuel. The reader of glob patterns has as much fuel as the pattern has characters, and every
-- token takes at least one. The search of a blast radius runs on fuel that its caller gives:
-- each better mark of a service lowers a measure, so twice that measure and the length of the
-- queue are enough. The search for cycles among services has one more than there are services,
-- since no path of its calls comes to a service twice. All else is structural recursion.
--
-- Parameters. Git, the file system, XML, JSON and YAML parsing, digests,
-- `datetime.fromisoformat`, `str.title`, the product of two confidences, the rounded product
-- behind an impact score, float division and rounding, the percentage in one message, the
-- summaries for people, `str.lower` on a commit id of the command and on a slug, and the
-- handlers are arguments of the definitions that use them.
--
-- Not modelled: the reading of a validated policy into the typed one that the engine takes, an
-- integer too large for a float in a policy, the expansion of artifact patterns, `_init` and
-- the argument parser of the command, the request ids, headers and metrics of the middleware, a
-- glob set whose empty ranges vanish and leave a leading exclamation mark, and the handlers of
-- the worker, the tests of the arguments of `run_worker`, the legacy bootstrap of
-- backend/app/tenant.py and the migrations, which make owners of their own, the readers of
-- workspaces, deployments and notifications, `change_user_context`, the lookup in
-- `mark_notification_read`, the risk policies and operational events of
-- backend/app/operations_services.py, the scores of hypotheses and of a change, the backend's
-- other services (analysis, providers, the HTTP layer), its scripts and its user interface.
pub mod Prelude
pub mod Catalog
pub mod Deploy
pub mod Guard
pub mod Impact
pub mod Incident
pub mod Queue
pub mod Verify
pub mod Workspace
