-- ===== src/Lib.antt =====
-- A verification library for the core of the FBS marking program: the decision about an event of the
-- marketplace (src/wbcz/control_engine.py), and the pipeline that signs a document for an approved
-- decision, sends it to the national marking system once, and follows it (src/wbcz/write_pipeline.py);
-- the store of imported events and their documents (src/wbcz/event_store.py) with two services over
-- it (src/wbcz/service.py, src/wbcz/status_verifier.py); the operations of turnover with their typed
-- documents (src/wbcz/turnover.py); the tree of packages under a code and the reconciliation of packages
-- (src/wbcz/aggregation.py); and the printing of a label by the agent (src/wbcz/physical_printing.py).
--
-- How the parts interact. An import puts events into the event store. For an event and the state of
-- its code, ControlEngine.decide recommends a withdrawal, a return, or a review by hand. An approved decision
-- becomes an operation of the durable store: `prepare` freezes the document, `accept_signature` takes
-- the signature of the operator's machine, `submit` reserves the operation and sends the one create
-- request, `poll_once` reads the document's status, `reconciliation_result` closes the operation.
-- Every change of state leaves an entry in an append-only audit. An operation of turnover is prepared
-- as a typed document that the pipeline takes, is allowed by a check of its codes before it, and counts
-- as done when the codes and their packages, read again, are as it must have left them. The agent prints
-- the label of a code behind a boundary of its own: its replay store and the backend know of the print
-- before the spooler is called.
--
-- Files. Prelude has the shared names, with Prelude/Tests (Boolean tests), Prelude/Lists and
-- Prelude/Text. Runtime is what the program takes from Python's standard library: text, JSON, Base64,
-- SHA-256 and the clock, as a record of functions that every definition takes as an argument; no law
-- is assumed of it. Effect is Python's exceptions and mutable state as a state monad whose state
-- survives an exception; Effect/Rules has the rules for relations between the states before and after.
-- Models is src/wbcz/models.py. ControlEngine is src/wbcz/control_engine.py, one function each, with
-- `decide` split at its call of `validate_owner_inn`.
--
-- WritePipeline is src/wbcz/write_pipeline.py. Types has its enumerations, exceptions and records.
-- Schema is WRITE_SCHEMA: the two tables as lists of rows, the statements that the store runs, the
-- constraints (CHECK, UNIQUE, PRIMARY KEY) as tests that raise `integrity_error`, and the transaction,
-- which restores the tables when its body raises. Transition has `_row`, `_record`, `get` and
-- `_transition`; Prepare has `prepare`; Store, with Store/Signing, has the other methods of
-- WriteOperationStore under their own names; Adapter has ExactDocumentBuilder and the two True API adapters; Pipeline has the class
-- WritePipeline, the calls that users make (`Command`), and sequences of them (`run`). Steps is the
-- specification of the store, a relation on the two tables; Follows, Methods, Opening and Flow show
-- that the methods keep to it; Ranks, Trail, Rows, Reserved, Runs and AtMostOnce derive what follows;
-- Returns is about calls that succeed, Again about the refusal of a second reservation.
--
-- Turnover is src/wbcz/turnover.py. Fields has the checks of single values; Parts, Introductions,
-- Withdrawals and Others the documents, each `to_wire` a function that ends in `_wire`; Operations has
-- `prepare_turnover_document`; Snapshots and Preconditions have `OperationPreconditionService`,
-- Reconciliation has `OperationReconciliationService`. Admitted, Reconciled, Documents, Rules
-- and Returns are about them. What they take from Python's libraries beside Runtime is the record Library. Aggregation
-- has, of src/wbcz/aggregation.py, the reconciliation of packages (Relations) and of the effects of
-- operations of turnover on them (SideEffects), the snapshots and the relations that are allowed between
-- packages (Relation), and the preconditions on boxes and on taking packages apart (Forming), on sets
-- (Kits), on an importer's units (Importer) and on adding and removing packages (Moving).
-- Confirmed, Formed and Separated are about them. Effect/Checks has the chains of tests they are made of.
--
-- Printing is src/wbcz/physical_printing.py. Contracts has the exceptions and contracts, Replay the
-- table of `AgentPhysicalReplayStore`, Raster and Spooler `WindowsGdiRasterSpooler`, Display
-- `derive_gs1_display_values`, Agent `LocalPrinterResolver` and the tests of a contract, Execution
-- `PhysicalPrintRuntime`. Ranks, Calm, Parts and Once show what each part may do to the world, Reports
-- what an execution returns; Effect/Mixed and Effect/Returns have the rules for it. The world is the
-- table, counters, the messages to the backend and the documents started on a printer, each with the
-- execution that it was started for. The printers, the renderer (src/wbcz/printing.py), the fingerprint
-- of a printer (src/wbcz/printer_profiles.py), the driver, GDI and the backend are arbitrary functions,
-- exceptions included. A call of GDI that gives no job number above 0 gives 0 here.
--
-- EventStore is src/wbcz/event_store.py with src/wbcz/audit.py. Tables has SCHEMA as lists of rows,
-- `_transaction` and the identifier of an event; Import has `existing_import`, `import_workbook` (one
-- function for each turn of its two loops) and `history_order_ambiguous`; Checks has `save_check`,
-- Documents has `register_document`, `document_report` and `update_document`; Calls has sequences of
-- calls. Keeps is the relation that every call keeps to, shown in Serves and Frozen; Counts and Reports
-- are about the report of an import, with Effect/Ends, the rules for actions that return. Services has
-- `DryRunService.check_event` and `DocumentTracker.refresh`, whose remote services are arguments.
-- AggregateTree is `build_aggregate_tree` of src/wbcz/aggregation.py: its recursion runs on the number
-- of levels that are left under `safety_max_depth`, so it needs no fuel of its own. Submission is
-- `FakeSubmissionService` of src/wbcz/submission.py, with `classify_direct_status` of
-- src/wbcz/document_lifecycle.py; EventCheck is `Event.__post_init__` of src/wbcz/models.py.
--
-- The modules named Tests, with Samples, run the definitions on concrete data.
--
-- The world of the pipeline is the two tables, the number of clock readings and of status requests so
-- far, and the create requests sent, each with the operation that it was sent for. The answers of the
-- remote service are arbitrary functions of the number of the request, exceptions included, and so are
-- the parsers of its envelopes. Calls of several processes are sequences of whole calls: SQLite runs
-- each transaction alone (BEGIN IMMEDIATE), and
-- the state read before a transition is checked again inside its transaction.
--
-- Not modelled: the opening of the SQLite files, listing queries, the type checks that Python makes of
-- values whose type is fixed here, the text of the exceptions of third-party code, and the parts of the repository that
-- are HTTP routes, storage models, user interface, layouts and profiles of printing, reports and
-- deployment. Fields of a printing contract arrive as typed values, so the reading of its mapping is left
-- out; so is a float, which is a decimal number here.
mod Prelude
pub mod Runtime
pub mod Effect
pub mod Models
pub mod Samples
pub mod ControlEngine
pub mod WritePipeline
pub mod EventStore
pub mod Services
pub mod AggregateTree
pub mod Submission
pub mod EventCheck
pub mod Printing
pub mod Aggregation
pub mod Turnover
