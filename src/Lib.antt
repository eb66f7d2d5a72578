-- ===== src/Lib.antt =====
-- The services of the n8n production systems, in Python: a review queue with its web handlers,
-- the intake and validation of documents, the scoring of leads, and the classes of errors. A
-- workflow engine calls them over HTTP; each keeps its own state, and they meet in the workflows
-- alone. Three scripts keep the documents of those workflows: one sanitises them, one copies the
-- code of their nodes from snippet files, and one checks what the other two should have done.
--
-- Which file models which part:
--
--   Common, Dict, Text   what the parts share: native numbers and integers, lists, the outcome of a
--                        Python call, `dict` in order of insertion, `str` as code points with its
--                        methods, regular expressions of digits and literals.
--   Review               platform/services/review-ui/src/review_ui: Decisions is decisions.py;
--                        Database is the SQL of decisions.py as functions on lists of rows, with
--                        `apply_decision` of db.py; App is `_decide` of app.py; Auth is auth.py and
--                        signing.py, with the two handlers that call `_decide`; Pages is the list
--                        and the detail page of app.py, with `iter_kinds` of db.py.
--   Validators           projects/p02-document-intelligence/backend/src/p02_doc_service/validators:
--                        BusinessId, Iban, Reference, Dates and Vat are business_id.py, iban.py,
--                        reference.py, dates.py and vat.py, Result is result.py, and Extraction is
--                        `validate_extraction` of main.py, which runs them all.
--   Documents            documents.py (`MemoryDocuments`) and storage.py (`MemoryStorage`) of the
--                        same service.
--   Upload               magic.py and main.py of the same service: `upload_document`, `get_file`,
--                        `_read_limited`; Guarded is the upload behind the token.
--   Token                `require_internal_token`, which the two backends share word for word.
--   Errors               platform/libs/python/errors.py: `classify_error`, with Status for the status
--                        that `_first_status` finds.
--   Scoring              projects/p01-lead-qualification/backend/src/p01_backend/score.py: Points are
--                        the components, Route is `_route_from_score` and `_cap_route`, Lead is
--                        `score_lead` with its overrides.
--   Leads                projects/p01-lead-qualification/backend/src/p01_backend/normalize.py:
--                        `normalize_lead`, with Domains for the domains and their lists and
--                        Language for `_language_hint`.
--   Llm                  platform/services/mock-llm/src/mock_llm/main.py: the answers of the stand-in
--                        for the language model, with Schema for `default_from_schema`.
--   Json, Regex          the values of `json`, and the regular expressions of `re` that the scripts use.
--   Workflows            scripts: Sanitize is sanitize_workflows.py, with Secrets for its patterns;
--                        Snippets.Sync is sync_snippets.py, and Snippets what it shares with the
--                        linter; Lint is lint_workflows.py, with Rules for what it asks of a node and
--                        Issues for what it reports. The Command of each is its command line, over the
--                        Files they share.
--
-- A function keeps its name, without a leading underscore; a handler takes the state and returns
-- the answer with the next state, and a call that may raise returns an `Outcome`. Optional values
-- are `Option`; UUIDs and times are numbers. A dictionary is an association list, a row of a
-- table a record, and a table a list of rows, whose primary key is an invariant. Requests are
-- handled one after the other: a transaction of the database, a lock, and the event loop order
-- the steps that share state.
--
-- Parameters. The Unicode tables behind `str.strip`, `isdigit`, `isalpha`, `upper` and `lower` are
-- a `CharDb`, with laws that Python documents: what the tables say at ASCII, and that a decimal
-- digit has a value below 10. `Text.Ascii.ascii` meets them. SHA-256 is a function from bytes to
-- texts, of which nothing is assumed. The operations of `Decimal` are a `Decimals`, of which
-- nothing is assumed either. `str` of an error message that is no text is a function too. The
-- snippet files are a function from a name to the text that `read_text` gives; `float` and `str`
-- of a value of a document are functions as well. `Leads.Libraries` are the validation of
-- addresses and of phone numbers and the two lists of domains; `Llm.Host` is the hash of a request
-- and the printing of JSON; the HMAC of a body, and the order that the database gives the pending
-- rows, are functions. Nothing is assumed of them. `Workflows.Files.Host` is the reading and
-- printing of JSON for the scripts, which may raise, the listing of a directory and whether a file
-- can be written; nothing is assumed of it. The weather of a request says whether the database
-- answers, and whether the webhook does.
--
-- Bounds and fuel. `_read_limited` recurs on fuel, one more than the bytes of the upload; each
-- round takes a byte at least. `str` of a number recurs on the number plus one, and each digit
-- divides it by ten. `default_from_schema` recurs on fuel, one more than the depth of the schema,
-- and each nested schema is less deep. Numbers are those of Python, without bound; points of a
-- score are integers of any sign.
--
-- Not modelled: templates, start-up and settings, YAML loaders, the stores over Postgres and the
-- file system, a commit whose answer is lost, HTTP clients, attributes of a pydantic model that
-- are no declared fields, and the floating-point delay before a retry. Of the scripts: the parser
-- of a command line, what is printed besides the text of a document, a file that is not UTF-8, and
-- the label of a node in the message of an issue. Of the stand-in: settings, logging, the constant
-- fields of an answer, and a change of the mode while a request waits. Of the reviews: the JSON
-- printer of the signed body, the receiver, and the settings. The Go services are a separate part.
pub mod Common
pub mod Dict
pub mod Documents
pub mod Errors
pub mod Json
pub mod Leads
pub mod Llm
pub mod Regex
pub mod Review
pub mod Scoring
pub mod Text
pub mod Token
pub mod Upload
pub mod Validators
pub mod Workflows
