-- ===== src/Lib.antt =====
-- A model of the search engine for government sites: its public API's accounts and sessions, the
-- ingest of crawled documents, the queues and the scan of files on the way to the index, and the
-- search itself.
--
-- Parts, files and sources (paths from the repository's root):
--
-- Base: shared helpers. Base/Lists, Base/Dict (a Python dict as an association list in insertion
--   order), Base/Text (str as a list of code points: strip, split, join), Base/Sort (the stable
--   sort), Base/Distinct (keys that stand once in a table), Base/Int (Python's integers).
--
-- Database/Accounts: database/src/pgs_db/repositories/accounts.py with models/accounts.py. The
--   tables are lists of rows in order of id; each method is a function from the tables to its
--   result and the tables after it, exceptions are values. Accounts/Validity has the integrity of
--   the tables, Accounts/Erasure the revocation of tokens and the deletion of accounts. The lengths
--   of the columns and the CHECK that an email is in lower case are not modelled.
-- Database/Ingest: database/src/pgs_db/ingest.py, `ingest`, `_ingest_run` and `upsert_run`. Reading an
--   object and saving its document are one parameter, `load`. The loop over the chunks is a
--   recursion on the list of chunks; cutting a list into chunks has the list's length as fuel, which
--   is enough since each chunk takes at least one object.
--
-- Database/Queue: the queue of database/src/pgs_db/repositories/silver.py, from which the ETL's workers
--   claim rows; Queue/Claims has the calls of the workers in any order.
--
-- Database/Pages: the pages of database/src/pgs_db/repositories/silver.py. Pages/Save has `save_page`,
--   Pages/Newest and Pages/History what it leaves, Pages/Simhash the fingerprints with
--   repositories/_mapping.py, Pages/Duplicates the queries for duplicates and `_fold_duplicate` of
--   database/src/pgs_db/etl.py, Pages/Originals and Pages/Folding where duplicates point, Pages/Items
--   and Pages/Entities the media and entities of a payload. A salience is of a type with three operations.
-- Database/Batch: `process_bronze_batch` and `_save_one` of database/src/pgs_db/etl.py, which join the
--   queue and the pages, and `quarantine` of silver.py. A transaction that is
--   refused leaves the tables as they were; which ones PostgreSQL refuses is a parameter. Batch/Stored and
--   Batch/Settled have what a batch leaves, Batch/Known and Batch/Returns that it returns.
-- Database/Discovery: database/src/pgs_db/discovery.py. The network is a record of functions, which may
--   answer differently at each call. The loop over redirects has the code's own bound, four passes.
--   Discovery/Requests has the requests, Discovery/Hosts the check of a host and the candidates,
--   Discovery/Guard and Discovery/Checks the theorems.
--
-- Api/Throttle: api/src/pgs_api/auth/throttle.py and the login_failures rows; Throttle/Counts and
--   Throttle/Lock. Times are microseconds, a wait is whole seconds.
-- Api/Base64, Api/Tokens: api/src/pgs_api/auth/tokens.py. JSON and the keyed hash are the fields
--   `dumps`, `loads` and `sign` of a `Codec`. Tokens/Segments, Tokens/Verify and Tokens/Outcomes.
-- Api/Account: api/src/pgs_api/auth/users.py; Account/Session has the handlers of
--   api/src/pgs_api/routers/account.py, Account/Login and Account/Access what
--   they let in. A handler takes the request, the
--   clock and the state (account tables and failure rows), and returns the response, or the status
--   of an error, with the state after it. Password hashing, the random token id and the slots for
--   hashing are parameters.
--
-- Search/Fusion: search-engine/src/pgs_search/ranking/fusion.py. Floats are a record of the operations
--   that the code uses.
-- Search/Candidates, Search/Hits, Search/Pipeline: search-engine/src/pgs_search/pipeline.py and
--   `search_bm25` of retrieval/lexical.py. Search/Rerank: ranking/lightgbm_reranker.py around its
--   model. A candidate is a dict. The optional stages (translation, pgvector, the metadata lookup,
--   the reranker) and OpenSearch are parameters that may fail; the clock is read at three places,
--   in milliseconds. A result without an id, or metadata for an id that
--   was not collected, is a KeyError. Pipeline/Results has the theorems.
--
-- Search/Indexer: search-engine/src/pgs_search/indexing/indexer.py with the index queue of
--   database/src/pgs_db/repositories/search.py. The answer to the bulk request is a parameter.
--
-- Etl/Scanner: ETL/spark/security_scanner.py, with ClamAV's answer as a parameter.
-- Etl/Transform: ETL/spark/transform.py, with HTMLParser's events, NFC, the word pattern and SHA-256
--   as fields of `Unicode`; Transform/Fingerprint has the SimHash and the record, Transform/Majority
--   and Transform/Stored what becomes of it.
-- Etl/Site: ETL/spark/site_pipeline.py. A JSON document is a data type, an exception a value of
--   `Raised`. Site/Pages has `process_page`, Site/Driver the services that the driver calls and
--   Site/Run the driver itself; each call takes the state and gives it back, and what was written
--   before an exception stays. The groups of keys are cut with the number of keys as fuel, which is
--   enough since a group takes at least one key. Site/Trust, Site/Totals, Site/Adding, Site/Tally and
--   Site/Marked have the theorems. Spark is taken to return the results in the order of the keys.
--
-- How the parts interact: the handlers call the throttle, the tokens and the account tables, and
-- the tokens use the base64 coding; the pipeline calls the fusion; the indexer and the pages use the
-- statuses of the queue; the site pipeline calls the scanner and the transformation, whose record the
-- pages store.
--
-- Not modelled: the validation of a page's contacts and embeddings, jobs, the query
-- expansion and the lemmatiser, the reranker's features, the admin API, gRPC, and all that is not
-- Python. HTTP headers, logging and metrics are left out, as are SQL aggregates.
--
-- The files named Tests apply the theorems to concrete inputs.
pub mod Base
pub mod Database
pub mod Api
pub mod Search
pub mod Etl
