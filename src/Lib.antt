-- ===== src/Lib.antt =====
-- AI-Knowledge-Hub, the backend under backend/app: a knowledge base whose documents are published by
-- reviewed workflows. The parts that are modelled, and how they interact:
--
-- - Workflow: `WorkflowService` (services/workflow_service.py) creates, decides and resumes runs;
--   `WorkflowExecutor` (workflow/executor.py) claims a pending step in a first transaction, runs its node
--   outside any transaction, and writes the result in a second one. Both write the rows of
--   models/workflow.py and models/knowledge_revision.py through the repositories in db/repositories, whose
--   updates are conditional on the status of the row; definitions and nodes come from the registries
--   (workflow/registry.py), inputs and successors from the resolver (workflow/routing.py).
-- - Auth: `SessionRepository` (db/repositories/session_repository.py) keeps the login sessions in Redis.
-- - Auth also has the authentication service (services/auth_service.py): registration, login behind the rate
--   limiter (services/login_rate_limiter.py), and the requests on sessions, with the passwords and tokens of
--   core/security.py and the users of db/repositories/user_repository.py.
-- - Ai: the gateways of ai/gateway.py and ai/embedding_gateway.py, between the services and the providers.
-- - Knowledge: parsed documents become chunks (knowledge/chunking.py); for a prompt, the token budget
--   (knowledge/budget.py) and the chosen chunks with their citations (knowledge/context.py).
-- - Knowledge also has the knowledge base itself: services/knowledge_service.py puts files into bases, cuts
--   them into the chunks of a version, and indexes a version: it claims the row, embeds the chunks, writes
--   their vectors, and completes or fails the row in a transaction of its own; a search takes the vector
--   store's candidates and keeps those of active versions. Its tables are behind
--   db/repositories/knowledge_repository.py.
-- - Storage: services/file_service.py keeps the rows of the users' files together with their objects in a
--   storage outside of the database.
--
-- Which file models what, below backend/app:
--   Base and Base/*              the shared names: tests, lists, texts, results, and lemmas on UPDATEs
--   Workflow/StateMachine        workflow/state_machine.py; Transitions and Histories are about it
--   Workflow/Error               workflow/exceptions.py and the other exceptions that are told apart
--   Workflow/Payload             the JSON objects that runs and steps carry
--   Workflow/Definition, Node, Registry, Routing   the files of those names in workflow/
--   Workflow/Store               the rows of models/workflow.py and models/knowledge_revision.py
--   Workflow/Queries, Repository db/repositories/workflow_repository.py: its reads and inserts, and its
--                                conditional updates
--   Workflow/Revisions           db/repositories/knowledge_revision_repository.py
--   Workflow/Executor            workflow/executor.py; Claiming and Settling are about it
--   Workflow/Service, Submission, Approval, Recovery   services/workflow_service.py by its methods
--   Workflow/Consistency         the invariant of the tables, for every transaction and for all of them
--   Auth/Redis                   what the session repository uses of Redis, an interface with laws
--   Auth/Session                 db/repositories/session_repository.py; its children are about it
--   Auth/Runtime                 what the code takes of python-jose, bcrypt and hashlib, with laws
--   Auth/Settings                core/config.py: the settings of tokens and sessions
--   Auth/Security                core/security.py; Tokens and Lifetime are about it
--   Auth/Users                   models/user.py and db/repositories/user_repository.py
--   Auth/RateLimiter             services/login_rate_limiter.py, over an interface of counters
--   Auth/Service                 services/auth_service.py; its children are about it, Requests about all
--                                sequences of requests
--   Ai/Provider                  ai/provider.py and ai/exceptions.py
--   Ai/Gateway                   ai/gateway.py: the loops of retries, and Preparing what comes before
--   Ai/Embedding                 ai/embedding_gateway.py
--   Knowledge/Chunking           knowledge/chunking.py; Pieces, Drafts and Coverage are about it
--   Knowledge/Budget, Context    knowledge/budget.py and context.py; Text has the methods of `str`
--   Knowledge/Tables, Files, Repository   the rows of models/knowledge_base.py, knowledge_document.py,
--                                document_version.py, document_chunk.py and file_resource.py, and
--                                db/repositories/file_repository.py and knowledge_repository.py
--   Knowledge/Error, Fingerprint knowledge/exceptions.py; knowledge/indexing.py and embedding.py
--   Knowledge/Ingestion, Vectors, Indexing, Retrieval   services/knowledge_service.py: up to the versions, the
--                                writing of vectors, the transactions and parts of a run, and the search;
--                                Indexing/Run and Indexing/Ingest have the methods made of the parts, the
--                                other children of Indexing are about a run, and Retrieval/Hits about a search
--   Knowledge/Publishing         the transactions and the active versions; Adding and Saving are about what
--                                the additions of documents and of versions promise
--   Storage                      storage/provider.py, an interface with laws
--   Storage/Service              services/file_service.py; Backing, Operations and Histories are about it
--   */Tests                      the theorems at concrete inputs
--
-- A table is a list of rows. An UPDATE with a condition changes every row that meets it and gives how many
-- met it, and the source's test of the row count is a test of that number. A transaction is a function
-- from the tables to those that it commits and what it returns or raises; transactions are serialised.
-- Where a method reads in one transaction and writes in another, the argument `others` is what other
-- sessions commit in between, so the tables that it finds later are arbitrary. New ids and the time are
-- arguments, as are the results of the document queries of a submission and the class test `isinstance`.
-- A node is any function to a value or an exception. Numbers in JSON are natural, and timestamps that
-- the database sets by default are left out. The search of the registry for cycles has one unit of
-- fuel more than there are steps, and `none` says that it ran out.
--
-- Redis is code outside the repository: the theorems on sessions hold for every store with the laws of
-- Auth/Redis, among them that a session only disappears by itself, by the passing of time. A Lua script
-- is one change of the store, as Redis runs it. `HSET` keeps the fields of an older hash that it does not
-- name, which `create` models.
--
-- The tokenizer of Knowledge is any function. Token numbers are natural there, and a subtraction that the
-- source tests for being positive gives 0 where the source's result is not.
--
-- A token of Auth is opaque to the source, which only hands it to python-jose and hashes it, so its type is a
-- parameter; that a written payload comes back until it expires and not later is a law of Auth/Runtime.
-- What a request reads of the clock and of the random generator is its argument.
--
-- The gateways of Ai run against an environment that says of every wait whether it ends in time and what
-- the provider answers or streams; their loops have one unit of fuel for each retry and one more. The
-- chunker's loop over a long sentence has the length of the sentence as fuel, and takes at least a character
-- in each round. Where fuel runs out there is a value of its own.
--
-- A run of the indexing alternates transactions with calls of the vector store, so it changes a world of
-- tables and vectors, and `others n` is what the other sessions do to it before the n-th of its steps. The
-- vector store is outside the repository; its laws in Knowledge/Vectors say what an accepted upsert and an
-- accepted deletion leave, and nothing of a refused one. The batches have the length of their list as fuel,
-- and each takes at least one element. What the storage and a parser make of a file, the tokenizer, JSON and
-- SHA-256 are parameters. Uploads, deletions, downloads and cleanups of files are taken one after the other;
-- a flush or a commit of theirs may be refused at any place. The laws of a storage are those of an object
-- store: a deletion of one key leaves the others, and what is there is not missing when opened.
--
-- Some calls that the source makes in several round trips are one step of the model, with no other session
-- in between: `list_for_user`, of which no law says in which order the index is, all batches of
-- `upsert_vector_points`, and the claim of a step with the reads that prepare its node. The cancellation of
-- an awaited node (`asyncio.CancelledError`) is left out, and so are a provider's stream without an end and
-- the errors of closing one. The counters of the login attempts do not expire in the model: its attempts
-- are those of one window.
--
-- Not modelled: the HTTP layer (api, schemas, main.py), most of the configuration and the connections, the
-- chat services, the validation of uploads, the prompt center, the providers behind the gateway, document
-- parsers, the clients of the vector store and of the storages, and the migrations.
pub mod Base
pub mod Workflow
pub mod Auth
pub mod Ai
pub mod Knowledge
pub mod Storage
