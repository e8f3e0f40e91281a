-- ===== src/Lib.antt =====
-- The secure query path, the metadata cache, the permissions and the document chunker of a platform
-- on which the users of several tenants chat with their databases and documents.
--
-- The program and its parts. A tenant connects databases; administrators grant roles and users access
-- to tables and columns, with row filters and masks. When a language model proposes SQL for a user,
-- services/database/secure_query_service.py (`run_secure_query`) looks the connection up within the
-- tenant, merges the user's grants into one allowed schema, has the text validated, rewritten with the
-- row filters and validated again, runs it read-only, and masks the result. Uploaded documents are
-- split into overlapping chunks.
--
-- Which file models which part:
--   Shared           Python's Booleans, exceptions, lists, texts and dicts
--   Values           JSON documents and database values (`Value`), `str(uuid)`, truth of a value
--   Models           models/*.py: the rows of the platform's database, and a `Store` of them
--   Permissions      core/permissions.py; Repository: repositories/effective_permissions.py;
--                    Effective: services/database/effective_permission_service.py
--   Sql.Sqlglot      what the code uses of the SQL parser
--   Sql.Validator    services/database/query_validator.py, one module for each stage
--   Sql.RowFilter    services/database/row_filter_service.py
--   Sql.Pipeline     services/database/query_security_service.py
--   Encryption       core/encryption.py
--   Execution        services/database/query_executor.py (Serialize, Masks, Records, Executor),
--                    connection_tester.py (Connect) and secure_query_service.py (SecureQuery)
--   Authentication   core/security.py, services/auth_service.py (Passwords) and `get_current_user` of
--                    app/dependencies.py
--   Connections      services/database/connection_service.py over repositories/connections.py: Steps has
--                    the operations as a step relation, Transitions and Changes what a step does,
--                    RoundTrip how details that are entered come back for a query
--   Discovery        services/database/schema_discovery.py (Discovery, and Meaning for what its rows say),
--                    metadata_cache.py (Cache), schema_sync_service.py (Sync) and
--                    metadata_query_service.py over repositories/database_schema.py (Catalog)
--   Grants           schemas/permission.py (Schemas), services/database/permission_service.py and
--                    repositories/permissions.py (Grants, and Listing for get_permissions)
--   Documents        services/document/text_chunker.py (Chunker) and document_processor.py (Processing)
--   Tests            concrete runs, and the theorems at concrete inputs
-- A function keeps its name, a loop body or a branch that has a name of its own is said to be one
-- where it is declared. The types of exceptions are data types with a constructor for each message.
--
-- State. The platform's database is a `Store` that the modelled operations read and return. A
-- statement that sqlglot mutates is passed from step to step as a value; `Node` is the identity of a node. An
-- exception is the `err` of a `Result`, and a `try` a function on results.
--
-- Parameters. The SQL parser (`Sqlglot`), the database driver, the clock and the formatters
-- (`Runtime`), the object storage, the extraction of text from a file, the probe of a source database
-- and the dialogue with it in a discovery, the cipher (`Fernet`), the URL parser, the token library
-- (`TokenLibrary`), the password hash (`PasswordContext`), the UUIDs of new rows, and the order in
-- which the platform's database returns rows are arguments. Laws of them that a theorem needs are its
-- hypotheses: that setting the limit or the WHERE of a statement sets it, that `exp.and_` and
-- `exp.or_` mean AND and OR, that a token decrypts, that the token library encodes and reads back the five claims, that new
-- UUIDs are distinct, that an ORDER BY keeps the rows and their number. What sqlglot raises is a
-- `ParseError` or the `TokenError` of its tokenizer.
--
-- Bounds and fuel. Python's integers are natural numbers, or `ℤ` where a guard asks for the sign. The
-- loop of the chunker runs on fuel, as many rounds as the text has characters; every round moves the
-- start on, so that is enough, and `out_of_fuel` is never raised. All other loops are structural.
-- Lower case is that of ASCII: names of tables and columns are taken to be ASCII.
--
-- Not modelled: the HTTP layer and most of its schemas, the chat services and the language models,
-- embeddings and retrieval, the text extraction of documents, administration of knowledge bases,
-- uploads and the audit log; object storage, migrations and scripts, which are I/O.
pub mod Shared
pub mod Values
pub mod Models
pub mod Permissions
pub mod Sql
pub mod Encryption
pub mod Execution
pub mod Authentication
pub mod Connections
pub mod Discovery
pub mod Grants
pub mod Documents
pub mod Tests
