-- ===== src/Lib.antt =====
-- PostProject is a shared layer of knowledge about media: a production file (SQLite) records
-- assets, their representations, the resources that hold them, what was made from what, and the
-- work that is to be done; tools of many kinds read and extend it. This library models the parts
-- of it that decide something, and proves what they promise.
--
-- The program. crates/postproject-core has the domain types, whose constructors check their
-- arguments; crates/postproject-storage-sqlite keeps them in tables, and changes them in
-- transactions; crates/postproject-media finds, recognises, fingerprints and imports files;
-- crates/postproject-cli, crates/postproject-ffi and python are the interfaces to them.
--
-- The files.
--   Base            crates/postproject-core/src/error.rs (Base/Errors), and the shared helpers:
--                   lists, integers (Base/Int), overflow at a width (Base/Machine), sorting
--                   (Base/Sorting), well-founded recursion (Base/Order).
--   Core/Time       crates/postproject-core/src/time.rs: RationalRate (Rate, with the loop of
--                   Gcd), RationalTime (Instant, with Compare and Rescale), TimeRange (Range).
--   Core/Text       the texts that are bytes, with the tests that identifiers share.
--   Core/Content    crates/postproject-core/src/content.rs: FrameRange (Frames), the filename
--                   pattern and the role (Pattern), ImageSequenceDescriptor (Sequence),
--                   ContentStructure (Structure); their theorems are in Frames and Laws.
--   Core/Resolution crates/postproject-core/src/resolution.rs: ResourceResolution (Resources),
--                   RepresentationResolution::aggregate (Aggregate), what it promises
--                   (Availability, Matching, over the map of Keyed).
--   Core/Bytes      numbers as their big-endian bytes, which identities and integers have.
--   Core/Metadata   crates/postproject-core/src/metadata.rs: decimals and rationals (Numbers,
--                   Rationals), values (Value), their constructors (New) and what these accept
--                   (Valid, Accepted, Composite, Created).
--   Core/Dependency crates/postproject-core/src/dependency.rs.
--   Core/Transaction
--                   crates/postproject-core/src/transaction.rs: the states of a transaction.
--   Storage/Dependencies
--                   crates/postproject-storage-sqlite/src/dependency_evaluation.rs: the rows of a
--                   snapshot (Rows), their decoding (Decode), the check of a captured path against
--                   what is recorded now (Segments, Evaluation); Reasons, Worst, Holds and Exactly
--                   have the theorems. The segments are matched by means of Core/Dependency.
--   Storage/Snapshot
--                   crates/postproject-storage-sqlite/src/dependency_snapshot.rs: the writing of a
--                   path (Persist) and the traversal (Capture), which reads the tables of
--                   Storage/Dependencies and fills those that the evaluation reads. Steps has the
--                   traversal as a step relation, Bounds and Knowledge what the steps keep and
--                   learn, Visits and Total that it succeeds, Complete what it promises.
--   Storage/Jobs    the job operations of crates/postproject-storage-sqlite/src/transaction.rs on
--                   the table of
--                   crates/postproject-storage-sqlite/src/migrations/009_jobs.sql: request_job,
--                   claim_job_with_id, renew_job_claim, release_job_claim, fail_job, cancel_job
--                   (Operations), over the rows (Row), the guarded UPDATE (Table) and the
--                   transaction (Store). A history of calls is a list of Calls; Cases, Effects and
--                   Claims are about one call, Invariant, Leases, Settled, Lifecycle and Holder about
--                   histories of them.
--   Storage/Cursors crates/postproject-storage-sqlite/src/query_cursor.rs: the fields of a token
--                   (Fields), the tokens and the positions that they name (Position), what a
--                   query reads of a token (Laws), of the tokens of the jobs (Jobs), in other
--                   queries too (Foreign), and of the dependencies (Dependencies).
--   Storage/Metadata
--                   crates/postproject-storage-sqlite/src/metadata_codec.rs: the writer (Encode),
--                   the reader (Decode), the stored form as a plain function (Form), what the
--                   reader reads of it (Reads, ReadsBack, RoundTrip), and what it accepts
--                   (Yields, Sound) and refuses (Refusals). The values are those of
--                   Core/Metadata.
--   Storage/Artifact
--                   crates/postproject-storage-sqlite/src/artifact.rs: the activities and the types
--                   of an evaluation (Activities), the comparison of an edge (Edges), the recursion
--                   upstream (Nodes), what a current edge is (Known), and what a current
--                   evaluation says of everything upstream (Upstream, Current); the reasons that
--                   say that a limit was hit (Cuts, Inputs, Limits); the report of
--                   Reproducibility. It calls the evaluation of Storage/Dependencies.
-- The modules named Tests run the definitions at concrete inputs.
--
-- The correspondence. A function has the name that it has in the source, in a module per type
-- where two types have a function of the same name. A struct is a record and an enum a data type.
-- An identity of 16 bytes is the number that its bytes spell. A text is its list of bytes where
-- the source looks into it, and else a String. An i64 or an i128 is a ℤ, with a test where the
-- source checks for overflow; an unsigned integer is a ℕ, whose width is a hypothesis or a test.
-- A timestamp counts microseconds. A table is a list of rows, a map an association list. An
-- operation of a transaction takes the store and returns a result with the store after it, also
-- where it fails. Rust loops over a slice are recursion on the list; the loop of
-- greatest_common_divisor recurs on the accessibility of its falling argument; the recursion of
-- capture_from is on fuel, of which 65 is enough, since a path has at most 64 edges.
-- A value of metadata is decoded by recursion on the levels that are left of the 32 that it may
-- have, and an artifact on the levels that are left of its limit; the source counts both upwards.
--
-- What is not modelled. Errors of SQLite, but for those of a primary key or of UNIQUE: the model
-- has no disk, and no CHECK of a table is raised. The signature of a query, a third-party hash, and
-- the texts of identities, those of a third-party UUID, which are parameters of the tokens. The
-- tests of a text by the standard library and by a third-party parser (UTF-8, URI, whitespace and
-- control characters), a parameter of the metadata. The values that the source formats into a
-- message: a message has its fixed words. Display and FromStr of times. ResolutionCandidate::new,
-- which normalises a URI by a third-party parser. complete_job, with the representation and the
-- activity that it persists.
--
-- The other operations of the transaction and the queries of lib.rs. crates/postproject-media,
-- whose functions read files. The interfaces of the command line, of C and of Python.
pub mod Base
pub mod Core
pub mod Storage
