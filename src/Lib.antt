-- ===== src/Lib.antt =====
-- HellGraph: the typed metagraph of the repository (ts/src), the governance of the content it
-- holds, and the proofs that stay bound to what was observed.
--
-- The parts and their files:
-- - Base (Tests, Lists, Text, Sets) and Dict: numbers, lists, texts, JavaScript's Set and Map. A map
--   keeps its entries in order of insertion.
-- - CausalProof: ts/src/causal-proof.ts. A cut is a version vector over writers; `bindProof`,
--   `honorProof`, `cutMeet`, `compactionFloor`, `compact` and `boundCut` are bind_proof, honor_proof,
--   cut_meet, compaction_floor, compact and bound_cut. Children: Cuts (the lattice), Frames (binding
--   and honouring), Compaction, Floor and Readers.
-- - Lifecycle: ts/src/lifecycle.ts, the state machine of content. `TRANSITIONS`, `canTransition` and
--   `applyTransition` are transitions, can_transition and apply_transition; the errors that the last
--   throws are constructors of its result. Child: Graph.
-- - Policy: ts/src/policy.ts down to `decide`. Context holds the context of a decision and the reading
--   of a path in it, Conditions the evaluator with its bound of 64 levels, Decisions the rules and
--   `decide`. An error that a condition throws is `none`.
-- - Governor: the rest of ts/src/policy.ts, over Lifecycle and Policy. The audit log, the scheduler,
--   and `transition` and `runRetention`, which take the state and return it with the object. Children:
--   Trail (what is audited) and Holds (sequences of calls).
-- - AtomSpace: ts/src/atomspace.ts. Lattice is `TypeLattice`; Values and Space hold the atoms and the
--   indexes; Write is the write path, Log the log, its replay and `importEntry`, Read the lookups.
--   Durability, Restart, Types, Indexes and Import hold the proofs.
-- - RateLimit: ts/src/rate-limit.ts, over any arithmetic for its doubles and times.
-- - Admissibility: ts/src/claim-admissibility.ts, the chain of gates.
-- - Matcher: ts/src/patternMatcher.ts, over the AtomSpace: Unify, Search and Results.
-- - Store: ts/src/store.ts with the types of ts/src/types.ts, over the AtomSpace: the projections,
--   Reads, Writes and Transaction. Values, Unique, Nodes and Steps hold the proofs; Steps shows a
--   transaction as calls of the AtomSpace.
-- - Bulk: ts/src/bulk.ts, over the Store: reading CSV (Quoting) and the loads (Loads).
-- - Auth: ts/src/auth.ts. Tokens is minting and verifying, Headers the Authorization header.
-- - Metta: ts/src/metta.ts and ts/src/metta-eval.ts, over the AtomSpace. S-expressions with their
--   printer and parser (Tokens, RoundTrip, Fuel), the evaluator (Eval: Unification, Budget, Rewriting,
--   Normal), and the matching of patterns with a space, queries and programs (Match: Queries).
-- - Codex: ts/src/codex.ts, the seal of a text and the syndrome of a change. Letters and Shapes are the
--   facets of a text put together; Changes, Edits and Exchanges say what a syndrome tells; Seals is the
--   seal of an atom.
-- - ObjectStore: ts/src/object-store.ts. Calls is `CanonicalObjectStore` over any backend, Backends the
--   two backends, Sessions and Contents sequences of calls, Interleavings two ingests that overlap.
-- - Masking: ts/src/masking.ts. Leaves is reading and writing at a path, Wrapping the wrapper of a
--   ciphertext, Payloads and RoundTrip masking and unmasking, Graph `maskingPolicyToGraph` over Store.
-- - VendorCache: ts/src/vendor-cache.ts, over Policy, Governor, ObjectStore and Masking. Egress and
--   Payloads show what is sent.
-- - Federation: ts/src/autobase-view.ts, over CausalProof and AtomSpace. Numbering is the ids of a
--   writer's operations, Feed a consumer of the change feed.
-- - Examples: concrete inputs on which the theorems apply.
--
-- How the code is read: a Map or a plain object is an association list (Dict), and a key that
-- JavaScript inherits is outside the model; keys keep the order of insertion, also those that look
-- like array indexes, which JavaScript lists first in a plain object. The expiry of a token is a
-- number if it is there. The mutable atoms are named by their handles. The clock
-- is an argument of each call. Floats, their text and the hash are the fields of a parameter
-- (AtomSpace.Space.Host): no law about them is assumed. The search of the lattice runs on fuel, a
-- round for each supertype that it may push, and each round pops one. The parser of Metta has two
-- units of fuel for a token, its evaluator as much as the budget of the source, and the printing of
-- atoms as much as links nest. Numbers elsewhere are whole. In Store the clock is a function of the
-- sequence number; in Auth the HMAC and the JSON of a payload are parameters, with what a round trip
-- needs of them as hypotheses; so are SHA-256, the backend, the cipher, the JSON and the answers of the
-- vendors in Codex, ObjectStore, Masking and VendorCache. A method that awaits is one step, but for
-- `ingest`.
--
-- Not modelled: files, sockets and events, the storage backends but for what they hold and return,
-- the other query languages, the retrieval and analytics over floats, the other ingest, the
-- generated data, the replication and the linearization of Autobase, and the Rust crates.
pub mod Base
pub mod Dict
pub mod Admissibility
pub mod AtomSpace
pub mod Auth
pub mod Bulk
pub mod CausalProof
pub mod Codex
pub mod Federation
pub mod Governor
pub mod Lifecycle
pub mod Masking
pub mod Matcher
pub mod Metta
pub mod ObjectStore
pub mod Policy
pub mod RateLimit
pub mod Store
pub mod VendorCache
pub mod Examples
