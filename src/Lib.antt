-- ===== src/Lib.antt =====
-- A verification library for did:btcr2 (the repository did-btcr2-js): models of its packages as
-- functions, and theorems about them.
--
-- The parts and how they interact. A did:btcr2 identifier is resolved by the sans-I/O state machine
-- `Resolver` of packages/method: `resolve` advances through phases and asks for data, `provide` takes
-- it. Beacon signals, read from Bitcoin by the caller, commit to updates directly, by a CAS
-- announcement, or by a leaf of the sparse Merkle tree of packages/smt; the beacons look the updates up
-- in the sidecar data, and `Resolver.updates` applies them to the document in order. On the other side,
-- `AggregationService` of packages/aggregation takes a cohort through its phases by the messages of the
-- members and the calls of the operator: opt-ins, the beacon address with its recovery leaves, updates
-- and declines, the announcement or the tree, validations, a MuSig2 session, and, where that fails, the
-- k-of-n fallback spend. `AggregationParticipant` is the other end of these messages. The signals that
-- the cohort publishes are those that the resolver reads. packages/key-manager holds keys.
--
-- Which file models which part:
--   Smt/Hash, Smt/Bits, Smt/Proof, Smt/ZeroHash, Smt/Tree: packages/smt/src/hash.ts, btcr2-leaf.ts,
--     btcr2-proof.ts, zero-hash.ts, btcr2-tree.ts. The tree is a record of its two maps and its computed
--     leaves and root; a method that can throw half-way gives the state it leaves with its outcome.
--   Common/Json, Common/Text: packages/common/src/utils/json.ts, and the JSON values and texts that the
--     resolver reads. A number of JSON is a natural number or `other_num`.
--   Resolver/Types, Documents, Apply, Updates, Beacons, Machine, Provide:
--     packages/method/src/core/resolver.ts with src/core/beacon, src/utils/appendix.ts, the function
--     getSigningMethod of src/did-btcr2.ts, and packages/common/src/json-patch.ts. The state of the
--     machine is the record `Resolver`, one field for each private field of the class.
--   KeyManager: packages/key-manager/src/local-key-manager.ts.
--   Aggregation/Cohort, Session, Conditions, Recovery, FallbackSpend, Messages, Strategy:
--     packages/aggregation/src/core, the files cohort.ts, signing-session.ts, conditions.ts,
--     recovery-policy.ts, fallback-spend.ts, messages, beacon-strategy.ts; Common/Number: the numbers of
--     JavaScript, as far as the range checks tell them apart.
--   Aggregation/Service, Aggregation/Participant: packages/aggregation/src/service/service.ts and
--     participant/participant.ts. A method is an action on the state of its cohort (`accept_action`
--     for acceptParticipant, `handle_opt_in` for #handleOptIn) that ends with a result or an error and
--     leaves a state in both cases; `run_at` finds the state in the map. Service/Runs has the steps of
--     the service as a relation. The fields of `Map` and `Set` type are association lists and lists.
--     Aggregation/Ready has the two together at the end of keygen.
--   Aggregation/Inbox: packages/aggregation/src/service/inbox-buffer.ts.
--   Prelude: lists, options, results and `Map`s as association lists in insertion order. Tests: concrete
--     functions for the parameters, and the theorems at work on concrete inputs.
-- The proofs stand in child modules named for what they prove.
--
-- Parameters. What comes from npm packages is a record of functions: `Crypto` (hashes, base64url), `Env`
-- (canonical JSON hashes, JSON patches, dates, data integrity proofs, DID documents), `Curve` and `Musig`
-- (signatures), `Taproot` and `Spender` (keys, scripts and outputs of Bitcoin), `Canonical` (hashes of
-- canonical JSON), `Host` and `Client` (the parameters of a service and of a participant, with the
-- conversions they use). A theorem that relies on their behaviour has it as a hypothesis: `CryptoLaws`, equality
-- of bytes, or that a signature verifies under the key that made it. Collisions of sha256 are not ruled
-- out: they are an outcome of the theorem, between strings that the two calls hash.
--
-- Bounds and fuel. Hashes have 32 bytes and indexes 256 bits, the tree 256 levels, over which the
-- functions recurse. The loop of `resolve` runs on fuel 6: a call passes through each of the five phases
-- at most once before it answers, since a round of discovery that finds a new address asks for data.
-- Numbers are natural numbers; `targetVersionId`, block heights and times are non-negative integers in
-- the source, too.
--
-- Not modelled: the Bitcoin clients, the command line, the api facade, transports, HTTP and the runners
-- (input and output, timers, events); key pairs and the cryptosuite (wrappers of curve libraries); the
-- path-compressing Merkle tree; creation of identifiers and documents, the updater, the spend by the
-- recovery key. A document without a service array, where `getBeaconServices` throws, has no beacons in
-- the model; a validated document has that array. The text of an error or a rejection is left out, and so is what `updateInput` leaves in
-- a transaction that then fails to be finalized.
pub mod Aggregation
pub mod Common
pub mod KeyManager
pub mod Prelude
pub mod Resolver
pub mod Smt
pub mod Tests
