-- ===== src/Lib.antt =====
-- Verification of hoike, an OCSP responder that serves pre-signed responses from sealed bundles.
--
-- A bundle file (crates/ahu) holds a manifest, a seal over it, a sorted index and the responses. The
-- responder (crates/hoike-core) admits bundles, keeps the highest epoch it has seen of every CA scope
-- on disk, refuses older bundles, and answers requests from the bundles it has admitted. The signer
-- (crates/hoike-sign) makes bundles from the status of certificates, under the next epoch, the server
-- (crates/hoike-server) answers over HTTP, and the nodes tell each other their generations
-- (crates/hoike-gossip).
--
-- The files:
--   Base: lists and options over the native numbers, results, orders, binary search, association lists.
--   Ahu/Error, Ahu/Wire: error.rs of crates/ahu/src, and reading and writing of its binary sections.
--   Ahu/Header: header.rs; read_from, write_to and validate_bounds keep their names.
--   Ahu/Index: index.rs; the records, validate_sort_order and the binary searches.
--   Ahu/Cbor, Ahu/Manifest: manifest.rs; to_cbor in Manifest/Encode, from_cbor in Manifest/Decode.
--   Ahu/Bundle: bundle.rs; from_bytes, to_bytes and the lookups.
--   Ahu/Build: BundleBuilder of bundle.rs, with the sort of the entries and the shared payloads of aliases.
--   Ahu/Ops: ops.rs; diff, and in Ops/Apply apply_sealed, over a working set that is a list in key order.
--   Ahu/Verify: verify.rs; verify_structure and check_epochs.
--   Core/Error, Core/Storage: error.rs and storage.rs of crates/hoike-core/src; a disk is a map of
--     files with a schedule of what the operating system answers to the writes.
--   Core/State: state.rs; StateStore, advance, check_rollback and check_continuity.
--   Core/State/Open, Core/State/Persist: the opening of a state file, snapshots and commit of state.rs.
--   Core/Config: the storage settings and bundle_destination of config.rs.
--   Core/Admission: admission.rs; the CMS verification of crates/ahu/src/seal.rs is an interface.
--   Core/Router: router.rs; registration of scopes, scope_for_certid and lookup.
--   Core/Prepare, Core/Install: install.rs; the checks before the first write, and the writes.
--   Core/Install/History: sequences of installations, each of which opens the state that is on the disk.
--   Core/Request: request.rs and response.rs; parse_ocsp_request over the values of the x509-ocsp crate.
--   Core/Config/Validate: validate_for_mode and validate_transport of config.rs.
--   Gossip/Message, Gossip/Broadcast: broadcast.rs of crates/hoike-gossip/src; the inbound handler.
--   Gossip/Crypto: crypto.rs and config.rs; the framing of broadcasts, check and load_authentication.
--   Gossip/Node: node.rs; the announcements and the table of the generations.
--   Sign/Source, Sign/Config, Sign/Time: source.rs, and the values and times of generate.rs of
--     crates/hoike-sign/src.
--   Sign/Generate, Sign/Produce: generate.rs; prepare_entries, sign_and_add_entries, produce_bundle and
--     produce_dual_bundle.
--   Sign/Orchestrate: orchestrate.rs; the epoch and the configuration that sign_ca_scope derives.
--   Sign/Der: seal.rs; the DER lengths and the ECDSA signature that it writes by hand.
--   Sign/Sync: dogtag_sync.rs; the checkpoint with apply_entry and finish.
--   Server/Http, Server/Forward: the responses and forward_request of crates/hoike-server/src/handlers.rs.
--   Server/Access: rbac.rs, the roles and sessions of state.rs, and the check reload_bundles starts with.
--   Server/Date: days_to_ymd of handlers.rs, and in Date/Calendar the Gregorian calendar.
--   Server/Handlers: process_request, handle_get and handle_post of handlers.rs, and the state of state.rs.
--   Ahu/Samples, Ahu/Examples, Ahu/BuildExamples, Ahu/OpsExamples,
--     Core/Samples, Core/Encoding, Core/Examples, Core/StateExamples, Core/HistoryExamples,
--     Core/RouterExamples, Core/RequestExamples, Server/Examples,
--     Server/AccessExamples, Server/DateExamples,
--     Gossip/Samples, Gossip/Examples, Sign/Samples, Sign/Examples,
--     Sign/OrchestrateExamples, Sign/DerExamples, Sign/SyncExamples: concrete inputs and the theorems
--     at them.
--
-- The byteorder, bitflags, ciborium, uuid, sha2, hex and serde_json crates are parameters: the records
-- Codec, Cbor and Deps, with the documented laws that the code relies on as fields or as hypotheses.
-- Integers are natural numbers; where the code checks for overflow the bound is written out, and a
-- usize has 64 bits. An f64 is its 64 bits, with the comparisons of Base/Float.
-- Texts are their bytes. Every loop of the source is a structural recursion over the list it walks; the
-- binary search halves an interval, and the signer cuts its entries into buckets, on fuel that is the
-- length of the list, which is enough since every round makes it shorter.
-- Log lines, metrics and message texts are not modelled, nor are CMS seals, DER parsing, the HTTP
-- framework, key files and tokens, the gossip sockets and the command line, which are calls of
-- third-party code for the most part. The DER coding and the signing of OCSP responses are the
-- parameters Ocsp and Signer, and the clock of the signer is a parameter. Two processes on one state
-- directory are excluded by a lock that is not modelled.
pub mod Base
pub mod Ahu
pub mod Core
pub mod Gossip
pub mod Sign
pub mod Server
