-- ===== src/Lib.antt =====
-- Clarity Messenger: a model of its protocol core, its relay with server and client, its mesh, its C
-- interface and the stored form of its group clients, with what is proved of them.
--
-- The program is a workspace of Rust crates. `core` holds the end-to-end protocol: accounts with
-- signed prekeys (core/src/identity.rs), the PQXDH handshake (core/src/handshake.rs), the double
-- ratchet (core/src/ratchet.rs), sessions that put the two together (core/src/session.rs),
-- sealed-sender envelopes (core/src/envelope.rs), the encodings (core/src/wire.rs) and an enclave
-- that keeps accounts and sessions sealed between calls (core/src/enclave.rs). `relay` is the
-- untrusted server that keeps prekey bundles and queues of opaque messages (relay/src/store.rs),
-- behind HTTP (relay/src/server.rs); `net` is its client (net/src/lib.rs). `mesh` floods opaque
-- frames from node to node where there is no relay (mesh/src/lib.rs). `ffi` gives the application C
-- functions over all of these. A client fetches a bundle from the relay, opens a session, and sends
-- its messages in envelopes by the relay or the mesh.
--
-- Where what is:
--   Prelude            byte strings, lists over native numbers, hash maps and ordered maps as
--                      association lists, `Result` with `?` as its bind.
--   Core.Crypto        what the core calls of dalek, RustCrypto and ml-kem, as a record of functions,
--                      and what those document, as a record of laws.
--   Core.Bincode       bincode at one type, as a record of two functions, and its round trip.
--   Core.Error, Wire   core/src/error.rs, the types of core/src/wire.rs.
--   Core.Encoding      core/src/wire.rs: Message::encode and decode, PreKeyBundle::encode and decode.
--   Core.Kdf           core/src/kdf.rs: kdf_rk, kdf_ck, aead_seal, aead_open, kdf_root_from_ikm.
--   Core.Pqkem         core/src/pqkem.rs.
--   Core.Identity      core/src/identity.rs: Account, bundle, verify_bundle, the one-time prekeys;
--                      Stored beside it has to_bytes and from_bytes.
--   Core.Handshake     core/src/handshake.rs: initiate, respond.
--   Core.Ratchet.Defs  core/src/ratchet.rs: DoubleRatchet, encrypt, decrypt, skip_message_keys,
--                      dh_ratchet. Stored beside it has serialize and deserialize; Cache, Order, Chain,
--                      Delivery, Pending, Turn, Bounds and Replay are proofs.
--   Core.Session       core/src/session.rs: initiate, respond, encrypt, decrypt. Stored beside it has
--                      serialize, deserialize and the reachable sessions, Accounts the reachable
--                      accounts.
--   Core.Enclave       core/src/enclave.rs. Sealing and Refinement beside it are proofs.
--   Core.Envelope.Defs core/src/envelope.rs. Bucket and RoundTrip beside it are proofs.
--   Relay.Store.Defs   relay/src/store.rs, in memory: publish, fetch_bundle, enqueue_at, poll_at,
--                      sweep_expired_at on `Inner`. Queue, Mailbox, Directory and Run are proofs.
--   Relay.Store.Persistence  the same file's open, maybe_flush, flush and dirty flag. Recovery,
--                      Reopen and Restart are proofs.
--   Mesh.Node          mesh/src/lib.rs and mesh/src/frame.rs: MeshNode and MeshTransport. Bounds,
--                      Routing, Dedup and Hops are proofs.
--   Core.Inbox         core/src/inbox.rs: epochs and the window of inbox ids.
--   Core.Safety        core/src/safety.rs: safety_number.
--   Relay.RateLimiter  `RateLimiter` of relay/src/server.rs.
--   Relay.Protocol     relay/src/protocol.rs, with base64 and JSON as records.
--   Relay.Query        relay/src/server.rs: query_param, url_decode. Form beside it is proofs.
--   Relay.Server       relay/src/server.rs: handle and the four handlers. Serve beside it has the
--                      request loop serve_on_with; Requests and Bounds are proofs.
--   Relay.CommandLine  relay/src/main.rs: the arguments and what they start.
--   Net                net/src/lib.rs: RelayTransport and NetError. Wire and Refinement beside it put
--                      the client and the server together.
--   Ffi.Buffer         ffi/src/lib.rs: ClarityBuffer, encode_byte_list; decodeByteList of
--                      app/lib/src/ffi/clarity.dart.
--   Ffi.Accounts, Sessions  the functions of ffi/src/lib.rs on accounts, bundles, envelopes, inboxes,
--                      safety numbers and sessions.
--   Ffi.Relays, MeshNodes  ffi/src/transport_ffi.rs and ffi/src/mesh_ffi.rs.
--   Group.Framing      frame, unframe and Cursor of group/src/lib.rs.
--   Group.State        export_state and import_state of group/src/lib.rs.
--   Core.Toy, Codec, Formats, Relay.Samples, Net.Samples  concrete instances of the parameters.
--   Core.Tests, StateTests, EnclaveTests, Relay.Tests, Relay.ServerTests, Net.Tests, Ffi.Tests, Mesh.Tests,
--   Group.Tests        concrete inputs.
--
-- Conventions. A method on `&mut self` is a function from the state to the new state and its result;
-- where the code fails after it has changed something, the changed state is returned with the error.
-- Fresh randomness, the clock and the outcome of each file access are arguments. The store's mutex is
-- not modelled: an operation is one step, and so is the setting of the dirty flag that follows it.
-- Keys and hashes are byte strings. `u32` counters of the ratchet and of prekey ids wrap, as in a
-- release build; `usize` and `u64` do not. A hash map is an association list with the first entry of
-- a key in force. Loops are recursion on what they consume; the skip loop of the ratchet runs on the
-- number of rounds that its condition leaves, and `next_power_of_two` on the 63 doublings of a
-- 64-bit size, which is enough since it is only called up to 8 KiB.
-- The loop of url_decode runs on fuel; the length of its input is enough. Strings are their UTF-8
-- bytes. A pointer of the C interface is what it points to, or nothing when it is null; handles are
-- owned by their callers one by one, and freeing them leaves no trace. An HTTP agent is a function of
-- the state of the world outside the client.
-- The temporary path that maybe_flush writes to is a function of the state path, a parameter. The
-- theorems on the snapshot file assume of the one state path that its temporary path is another:
-- with_extension("tmp") gives this for every file whose name does not end in .tmp; for the others
-- the write goes over the snapshot itself.
--
-- Not modelled: bincode, JSON, base64, tiny_http and ureq (parameters, with what they document as
-- laws where a theorem needs it), the binding of the server's socket,
-- the group operations that `group` passes on to OpenMLS, and the Flutter application but for its
-- reader of lists of buffers.
pub mod Prelude
pub mod Core
pub mod Relay
pub mod Net
pub mod Mesh
pub mod Ffi
pub mod Group
