-- ===== src/Lib.antt =====
-- The Artos Nautilus server: an HTTP server that signs order responses inside an AWS Nitro
-- enclave, and the first process of that enclave.
--
-- Parts and files. Paths are from the root of the repository.
-- * Orders/ is src/nautilus-server/src/orders. Types: the requests, responses and codes. Hex:
--   `parse_hex_bytes`. Message: the structs that are signed, `signing_message` and
--   `signing_message_v2`. Crypto: the static signing key of crypto.rs. Json: the requests and the reply as JSON. Signing: `make_response`,
--   `sign_response`, `sign_v2` and `sign_response_with_v2`.
-- * Server/ is src/nautilus-server/src. Errors: `EnclaveError` of lib.rs. Processed: the generic
--   `IntentMessage` and `to_signed_response` of common.rs. Attestation and Health: the handlers of
--   common.rs. Handlers and Startup: main.rs.
-- * Enclave/ is src/aws/src/lib.rs (Aws) and src/init/init.rs (Init), over System: what they ask
--   of the crate `system`, libc and `std`.
-- * Rust/ is what the code uses of the language: panics and results, texts, numbers in text.
-- * Serde/ is the data model of serde as the signed structs use it, the format of `bcs::to_bytes`,
--   and the values of `serde_json`. External: the signature schemes and the text encodings.
-- * Tests/ has concrete libraries, and every theorem of the list below at a concrete input. The
--   children of a module hold its theorems and are named for what they are about.
--
-- How the parts interact. `main` creates the signing key, reads the port and binds it; the server
-- then answers calls. The order handler builds a response from the request and the clock, signs
-- its V1 message, and where the request has V2 fields its V2 message too, with the same key.
-- Attestation and health check read the ephemeral key, which is another one. The enclave's `init`
-- prepares the system, starts the script that runs the server, and reboots when that ends.
--
-- How the code is modelled.
-- * A text is the list of its UTF-8 bytes, and a number of the source a natural number. Where a
--   proof needs the range of a machine integer, that range is a hypothesis; where the source cuts
--   or checks a number (`as u64`, `from_str_radix`), so does the model. The file descriptors of C,
--   -1 on a failure, are integers.
-- * A function that can panic returns an `Outcome`, and one that fails a `Result`. `expect` and a
--   slice that cuts a character panic. A panic in a handler ends the task of that call.
-- * State is passed on: the cell of the signing key, the state of the network, the NSM device. The
--   calls of the enclave to its system are recorded in order, over a world that nothing is known
--   of.
-- * Libraries are records of operations (`Bcs`, `Ed25519`, `OnceCell`, `Encoding`, `Yaml`,
--   `Network`, `Router`, `NsmDriver`, `Nsm`, `System`), and what they promise is `IsBcs`,
--   `IsEd25519`, `IsOnceCell`, `IsEncoding` and `IsRouter`. The laws of a signature scheme say that
--   a signature verifies, and nothing on forgery. `IsBcs` has the two limits of the crate: on the
--   length of a sequence, and `max_container_depth`, 500, on the nesting of containers. `IsRouter`
--   says where axum sends a call whose path and method are those of a route, and no more.
-- * `entropy_loop` runs on fuel. Each round adds 256 bytes, so `size` rounds are enough.
--   `show_digits` has 20 digits, enough for every number below 10 ^ 20, and `uleb128` has 5
--   groups, enough for every length that BCS accepts. All other loops recur on their list or
--   number.
--
-- Not modelled: logging, CORS, HTTP below the handlers, the text of JSON, the
-- build without the feature `orders` (its module `app` is not in the repository), the crate
-- `system` (its sources are not in the repository), scripts, and the Move packages.
pub mod Prelude
pub mod Rust
pub mod Serde
pub mod External
pub mod Orders
pub mod Server
pub mod Enclave
pub mod Tests
