-- ===== src/Lib.antt =====
-- aries-vcx: the protocols connection 1.0, issue-credential 1.0, present-proof 1.0 and revocation
-- notification 2.0 of aries/aries_vcx.
--
-- Two parties connect, an inviter and an invitee, by exchanging DID documents. A credential is
-- issued between an issuer and a holder, and presented by a prover to a verifier. An issuer can
-- also notify a holder of a revocation. Each of these is a state machine that moves by messages and
-- by calls of its agent. A machine asks a ledger and an anoncreds library, builds
-- the messages that the agent sends, and in most of its calls refuses messages of other threads.
-- The parts and their files:
--   * Errors: aries/aries_vcx/src/errors/error.rs.
--   * Messages: the data types of aries/messages/src. `MsgParts` and the decorators stand in
--     Messages/Parts, the four protocols in Messages/Connection, Messages/Issuance,
--     Messages/Proof and Messages/Revocation, and the sum `AriesMessage` in Messages/Aries.
--   * Util: handlers/util.rs and protocols/common.rs, with one file for threads, one for
--     attachments and one for reports.
--   * Issuance/Holder and Issuance/Issuer: protocols/issuance. States has the data of each state,
--     Machine the transitions, Queries and (of the holder) Finished the methods that change
--     nothing, Request, Store and Credential the messages and what is done with them, and Handler
--     (and of the issuer Revoke) the objects `Holder` and `Issuer` of handlers/issuance.
--     Issuance/Encoding has common/credentials/encoding.rs, and Issuance/Ledger has the calls on
--     the ledger, protocols/issuance/mod.rs and common/credentials/mod.rs.
--   * Proof/Prover and Proof/Verifier: protocols/proof_presentation, laid out in the same way;
--     Handler has the objects `Prover` and `Verifier` of handlers/proof_presentation.
--     Prover/Build and Verifier/Check have common/proofs: what is fetched from the ledger and
--     handed to the anoncreds library to make and to check a proof.
--   * Query: the queries of aries/misc/anoncreds_types/src/utils/query.rs. Anoncreds and
--     Proof/Requests: presentation requests and the selection of credentials, from
--     aries/misc/anoncreds_types/src/data_types/messages.
--   * DidDoc: the DID documents of aries/misc/legacy/diddoc_legacy/src, how they are filled (Doc)
--     and validated (Keys), and those that a party makes (Built).
--   * Connection: protocols/connection. InviterStates and InviteeStates have the states of the two
--     typestate machines, Inviter and Invitee their transitions, Signing common/signing.rs, and
--     Generic the connection of any state. Signed and Handshake put the parties together. Where
--     decoding a response panics the result is `none`, as it is where the getters of a holder's
--     tails data panic.
--   * Revocation: protocols/revocation_notification, with Sender, Receiver, and both in Exchange.
--   * In Holder, Issuer, Prover and Verifier, Invariant says what holds of a machine between two
--     calls, Run has sequences of calls with what they keep, Order and Outcome say how an exchange
--     can end.
--     Issuance/Exchange and Proof/Exchange put the two parties together.
--   * Samples: a small world outside and machines in it, at which the theorems are applied.
--
-- How the code is translated. A type of the source is a record or a data type with its fields and
-- constructors, a method a function of the same name. A method that takes `self` and returns
-- `VcxResult<Self>` is a function to `VcxResult`; one that draws an identifier, reads the clock or
-- awaits a library also takes and returns the state of the outside world, `World`, and what it has
-- done there stays done when it fails. `?` is `>>=` or `and_then`, a `match` on the result of an
-- awaited call is `on_result`, and a `&mut self` method returns the object after the call. Logging
-- and backtraces are left out, and in two error texts of the verifier the `Debug` text of a state.
--
-- What is called and not modelled is a field of the record `Runtime`: identifiers, the clock,
-- base64 and UTF-8, SHA-256, serde_json, the ledger, the wallet and the anoncreds library,
-- and of aries_vcx itself `get_service` and `oob_invitation_to_legacy_did_doc`. `Codec` says that
-- base64 and UTF-8 decode what they have encoded, `Decimal` that a `u32` that is printed parses to
-- itself, `Splitting` how a text is cut at "::", and `Signatures` that the wallet verifies what it
-- has signed. A `HashMap` is an association list; where the code iterates over one that it has
-- parsed or prints one, the order is drawn from the outside world.
--
-- There is no loop but over a list, and no fuel. Numbers are natural numbers; where a `u32` is
-- read back, its bound is a hypothesis. The messages of the other protocols carry their own fields
-- as one text, beside the identifier and the thread that the code looks at. Not modelled are
-- serialization, the other protocols (mediated connections, DID exchange, trust ping, out-of-band),
-- the DID documents and resolvers of did_core, the implementations of the ledger and wallet
-- traits, the getters of the handlers that only pass on, and the agents and wrappers around the library.
pub mod Base
pub mod Query
pub mod DidDoc
pub mod Connection
pub mod Anoncreds
pub mod Errors
pub mod Messages
pub mod Runtime
pub mod Util
pub mod Issuance
pub mod Proof
pub mod Revocation
pub mod Samples
