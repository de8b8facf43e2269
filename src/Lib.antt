-- ===== src/Lib.antt =====
-- The verification library of Stulp, a controller for the home whose apps are separate programs.
--
-- The parts that are modelled, and how they meet:
-- * Slots (crates/core/src/slots.rs): all state of the platform is one document. It is written in
--   turn into one of two slots, each with a generation and a checksum. Slots/Codec.antt has
--   `checksum`, `encode`, `decode` and `select`; Slots/Files.antt has `Files::open` and `Files::save`
--   over a `Backend`, whose reads and writes may fail. RoundTrip, Torn and Selection are about the
--   codec, Files/Durable and Files/Reopen about the files.
-- * Flow (crates/core/src/flow.rs): a flow is a graph of cards in a JSON value, and an `Execution`
--   runs it: `next` hands out a card, `complete` and `skip` take the answer and queue what follows.
--   Flow.antt has these over accessors of JSON values, which are a parameter; Flow/Queue and
--   Flow/Once are about the queue and about whole sequences of calls.
-- * Protocol (crates/protocol): controller and app speak in frames with a length in front.
--   Protocol/Decoder.antt has the incremental `Decoder` and the framing of `encode`;
--   Protocol/Session.antt has the requests in flight of crates/protocol/src/session.rs.
--   Decoder/Fragments, Decoder/RoundTrip, Session/Ownership, Session/Expiry and Session/Disconnect are
--   about them.
-- * Matter (plugins/matter): the protocols of the Matter app. Matter/Message.antt has the frames of
--   src/message.rs; a message is sealed by a cipher, an interface that promises only that it opens
--   what it sealed. Matter/Ccm.antt has the AES-CCM of src/ccm.rs over the block function of AES,
--   and Ccm/Filled fills the interface with it; Ccm/Open and Ccm/Absorb are about it.
--   Matter/Tlv.antt, Tlv/Writer.antt and Tlv/Reader.antt have the TLV encoding of src/tlv.rs, which
--   the payloads of messages are in. Tlv/Layout, Scan, Values and RoundTrip are about the two,
--   Progress about the place of the reader.
-- * Matter/Mrp (plugins/matter/src/mrp.rs): the reliability protocol. Its `Node` owns all sessions,
--   exchanges and queues. Mrp.antt has the state and the methods that open and close, Mrp/Send
--   `build`, `send`, `acknowledge` and `late_ack`, Mrp/Receive `receive`, Mrp/Tick `tick`, and
--   Mrp/Replay the window of counters. Mrp/Sound is about the states that its calls reach, Quiet,
--   Duplicate, Messages, Delivery, Window, Marked, Spent and Once about messages that come again,
--   Budget and Retry about retransmission, Interval about its times, Initiate and Forget about
--   `initiate` and `remove`.
-- * Matter/Onboarding (plugins/matter/src/onboarding.rs): the manual codes that devices are added by,
--   with the Verhoeff digit that Onboarding/Verhoeff and Onboarding/Typing are about; Check, Fields
--   and Manual are about writing a code and reading it back, Walk about the walk over its
--   extensions. Onboarding/Base38.antt has the base 38 of QR codes.
-- * Prelude and Bytes: lists over native numbers, Boolean tests, results, bits and byte orders.
--
-- How the code is read: a `struct` is a record, an `enum` a data type, `&mut self` a state that is
-- given and returned, `Result` and `Option` are values, and `?` is a bind. An integer of the source
-- is a number below its range, with the range written out where the source can leave it: checked
-- additions, shifts and casts. A signed integer is a ℤ of its own, a float its IEEE bits, a string
-- its UTF-8 bytes. `reserve` answers whether the allocator grants a size. In plugins/matter a buffer
-- has at most 65535 bytes, and its allocation is taken to succeed.
--
-- Bounds and loops: loops are structural on a list, or on a count that the source has, as the 129
-- tries of `Node::initiate`. Elsewhere there is fuel: the loops of Ccm.antt over a text take a byte
-- at least in every turn, and have as many turns as bytes; the widening of a subnormal `f32`
-- (Tlv/Reader.antt) has 24 steps, more than the 23 bits of a fraction; the walk over the
-- extensions of a code (Onboarding.antt) has one turn more than the extensions have bytes.
--
-- Not modelled: the values of `hop_types` (JSON, sockets and time of HopOS), which are another
-- project's; AES and the other cryptography of vendored crates; the trees of TLV elements; the packed
-- fields of QR codes; the handshakes; the validation of flows; the store, the controller's HTTP
-- interface, the runtime, the other plugins and the iOS app. That secrets are wiped has no place in
-- a state without memory.
pub mod Prelude
pub mod Bytes
pub mod Slots
pub mod Flow
pub mod Protocol
pub mod Matter
