-- ===== src/Lib.antt =====
-- The TASTE runtime common library: what carries messages between the partitions of a system.
--
-- The program's parts. A packetizer (src/Packetizer) puts a header and a checksum round the data
-- of a request, and takes them off a received packet; the escaper (src/Escaper) frames packets on
-- a byte stream for device drivers; the broker (src/Broker) chooses the packetizer of a bus and
-- calls it, the bus's driver and the receiving interface; src/RuntimeCommon has look-ups in
-- generated tables.
--
-- Files. Escaper.antt models src/Escaper/Escaper.c: `init`, `start_decoder`, `decode_packet` (a
-- round of its loop is `step`), `start_encoder`, `encode_packet`. Escaper/Frame.antt says what a
-- frame is; Escaper/Encoder*, Escaper/Decoder*, Escaper/Transmit.antt and Escaper/RoundTrip.antt
-- hold the theorems, with the calls of a driver that reads in pieces in Escaper/Pieces.antt and
-- what a frame of any size is to be taken for in Escaper/Decoder/Taker.antt; Escaper/Session.antt
-- has the steps of an object in use, as a relation, with the invariant in
-- Escaper/Session/Invariant.antt. SpacePacket.antt has the types and constants of
-- src/Packetizer/Packetizer.h, SpacePacket.h, SpacePacketInternal.h and PacketizerInternal.h.
-- Crc16.antt models src/Packetizer/Crc16.c; Crc16/Division.antt compares it with a long division,
-- Crc16/Detection.antt says what the sum tells apart. Packetizer.antt models
-- src/Packetizer/Packetizer.c, a function for each of its functions; Packetizer/Packet.antt has
-- the layout of a packet and the theorem on `packetize`, Packetizer/Verdict.antt what
-- `depacketize` is to decide, Packetizer/Depacketize.antt, Outcome.antt, RoundTrip.antt,
-- Copy.antt, Detection.antt and Forgery.antt the theorems on it. CcsdsPacketizer.antt,
-- ThinPacketizer.antt, PassthroughPacketizer.antt, DeviceProvidedPacketizer.antt and
-- IsoChecksum.antt model the files of these names (CCSDSPacketizer.c for the first) in
-- src/Packetizer, again function by function, with theorems in CcsdsPacketizer/, ThinPacketizer/
-- and IsoChecksum/Fletcher.antt and Checksum.antt. SystemSpec.antt is what the build generates for
-- a system, PacketizerTable.antt the table of packetizers and Broker.antt the rest of
-- src/Broker/Broker.c: `initialize`, `deliver_request`, `receive_packet`,
-- `register_error_callback`; its theorems are in Broker/Delivery.antt, Reception.antt and
-- Outcome.antt; Broker/Carrier.antt is what it relies on of a packetizer, with an instance for
-- each of them in Broker/Carrier/ and the path of a message over any of them in
-- Broker/Carrier/Path.antt, and Broker/Relay.antt puts them together. Broker/Traffic.antt has the
-- calls of a broker in use as steps of a relation, with the invariants in Broker/Traffic/ and
-- Broker/Steady.antt; Broker/AnyPacket.antt is about any received bytes, Broker/Start.antt and
-- Broker/Start/Bus.antt about `initialize`, Broker/Restart.antt about what is sent after it,
-- Broker/Typed.antt and Broker/Typed/ about the bytes of what it sends. Broker/Callback.antt has
-- `receive_packet` as the callback of a decoder, and Broker/SerialLink.antt joins broker and
-- escaper, over a byte stream. DriverHelper.antt and RoutingHelper.antt model src/RuntimeCommon,
-- with theorems in DriverHelper/Remote.antt and RoutingHelper/Search.antt and Unique.antt;
-- RuntimeMocks.antt is src/RuntimeMocks. Memory.antt and Words.antt have buffers, outcomes and
-- fixed-width integers; Common.antt the shared names.
--
-- The broker. Its static variables are the record `Broker`, and what it makes others do (the lock,
-- the driver, the interfaces, the error callback) is a list of `Effect`s in order. A function
-- pointer is a number, NULL is 0. A receiver of a pointer and a length is taken to read all of it.
-- What the preprocessor chooses by the target and the BROKER_* macros are fields of `System`.
--
-- Conventions. A function that updates `*self` or a buffer returns the new value. A buffer knows
-- its size, and an access outside is the outcome `faulted`; a failed assertion is `aborted`
-- (assertions are taken as enabled, and pointers as not NULL, but for `errorCode`, whose NULL is
-- modelled). Out parameters of a depacketizer are the record `Outputs`, passed in and out.
-- Integers are natural numbers with the casts of the source written out; the width of `size_t` is
-- the parameter `size_mod` of the packetizer, and sums of sizes wrap there. Indices and counters
-- of the escaper do not wrap in the model, since they stay below the sizes of buffers.
--
-- Fuel. The `while` loop of `encode_packet` has fuel for two rounds for each byte and one more; a
-- sending loop has fuel for one call for each byte of the frame, and one more. The loop of
-- `fletcher16` has fuel for a round for each byte. `out_of_fuel` is an outcome of its own, which
-- the theorems exclude.
--
-- Not modelled: the callbacks and tables that the runtime supplies, which are parameters or traces
-- of events; the tests and the build files.
mod Common
pub mod Words
pub mod Memory
pub mod Escaper
pub mod SpacePacket
pub mod Crc16
pub mod Packetizer
pub mod SystemSpec
pub mod PacketizerTable
pub mod Broker
pub mod DriverHelper
pub mod RoutingHelper
pub mod RuntimeMocks
pub mod CcsdsPacketizer
pub mod IsoChecksum
pub mod DeviceProvidedPacketizer
pub mod PassthroughPacketizer
pub mod ThinPacketizer
