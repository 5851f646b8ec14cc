-- ===== src/Codec.antt =====
-- include/boost/mqtt5/impl/codecs: the encoders and the decoders of the wire format.
pub mod Cursor
pub mod Library
pub mod Varint
pub mod VarintLaws
pub mod Encoder
pub mod Property
pub mod PropEncoder
pub mod Decoder
pub mod PropDecoder
pub mod Entries
pub mod ValueRoundTrip
pub mod PropRoundTrip
pub mod MessageDecoders
pub mod MessageRoundTrip
pub mod ReplyRoundTrip
pub mod Messages
pub mod Frame
pub mod Packets
