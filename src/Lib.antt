-- ===== src/Lib.antt =====
-- A model of the core of async-mqtt5, an MQTT 5 client library for Boost.Asio.
--
-- The program. A client (mqtt_client.hpp) owns a client_service. Operations such as
-- publish_send_op take a packet identifier from the packet_id_allocator, check topics and strings,
-- encode a control packet, and hand it to the async_sender with a completion handler. The sender
-- keeps a queue of requests and at most one write on the stream; under a Receive Maximum of the
-- broker it holds throttled requests back. After a write an operation waits for its reply in the
-- replies, which the reading side dispatches. When the connection was made again, the sender
-- completes all that waits with try_again, and the operations send again in the old order.
--
-- The files, with paths from the root of the repository:
--   Base: Boolean tests, lists over the native numbers, names of the library.
--   PacketId: packet_id_allocator of include/boost/mqtt5/detail/control_packet.hpp. The vector of
--     intervals is a list, `free` is `release`. PacketId/Invariant, Allocate, Release, Canonical
--     state the vector's invariant and its meaning; PacketId/Clients adds the clients that hold
--     identifiers, as a step relation.
--   Utf8: include/boost/mqtt5/detail/utf8_mqtt.hpp. Bytes are numbers; `-1` of pop_front_unichar is
--     `none`. Utf8/Encoding has an independent encoder of code points, Utf8/Walk the loop over it.
--   Topic: include/boost/mqtt5/detail/topic_validation.hpp. Topic/Levels says without the code what
--     a filter is; Topic/Scan and Topic/Endings lie between the two.
--   Codec/Varint: to_variable_bytes and variable_length of
--     include/boost/mqtt5/impl/codecs/base_encoders.hpp, varint_parser of base_decoders.hpp.
--   Codec/Encoder and Codec/PropEncoder: the encoder classes of base_encoders.hpp; an encoder is the
--     record of its two methods byte_size and encode.
--   Codec/Property: include/boost/mqtt5/property_types.hpp and the property lists of
--     include/boost/mqtt5/types.hpp. A value of the class `properties` is the list of its properties
--     in the order of the declaration.
--   Codec/Decoder, Codec/PropDecoder, Codec/MessageDecoders: base_decoders.hpp, apply_on of
--     property_types.hpp, and message_decoders.hpp. Codec/Entries says what a property list is on the
--     wire; Codec/ValueRoundTrip, PropRoundTrip, MessageRoundTrip and ReplyRoundTrip read back what
--     the encoders write.
--   Codec/Messages: include/boost/mqtt5/impl/codecs/message_encoders.hpp.
--   Codec/Cursor and Codec/Library: the iterators of the parsers, and Boost.Spirit X3 and
--     Boost.Endian, which are not part of the repository, as a record of functions with their
--     documented behaviour. Tests/Library is an instance of it.
--   ControlPacket: the class control_packet of include/boost/mqtt5/detail/control_packet.hpp.
--   Endpoints: the rotation over the brokers in include/boost/mqtt5/impl/endpoints.hpp.
--   Mutex: include/boost/mqtt5/detail/async_mutex.hpp. `lock` is execute_or_queue, `cancel_waiting`
--     the signal of cancel_waiting_op; Mutex/Exclusion adds those that hold the lock.
--   Replies: include/boost/mqtt5/impl/replies.hpp. Completions are returned in order.
--   Sender: include/boost/mqtt5/impl/async_sender.hpp, with cancel and update_session_state of
--     include/boost/mqtt5/impl/client_service.hpp. Sender/Request is the class write_req. What the
--     operation behind a handler does at once when it is completed is an argument.
--   ReasonCodes: include/boost/mqtt5/reason_codes.hpp. Errors: the codes of
--     include/boost/mqtt5/error.hpp.
--   Operation: the calls that operations make, as a list of effects, and what they read of
--     client_service.
--   PublishSend: include/boost/mqtt5/impl/publish_send_op.hpp, one function for each operator(), and
--     `run` for a sequence of answers. PublishSend/Protocol is its contract, a step relation on the
--     phases of an exchange; PublishSend/Ledger counts along it. PublishSend/Validate is its
--     validation, PublishSend/Texts what that says of the characters.
--   Subscribe: include/boost/mqtt5/impl/subscribe_op.hpp and unsubscribe_op.hpp, which differ in the
--     record Kind and in their validation.
--   PublishReceive: include/boost/mqtt5/impl/publish_rec_op.hpp, in the same way.
--   Assemble: include/boost/mqtt5/impl/assemble_op.hpp on the bytes that were received, and the kinds of
--     packets that its dispatch tells apart. Assemble/Loop is its loop over the reads of a connection, with
--     fuel for as many packets as there are bytes, and a state of its own behind a reply that is too
--     short for a packet identifier, where the code reads behind the packet; Assemble/Prefix compares
--     a read with a longer one.
--   Context: the credentials, the session state and the context of a connection in
--     include/boost/mqtt5/detail/internal_types.hpp.
--   Connect: include/boost/mqtt5/impl/connect_op.hpp, one function for each operator(), and `run` for a
--     sequence of answers. Connect/Protocol is what an attempt may do on the wire, a step relation on
--     its phases, in which each call stands with the answer to the handler that makes it;
--     Connect/Handlers, Connect/Reading and Connect/Bodies go through the handlers, Connect/Attempt
--     through a run; Connect/Buffer is about the buffer.
--   Reconnect: include/boost/mqtt5/impl/reconnect_op.hpp with the layers of
--     include/boost/mqtt5/impl/autoconnect_stream.hpp. Reconnect/Lock is its protocol around the lock,
--     Reconnect/Layers and Reconnect/Rounds follow the layers and the endpoints.
--   Stream: include/boost/mqtt5/impl/read_op.hpp and write_op.hpp, a handler for each operator().
--   Disconnect: include/boost/mqtt5/impl/disconnect_op.hpp. Disconnect/Limits is about the size of its
--     packets, Disconnect/Ending about the last one.
--   Background: ping_op.hpp and sentry_op.hpp (Timers), re_auth_op.hpp (ReAuth) and
--     read_message_op.hpp (ReadMessage) of include/boost/mqtt5/impl.
--   Tests: the theorems at concrete inputs, and runs of the definitions.
--
-- Bounds and fuel. uint16_t and uint32_t keep their wrap written out as `%`. A byte of a string is
-- taken as unsigned; the code masks it wherever its top bit is set. An int32_t of the encoders is
-- the number modulo 2 ^ 32, with the negative ones from 2 ^ 31 on. The loops of validate_impl and
-- validate_topic_filter have the length of the string as fuel, since every round takes a byte off
-- or ends the loop; `none` stands for fuel run out. The loops of to_variable_bytes and
-- variable_length have fuel for four bytes, which is enough behind their test against 0xfffffff; the
-- loop of varint_parser goes along the bytes.
-- std::upper_bound is the first interval that passes the test, which is what it returns on a vector
-- in the order of the invariant; std::stable_sort is a stable insertion sort.
--
-- The loop of prop_parser and the repetition `+p` have the length of the range as fuel, since each
-- round takes a byte or ends. `fault` of a decoder stands for an iterator that leaves the range that
-- it was given; an operation that meets it, or the end of a table of reason codes, is in the stage
-- `unknown`, of which nothing is said.
--
-- Not modelled: the streams of Boost, its timers and executors, and the authenticator of the
-- application, whose answers are arguments; the channel of received messages; terminal_disconnect_op
-- and run_op, which start operations side by side, and shutdown_op; the parser of the list of brokers;
-- the functions by which an application configures a client; the texts of reason codes, errors and
-- DISCONNECT packets; logging, but for the CONNACK packet, and the transports.
-- A handler that waits for a PUBREL
-- is completed by clear_pending_pubrels while the code walks the vector; the model completes it
-- after the walk, which is the same as long as such a handler does not touch the vector before it
-- returns, as the one of publish_rec_op.
mod Base
pub mod PacketId
pub mod Utf8
pub mod Topic
pub mod Codec
pub mod ControlPacket
pub mod Endpoints
pub mod Mutex
pub mod ReasonCodes
pub mod Replies
pub mod Errors
pub mod Context
pub mod Operation
pub mod PublishSend
pub mod Subscribe
pub mod PublishReceive
pub mod Assemble
pub mod Connect
pub mod Reconnect
pub mod Stream
pub mod Disconnect
pub mod Background
pub mod Sender
mod Tests
