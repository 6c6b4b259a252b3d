-- ===== src/Lib.antt =====
-- ProjectTrans transfers files between a Qt client and an epoll server. Its parts talk by messages of
-- named fields, which are sent as frames over TCP streams and handed from thread to thread by queues.
--
-- Modelled, with paths from the root of the repository:
-- Binary: common/include/danejoe/common/binary/byte_order.hpp and byte_array.hpp,
--   common/source/danejoe/common/binary/byte_order.cpp, common/include/danejoe/common/core/memory_util.hpp.
--   The machine is a parameter (`Host`), which says where the lowest byte of a number stands.
-- Codec: common/source/danejoe/network/codec/serialize_header.cpp, serialize_field.cpp,
--   serialize_array_value.cpp and serialize_codec.cpp with their headers, and data_type.cpp.
--   `SerializeHeader`, `SerializeField`, `SerializeArrayValue` and `SerializeCodec` are records; a member
--   function takes the object and returns it. A read outside a vector is an outcome of its own
--   (`out_of_range` of Codec/Parse), as is a refused input.
-- Frame: FrameAssembler of common/source/danejoe/network/codec/frame_assembler.cpp, and the reading
--   half of ConnectContext (common/source/danejoe/network/context/connect_context.cpp). Frames carry
--   the messages of Codec.
-- Concurrent: MpmcBoundedQueue (Mpmc) and SpscRingQueue (Spsc) of
--   common/include/danejoe/concurrent/container. A member function of the first is a sequence of
--   critical sections, and a schedule is any sequence of sections; what a waiting thread has still to do
--   is a call again, so a wake-up is a call that comes later. `pop` of the second is cut where the other
--   thread can run.
-- Condition: EndpointRange (Endpoint), SingleInterval (Interval) and RangeCondition (Range) of
--   common/include/danejoe/condition. The value type is an unsigned integer type; the code compares
--   values only. WildcardText of common/source/danejoe/condition/wildcard_text.cpp (Text), with
--   `std::tolower` as a parameter.
-- MailBox: ReactorMailBox of common/source/danejoe/network/runtime/reactor_mail_box.cpp, on Concurrent.Mpmc.
-- Client: BlockService::add of client/source/service/block_service.cpp (Block),
--   BlockScheduleController of client/source/controller/block_schedule_controller.cpp (Schedule), and
--   TransService of client/source/service/trans_service.cpp (Transfer), whose time-outs and frames are
--   events in any order. The repositories are parameters (`Store`), and what the file system answers
--   during a response is an argument. The loop that adds blocks runs on fuel, one more than the file has
--   bytes, which is enough as every block has a byte; the loop of writes runs along the answers to the
--   writes. Sizes and offsets, which are `int64_t`, are not negative.
-- Session: the writing half of ConnectContext, and PosixSocketHandle::write of
--   common/source/danejoe/network/handle/posix_socket_handle.cpp along the answers of the calls of the
--   system; writable_event (Writable) and readable_event (Readable) of
--   common/source/danejoe/network/event_loop/posix_epoll_event_loop.cpp, which take frames from MailBox and
--   put them there; the loop of the first runs on fuel, one more than there are frames; and with Codec and
--   Frame (Exchange) what one end sends and the other gets. That the bytes that are read are those that went
--   out is what TCP promises, and a hypothesis.
-- Protocol: ClientMessageCodec (client/source/protocol/client_message_codec.cpp, ClientCodec) and
--   ServerMessageCodec (server/source/protocol/server_message_codec.cpp, ServerCodec), on Codec, with the
--   structs of client/include/model/transfer (Transfer), of which the server has equal copies; and
--   BusinessRuntime of server/source/runtime/business_runtime.cpp (Business), which takes frames from
--   MailBox and pushes the answers back. Reactor puts the event loop of Session, MailBox and the runtime
--   together. An `int64_t` is its bit pattern. The file information service, the files and the allocator
--   are a record of functions (`Services`), and the text of a field that does not hold a text is a
--   parameter.
-- Base: tests on numbers, lists, access to vectors.
--
-- Bytes are numbers below 256, and `uint16_t` and `uint32_t` wrap where the code computes in them.
-- `std::size_t` wraps where lengths that a caller sets enter (Condition.Text), and so do the counters of
-- ids of Client.Transfer and Concurrent.Timer; sizes of buffers do not wrap. A write buffer is shorter
-- than 2 ^ 31 bytes, so that its size fits the `int` that ConnectContext::write keeps it in. The loop that
-- pops frames runs on fuel, more than there are pending bytes; every frame has sixteen bytes at least, so
-- the fuel is enough.
--
-- Not modelled: epoll, event handles and the other calls of sockets; the database; logging, diagnostics
-- and conversion to text; URLs; the user interface; the other services of the client and those of the
-- server; maps and dictionaries as values of fields, which are stubs in the code, and arrays of vectors.
-- Memory that the machine cannot allocate is considered only where a request tells the size
-- (Protocol.Business). Of two entries of an `unordered_multimap` with one name the oldest is found; the
-- theorem on lookup asks for a name that occurs once.
pub mod Base
pub mod Binary
pub mod Codec
pub mod Frame
pub mod Concurrent
pub mod Condition
pub mod MailBox
pub mod Client
pub mod Session
pub mod Protocol
