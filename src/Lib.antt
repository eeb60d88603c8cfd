-- ===== src/Lib.antt =====
-- Chops net_ip: a C++ library for asynchronous TCP and UDP networking, header files only, written over
-- the networking technical specification (`std::experimental::net`).
--
-- The program. `net_ip` (include/net_ip/net_ip.hpp) creates net entities: TCP acceptors, TCP connectors
-- and UDP entities. A started entity creates io handlers (`tcp_io`; a UDP entity is its own), announces
-- them through the application's io state change callback, and is notified by them of every error.
-- An io handler reads messages for the application's message handler and writes what is sent to it,
-- one buffer after the other.
--
-- The files, and the code that they model:
--   NetIpError         include/net_ip/net_ip_error.hpp
--   OutputQueue        include/net_ip/detail/output_queue.hpp, include/net_ip/queue_stats.hpp
--   IoCommon           include/net_ip/detail/io_common.hpp
--   MsgFrame           include/net_ip/component/simple_variable_len_msg_frame.hpp, null_msg_frame
--   TcpIo              include/net_ip/detail/tcp_io.hpp; Exchange: two of them at the ends of a connection
--   NetEntityCommon    include/net_ip/detail/net_entity_common.hpp
--   TcpAcceptor        include/net_ip/detail/tcp_acceptor.hpp
--   TcpConnector       include/net_ip/detail/tcp_connector.hpp
--   UdpEntityIo        include/net_ip/detail/udp_entity_io.hpp
--   WeakPtr            the weak and shared pointers of the next ones
--   BasicIoInterface   include/net_ip/basic_io_interface.hpp
--   BasicNetEntity     include/net_ip/basic_net_entity.hpp
--   NetIp              include/net_ip/net_ip.hpp
--   SendToAll          include/net_ip/component/send_to_all.hpp; Following and Reaching: as the io
--                      state change function of an acceptor; Unordered: in another
--                      order
--   IoInterfaceDelivery
--                      include/net_ip/component/io_interface_delivery.hpp
--   IoStateChange      include/net_ip/component/io_state_change.hpp
--   EndpointsResolver  include/net_ip/endpoints_resolver.hpp
--   ErrorDelivery      include/net_ip/component/error_delivery.hpp
--   WaitQueue          the wait queue of the queue repository, as ErrorDelivery uses it
--   Worker             include/net_ip/component/worker.hpp
--   VarLenMsg          example/var_len_msg/var_len_hdr.hpp
--   Prelude            shared names; Prelude/Std: the atomic flag and the byte vector of the C++ library
-- A class is a record of its data members under their names without `m_`. A method is a function that
-- returns its result, the new record and, where it has any, the calls that it makes of the socket and
-- of its net entity, in their order. An asynchronous operation is such a call; its completion handler
-- is a method of its own, and the histories say when it runs. What a method posts to the executor is
-- the function of the method, as it runs there.
--
-- The io handlers of an acceptor or a connector are objects on a heap, named by their addresses; what a
-- handler notifies is handled where it is called. The net entities keep the calls that they made in a
-- field `calls`. A history (`run`) is a list of events: a call of the application, a call of a method
-- of an io handler, or the completion of an operation with any outcome.
--
-- The io interfaces and net entity objects are weak pointers: addresses on a heap of objects, which can
-- be gone. They use io handlers and net entities through the records IoHandler, Sender and NetEntity,
-- which Handlers and Entities fill. A method that throws a net_ip_exception returns its code.
--
-- Parameters. Buffers (`const_shared_buffer` of the utility repository) are a type with a size;
-- endpoints are a type, for UDP with the endpoint that is constructed by default and `==` (Endpoint).
-- `erase_where` of the utility repository is a function that removes all elements equal to a value
-- (EraseWhere). Callbacks are values. What `std::move` leaves of a handler is a function (Movable),
-- and so is `boost::endian::big_to_native` (BigToNative).
-- The resolver of the networking library answers a query with endpoints or an error (Resolver); its
-- `async_read_until` searches for a delimiter (ReadUntil); an `io_context` runs its handlers one by one
-- (IoContext). The wait queue of the queue repository gives its elements in order (WaitQueue), the
-- constructors of a buffer keep its bytes (MakeBuffer), and the milliseconds of a time point are a
-- function (Formats).
-- Message handlers and frames are values with a state, called through the records MsgHdlr and MsgFrame.
--
-- Bounds. The counters of the output queue, the sizes that handle_read adds and the counters of the error
-- sink and of the example wrap at 2^64. Byte vectors can be of any length: an allocation that fails is
-- not modelled. The fuel of TcpIo.Reads.serve bounds the completed reads: two
-- for each message and one for the end, with one more step for the notification. That of
-- TcpIo.UntilReads.serve_until bounds the same reads, one for each message; that of the sink of
-- ErrorDelivery the calls of `wait_and_pop`; that of Worker.join_thread the rounds of the thread.
--
-- Not modelled: what a callback of the application calls while it runs, other than by its result; the
-- threads inside a method (an atomic exchange is one step of the history).
pub mod Prelude
pub mod NetIpError
pub mod OutputQueue
pub mod IoCommon
pub mod MsgFrame
pub mod TcpIo
pub mod NetEntityCommon
pub mod TcpAcceptor
pub mod UdpEntityIo
pub mod TcpConnector
pub mod WeakPtr
pub mod BasicIoInterface
pub mod BasicNetEntity
pub mod SendToAll
pub mod EndpointsResolver
pub mod NetIp
pub mod IoInterfaceDelivery
pub mod IoStateChange
pub mod VarLenMsg
pub mod WaitQueue
pub mod ErrorDelivery
pub mod Worker
