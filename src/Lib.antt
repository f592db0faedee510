-- ===== src/Lib.antt =====
-- A model of the modem driver: a ROS node that opens TCP and UDP connections and relays data
-- between them and ROS topics.
--
-- The program. `ros_node` (src/ros_node.cpp) offers services to add and remove connections and,
-- for each connection, a topic for received data and a topic or service to send. It owns a
-- `driver` (src/driver.cpp), which keeps three maps from ports to connection objects: TCP
-- connections that wait for their peer, TCP connections that have it, and UDP connections. The
-- objects (src/tcp_connection.cpp, src/udp_connection.cpp) start asynchronous operations on an
-- io_service, which a thread of the driver runs. A completed operation calls a member function of
-- its object; that changes the object's status, which calls back the driver; the driver moves or
-- removes the map entry and calls back the node; and the node adds or removes topics and publishes
-- the list of connections. A `modem_interface` (src/modem_interface.cpp) in another process follows
-- that list.
--
-- The files.
--   Prelude    library names, tests on numbers, lists, a write to a function.
--   StdMap     std::map with uint16_t keys as a sorted list of pairs (Laws, Order).
--   Types      the enumerations (include/driver_modem/protocol.h, include/driver_modem/tcp_role.h),
--              error codes, exceptions, and the answers of the operating system.
--   Modem      the state: `Modem` is class driver with its io_service and the heap of its objects.
--   TcpConnection, UdpConnection
--              the connections' methods and callbacks, one function each, under the source's
--              names. TcpConnection/Closing, TcpConnection/Signals and TcpConnection/Receiving
--              give closed forms and cases.
--   Driver     the driver: removal, remote host, construction; Driver/Callbacks and Driver/Adding
--              hold its callbacks, and adding and sending. Driver/Coherent, Driver/Quiet and
--              Driver/Invariant state the invariant; the other modules say what each operation
--              does and that it keeps the invariant. Driver/Keeping names the elementary changes
--              of the state and Driver/Operations reduces the operations to them, for properties
--              such as Driver/Buffers, Driver/Ports, Driver/Lifecycle and Driver/Attended.
--   EventLoop  run_one: a completed handler is taken out of the queue, at any position, and run.
--              EventLoop/Failures is about receives that end with an error, EventLoop/Turns about
--              the handlers that a turn leaves.
--   Topics     the names of topics and services, and what they tell (Topics/Names).
--   RosNode    the node: topics, callbacks, and in RosNode/Requests the services and the
--              constructor. The other modules relate the node to its driver, request by request
--              (RosNode/Reachable, RosNode/Keeping) and from its constructor on (RosNode/Opening).
--              RosNode/Parameters is the constructor from the parameters on; RosNode/Gaining,
--              RosNode/Configured and RosNode/ComingUp are about the ports that it opens.
--              RosNode/Stream and RosNode/Outgoing are about all data that passes through the node,
--              RosNode/UdpPorts about the ports of its UDP connections, RosNode/Phases and
--              RosNode/Lifecycle about those of its TCP connections, RosNode/Listening about the handlers that connections
--              wait for, RosNode/Bounds about ports and about the arrays that receives give
--              (RosNode/Arrays).
--   ModemInterface
--              the client library (src/modem_interface.cpp): the handles that it opens and shuts
--              as the node's message changes, its queries, rx callbacks, sends, service calls
--              (ModemInterface/Management) and wait_for_connection (ModemInterface/Waiting), and its
--              constructor and destructor (ModemInterface/Lifetime).
--   Link       the node and an interface together: from a call of the interface to a socket
--              (Link/Sending), from a socket to its attached callback (Link/Receiving), and the two
--              side by side with messages that come late (Link/Joint).
--   Program    src/main.cpp with the node's spin and destructor (src/ros_node.cpp). An exception in the
--              driver's thread or in the callback of a message ends the program; roscpp catches
--              those of services.
--   Tests      concrete systems.
--
-- The correspondence. Objects that are shared by shared_ptr are numbers into a heap
-- `ℕ → TcpConnection` or `ℕ → UdpConnection`, so that the maps, the queued handlers and a method
-- that runs share an object as they do in the program; an object that was removed stays on the
-- heap while a handler refers to it. A `Handler` is what shared_from_this and bind put on the
-- io_service. The interface between the driver and the node is the record `Client`: the external
-- callbacks, which read the driver and change only the node, as the node's callbacks do. A method
-- that can throw returns a `Result`; falling off the end of a function is `undefined`. What has
-- left through a socket, and what was asked of ROS, are logs with the newest entry first.
--
-- Parameters. What boost::asio and the operating system answer is an argument of the operation:
-- `Setup` for open, bind and listen, `SendOutcome` for a send, `Completion` for an asynchronous
-- operation, an optional address for the resolver. What ROS does while the client library waits is
-- an `Environment`: by the round, whether ROS is up, the time, and what spinOnce finds. The text
-- of an address is the parameter `to_string`, and `from_string` and `resolve` read one. What ROS
-- has on its parameter server is the record `Parameters`. Three hypotheses on them are named where
-- they are used: `Honours` (a bind gives the port that was asked for, which rules out port 0),
-- `Timely` (closing an acceptor cancels its accept, which rules out an accept that had completed
-- but was not handled when its acceptor was closed), and `Routes` (ROS takes a service call to the
-- node's service of that name). A `Completion` has the error and the bytes, and says whether the
-- socket still has a peer when the handler runs: if not, remote_endpoint throws in
-- tcp_connection::rx_callback. Closing a socket is taken not to throw.
--
-- Bounds. Loops are structural recursions over lists. Fuel is used in `decimal`, five digits,
-- enough for a uint16_t, and in `wait_loop`, where one more than the number of rounds until the
-- clock reaches the deadline is enough. Lengths wrap at 2^32 where the source casts to uint32_t,
-- and port parameters, which are of int, at 2^16.
--
-- Not modelled: the log output, save that it asks for the texts of protocols and roles;
-- wait_for_modem, which is a call of ROS; ros::init; data races, since calls from the thread of ROS
-- and handlers of the io thread are interleaved whole; the time stamp of a packet, which the node
-- does not set.
pub mod Prelude
pub mod StdMap
pub mod Types
pub mod Modem
pub mod TcpConnection
pub mod UdpConnection
pub mod Driver
pub mod EventLoop
pub mod Topics
pub mod RosNode
pub mod ModemInterface
pub mod Link
pub mod Program
pub mod Tests
