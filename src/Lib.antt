-- ===== src/Lib.antt =====
-- Verification of the lidar drivers in urg_node: of the UAM safety lidar, and of the URG lidars.
--
-- The UAM driver talks to the sensor over TCP in frames of hexadecimal text: STX, the size, a command, its
-- data, a checksum and ETX. A `TcpClient` reads a header, asks the packet worker whether it knows the
-- command, reads the rest that the header announces into the buffer of a `ShapeShifterPacket`, and hands
-- the packet on. The packet worker chooses the worker of the reply's type, which checks the size, the
-- checksum and the status, decodes the fields and calls its callback. The steps of a scan come from another
-- kind of reply, lines of text. The URG driver wraps the C library urg_c: `URGCWrapper` starts and stops
-- measurements, makes messages of them, follows the sensor's clock, and sends two of the commands of the
-- safety lidar over the socket of the library. The status aggregator collects the statuses of several
-- sensors. Each lidar has a ROS node, which configures the driver, publishes its scans and its status, and
-- starts over when the sensor fails.
--
--   Prelude   numbers, lists and fallible steps that all parts share
--   Codec     urg_node/include/uam/visitor.h: `Codec.Field.decode_field` and `decode_at` are the two
--             `decodeField`, `get_from_chars` is `getFromChars`; `Codec.Hex` is `toHexString` with the
--             `std::from_chars` of the standard library, `Codec.Bytes` is little endian memory
--   Protocol  urg_node/include/uam/protocol_types/uam_protocol_types.h: a record for each packed struct, the
--             list of its members, and `..._at`, which overlays it on memory; `Protocol.Packet` is
--             urg_node/include/uam/shape_shifter_packet.h and urg_node/include/uam/type_traits.h
--   Worker    urg_node/include/uam/workers and urg_node/src/uam/workers: `Worker.Base` has the checks of the
--             template `WorkerBase` on a record of its arguments, `Worker.Kinds` and `Worker.Raw` the
--             workers, `Worker.Request` the commands, `Worker.Status` the status codes of
--             urg_node/include/uam/uam_error_codes.h, `Worker.Yr` the YR worker
--   Dispatch  urg_node/include/uam/workers/uam_command_worker.h and urg_node/src/uam/workers/uam_command_worker.cpp
--   Tcp       urg_node/include/uam/io/tcp_client.h and urg_node/src/uam/io/tcp_client.cpp: `Tcp.Steps` has
--             the runs, in which reads end in any order and with any bytes that fit
--   Driver    urg_node/include/uam/uam_driver.h and urg_node/src/uam/uam_driver.cpp: commands with their reply, the
--             mode of the subscription, and the request of a safety area;
--             `Driver.Requests` asks for details of the sensor
--   Scan      urg_node/include/uam/scan_params.h: the steps and angles of a scan; `Scan.Pp` is
--             urg_node/include/uam/workers/scip_worker.h, the reply that they come from
--   Aggregator  urg_node/src/uam/uam_status_aggregator_node.cpp: the statuses of several sensors as one
--   Urg       urg_node/src/urg_c_wrapper.cpp: `Urg` itself starts and stops, `Urg.Limits` sets angles,
--             `Urg.Scans` makes messages of measurements, `Urg.Clock` and `Urg.Latency` are about time
--             stamps, `Urg.Command` sends commands over the socket, and `Urg.Detection` decodes DL00
--   Node      urg_node/include/uam/uam_driver_ros.h and urg_node/src/uam/uam_driver_ros.cpp, the node of the UAM
--             lidar: `Node.Scans` is `scanCallback`, `Node.Points` `publishPointsInArea`, `Node.Status`
--             `updateStatus` and the service, `Node.Areas` `readSafetyAreas`, `Node.Resets` and
--             `Node.Configure` how it starts over, `Node.Lifecycle` the timer, the reconfiguration and the
--             runs, and `Node.Params` urg_node/src/uam/uam_driver_ros_params.cpp
--   UrgNode   urg_node/src/urg_node_driver.cpp, the node of the URG lidar: `UrgNode.Scanning` is about the loop
--             over the scans, `UrgNode.Diagnostics` about its report, `UrgNode.Names` about names in it
--   Tests     runs on concrete bytes, with a real checksum, and instances of the results
--
-- A member of type `bool` is the byte it is stored in, a `size_t` wraps around at 2 ^ 64, and a value
-- that is read before it is initialised is a parameter. A read past a buffer is `none`, but for one
-- past the arrays of a measurement, which finds what the platform says: theorems about them ask for
-- their length. Recursion is on lists and on counts, and the loops of `sendCommand` and `setToSCIP2`,
-- which end when the other side lets them, take fuel: a result of `none` is a loop that has not ended,
-- and the body of a reply needs as many rounds as it has bytes and one more. The checksum of Boost is a
-- parameter, of which only its 16 bits are used. So is what the memory of a reply of another type reads
-- as for the request of a safety area. So are the library urg_c, the time types of ROS and the
-- arithmetic of `double` and `float`, in `Urg.Library` and `Prelude.Real`; no law of arithmetic is
-- assumed but where a theorem names it. An `int` is an unbounded integer where it holds steps of the
-- sensor, and so is the limit of errors of the URG node. Their count, an `int` as well, is an unbounded
-- number, which differs from the source only where the limit is the largest `int`: above its limit the
-- sensor is given up.
--
-- A callback of a node gives the node it leaves and the list of what it publishes; a run is a sequence of
-- callbacks in any order. The service of the status waits for at most four half cycles, which is the count
-- that its loop runs on; the loops over names take fuel, for which one more than the length is enough.
--
-- Not modelled: logging, threads and mutexes (a handler runs as one step), the constructors of
-- `URGCWrapper` and its getters of strings, `connect` and `run` of the URG node with the outer loop around
-- them, and the declaration of topics, services and parameters to ROS.
pub mod Prelude
pub mod Codec
pub mod Protocol
pub mod Worker
pub mod Driver
pub mod Scan
pub mod Aggregator
pub mod Tests
pub mod Urg
pub mod Dispatch
pub mod Node
pub mod UrgNode
pub mod Tcp
