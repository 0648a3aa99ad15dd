-- ===== src/Lib.antt =====
-- A verification library of the S-LDM, a server that keeps a map of the vehicles around it.
--
-- The parts of the program and how they interact. AMQP clients receive ETSI messages and give each
-- to the decoder (decoder-module): a GeoNetworking header, a BTP header, and an ASN.1 message. A
-- decoded position that is inside the area of the options (src/areaFilter.cpp) is written into the
-- database (src/LDMmap.cpp), which keeps one entry for each station ID with a history of its points
-- (src/PHpoints.cpp). A timer (src/timers.cpp) wakes the thread that deletes old entries. A turn
-- indicator makes the trigger manager (src/triggerManager.cpp) start a REST client for the vehicle.
-- A JSON server (src/JSONserver.cpp) answers requests for the vehicles in a range, and a REST client
-- (src/ManeuveringServiceRESTclient.cpp) sends the vehicles round the one that triggered it. A second
-- periodic thread gives all entries to the visualizer (vehicle-visualizer), which sends them to the
-- web page that draws the map; the thread that deletes entries takes them off that map. What an
-- AMQP client is sent is filtered by the quadkeys of the area (src/QuadKeyTS.cpp). The options are
-- read from the command line (options).
--
-- The files and the code they model:
--   * Ldm.antt, Ldm/Scan.antt: src/LDMmap.cpp and include/LDMmap.h; Vehicle.antt:
--     include/vehicleDataDef.h. A database is the record LdmMap, with the fields of the class and a
--     heap of histories. An unordered_map is an association list (Dict.antt), whose order stands for
--     the order of iteration. `insert`, `remove`, `lookup`, `rangeSelect`, `deleteOlderThan`,
--     `deleteOlderThanAndExecute`, `clear` and `executeOnAllContents` have the names insert, remove,
--     lookup, range_select, delete_older_than and so on. The history of a vehicle is the interface
--     History. Ldm/Invariant.antt holds the invariant of the database; Ldm/Write, Ldm/Insert,
--     Ldm/Remove and Ldm/Aging hold the proofs. Ldm/Contents.antt and
--     Ldm/Listing.antt see the database as the list of its entries.
--   * Decoder/Bytes.antt, Decoder/Headers.antt, Decoder/GeoNet.antt: decoder-module/src/basicHeader.cpp,
--     commonHeader.cpp, shbHeader.cpp, gbcHeader.cpp and geonet.cpp. A pointer into a packet is the
--     list of the bytes from there on, and a read past its end is `none`. Decoder/GeoNet/Wire.antt
--     describes the bytes of a packet independently of the decoder.
--   * Decoder/Btp.antt: btpHeader.cpp and btp.cpp. Decoder/Frontend.antt: etsiDecoderFrontend.cpp.
--     Decoder/Frontend/Success.antt says what a success of `decodeEtsi` means.
--   * OptionString.antt: options/options_strings.c. Numeral.antt: strtol and strtok_r as the
--     options use them, and std::to_string; Numeral/Decimal.antt: the digits it writes.
--     Options.antt, Options/Clients.antt: options/options.h and `options_initialize`.
--     Options/Flags.antt, Options/Parse.antt, Options/Parse/Step.antt, Options/Parse/Finish.antt:
--     `parse_options`, as a loop over the options that getopt_long returns; `exit` is a result.
--     Options/Table.antt: the table of the long options and the labels of the switch.
--     Options/Free.antt: `options_free`, as the list of what it frees.
--   * PathHistory.antt, PathHistory/Iterate.antt: src/PHpoints.cpp, as the memory of the reserved
--     array; PathHistory/Ring.antt and PathHistory/Iterate/Points.antt hold the proofs.
--     PathHistory/Stored.antt makes these arrays the histories of the database.
--   * QuadKey/Tile.antt, QuadKey/Distinct.antt, QuadKey/Unify.antt, QuadKey/Dimension.antt,
--     QuadKey/Filter.antt: src/QuadKeyTS.cpp, from a position to the text of the filter; a quadkey is
--     a list of characters, and `none` is an exception. `LatLonToQuadKeyRange`, `unifyQuadkeys2`,
--     `checkdim` and `getQuadKeyFilter` are lat_lon_to_quadkey_range, unify_quadkeys2, checkdim and
--     get_quadkey_filter, with the cache file as a list of lines. The logarithm and the conversions
--     are the interfaces Projection and Decimal. QuadKey/Keys.antt says which quadkeys a filter
--     covers.
--   * AmqpClient.antt, AmqpClient/Age.antt, AmqpClient/Message.antt, AmqpClient/Connection.antt:
--     src/AMQPclient.cpp and include/AMQPclient.h. `on_message` is on_message, on_decoded, on_cam and
--     store, with the clocks and the decoder's memory as arguments. The message of Qpid Proton and
--     the fields of a decoded CAM are the records ProtonMessage and Cam.
--   * JsonServer.antt, JsonServer/Serve.antt, JsonServer/Thread.antt, JsonServer/Lifecycle.antt:
--     src/JSONserver.cpp. A JSON object is a record of its fields; what the system's calls return is
--     an argument.
--   * RestClient.antt, RestClient/Thread.antt: src/ManeuveringServiceRESTclient.cpp, in the same way,
--     with the outcomes of the requests as a list and the geodesics as the interface Geodesic.
--   * Program.antt: of src/main.cpp the threads of the AMQP clients, `AMQPclient_t` and the loop of
--     `main`, over the ends of their runs, and the filter that they are given. The container that a
--     run has started is destroyed when the run is left, and a call of `stop` on it ends the model.
--     Program/Threads.antt: the thread that deletes old entries, `DBcleaner_callback`, and the one of
--     the visualizer, `VehVizUpdater_callback`, as their sections between two waits.
--   * Visualizer.antt: vehicle-visualizer/src/vehicle-visualizer.cc, as a record of its members with
--     the datagrams that it sent; `none` is a call of `exit`. Visualizer/Order.antt has the states
--     that its calls reach.
--   * System.antt: the running program, as a step relation on what its threads share: a handled
--     message, a round of a periodic thread, the start or end of a thread. System/Shown.antt says
--     which objects the datagrams leave on the map; System/Backed, System/Found, System/Rounds,
--     System/Startup and System/Sound hold the invariant and its preservation, System/Safety,
--     System/Answers and System/Wakeup what follows for every run. A round is one step: the code
--     locks the parts of the database one by one, so that messages may come between them.
--   * Relayer.antt: tester/UDP-AMQP-relayer/src/relayer_main.cpp and camrelayeramqp.cpp, the tool that
--     sends the packets of a simulator to the broker, as a loop over the datagrams received.
--     Relayer/Simulator.antt: what the patch of the simulator puts in front of a packet, `Serialize` of
--     tester/ms-van3t-patch/metadata-header.cc. Relayer/Laws.antt composes the two with the decoder of
--     the receiver.
--   * Utils.antt: src/utils.cpp, with the clock as an argument.
--   * AreaFilter.antt, Timer.antt, TriggerManager.antt: src/areaFilter.cpp, src/timers.cpp,
--     src/triggerManager.cpp. TriggerManager/Reach.antt has the states that sequences of calls reach.
--   * Common.antt and its children: shared names and lemmas. Double.antt: the arithmetic of the
--     machine, a parameter. Samples.antt and Options/Samples.antt: concrete parameters for the Tests
--     modules.
--
-- Bounds. A number of w bits is a natural with its wrap-around written out; an int32_t of a header is
-- its bit pattern. The cardinality is a uint64_t, and an insert at its maximum is refused by the code.
-- The loop that shortens a path history is bounded by its size, which goes down with each round.
-- The loops on fuel: the one that removes equal quadkeys has twice their number and one, since each
-- round goes on or erases; the one of `checkdim` has the characters of the keys and the level of
-- detail and one, since each round takes from one of them; the one over the points of a history has
-- their number and one. The scan of an area and the loop over the clients of the JSON server take
-- their fuel as an argument. The decimal digits of a number have fuel for 20, as many as a number of
-- 64 bits has. Every other loop is over a list. `std::sort` is an insertion sort.
--
-- Not modelled: locks (a step runs alone), the spurious wake-ups of a condition variable, printing,
-- logging but for its effect on the age check, a failing malloc, the ASN.1 decoder and its
-- generated code, Qpid Proton, getopt_long, strtod and sscanf on numbers (parameters), sockets,
-- HTTP and the JSON libraries, `unifyQuadkeys` and `finder`, which nothing calls, the self tests
-- and the joins of the main program, the libraries of the relayer, and the web page.
pub mod Common
pub mod Dict
pub mod Double
pub mod Vehicle
pub mod Samples
pub mod Ldm
pub mod Decoder
pub mod Numeral
pub mod OptionString
pub mod Options
pub mod AreaFilter
pub mod Timer
pub mod TriggerManager
pub mod PathHistory
pub mod QuadKey
pub mod AmqpClient
pub mod Utils
pub mod JsonServer
pub mod RestClient
pub mod Visualizer
pub mod Program
pub mod System
pub mod Relayer
