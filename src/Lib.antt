-- ===== src/Lib.antt =====
-- rmw_opendds: the ROS middleware interface (rmw) on OpenDDS.
--
-- The package rmw_opendds_cpp lies between the C functions of rmw and the DDS implementation
-- OpenDDS. This library models the parts that hold its own logic. Paths are from the repository's
-- root; those that begin with src/ or include/ are in rmw_opendds_cpp/ there.
--
-- Names (rmw_opendds_cpp/src/namespace_prefix.cpp, src/demangle.cpp, src/DDSTopic.cpp,
-- src/Service.cpp): Names.Prefix, Names.Mangle and Names.Demangle. A `std::string` is a list of
-- bytes, and its methods are in Text; a call that throws `std::out_of_range` or reads outside a
-- string is an Outcome of Prelude.Calls. `plain_name` and the other functions keep the names of the
-- source without the leading underscore.
--
-- The discovered graph (include/rmw_opendds_cpp/topic_cache.hpp, include/rmw_opendds_cpp/types.hpp,
-- src/types/*.cpp): TopicCache holds the two maps of the class and its operations; Listener holds
-- the listeners that fill a cache from samples, and Listener.Queries the queries that read it. The
-- containers of the standard library are in Containers: a `std::map` is a sorted list of entries, a
-- `std::set` and a `std::multiset` a sorted list, over the order of keys in Order. The order of
-- GUIDs is that of OpenDDS, so it is a parameter. A method runs alone, as it does under `mutex_`.
--
-- Quality of service (include/rmw_opendds_cpp/qos.hpp, src/qos.cpp): Qos. Integers of 32 bits are
-- their bit patterns below 2^32. The defaults of DDS are arguments, and so is whether assertions
-- are compiled in.
--
-- Events (src/event_converter.cpp, src/event.cpp, `get_status` of src/DDSPublisher.cpp and
-- src/DDSSubscriber.cpp): Events, Events.Status and Events.Take; Events.Calls is src/rmw_event.cpp.
-- What DDS answers is an argument.
--
-- Waiting (include/rmw_opendds_cpp/wait.hpp, src/wait.cpp, src/condition_error.cpp): Wait. The wait
-- set of DDS is the interface record Dds of WaitSets, whose operations act on a world `W`;
-- Wait.Cleaning says which laws of it are used.
--
-- Messages (src/rmw_take.cpp, src/rmw_publish.cpp): Messages. What the typed reader and the writer
-- of DDS answer, and the type support's functions, are arguments. Messages.Calls is their entry
-- points, Messages.RoundTrip a message from one to the other. Serialization is
-- src/rmw_serialize.cpp with src/type_support_common.hpp. Gids (src/rmw_compare_gid_equals.cpp)
-- compares the gids of publishers, and Identifier (src/identifier.cpp) the identifiers of
-- implementations.
--
-- The node (src/OpenDDSNode.cpp): Node, Node.Copy, Node.Keys, Node.Graph and Node.Participants;
-- NodeHandles is the handle of rmw. What a participant of DDS and the functions of rcutils answer
-- are the interface records Participant and Memory.
--
-- Endpoint information (src/topic_endpoint_info.cpp): Endpoints, with the functions of rmw on infos
-- as the interface record InfoCalls.
--
-- Allocation (include/rmw_opendds_cpp/RmwAllocateFree.hpp): Heap is a ledger of the addresses that
-- are allocated, with the state of everything else as its `world`. On it stand the context of the
-- middleware (src/init.cpp, src/rmw_init.cpp) in Init, the pattern by which rmw's handles are
-- created and cleaned in Handles, and publishers and subscriptions (src/rmw_publisher.cpp,
-- src/rmw_subscription.cpp, the constructors of src/DDSPublisher.cpp, src/DDSSubscriber.cpp and
-- src/DDSTopic.cpp) in Entities, whose record Dds is the interface of DDS and whose record Casts is
-- that of the unchecked dynamic_cast of a writer or a reader; Entities.Miscasts tells what a null
-- cast changes; Entities.Matches is their counts of matches. A client of Handles fills its record
-- IsTidy, as Entities.Tidy does.
--
-- Structs is the pattern by which rmw's other structs are created and cleaned: GuardConditions
-- (src/DDSGuardCondition.cpp, src/rmw_guard_condition.cpp) and nodes. Participants is the
-- constructor and the cleanup of OpenDDSNode (src/OpenDDSNode.cpp) with the records Factory and
-- Registry as the interface of OpenDDS, Participants.Transport the names of its transports, and
-- Participants.Calls the entry points of src/rmw_node.cpp that create and destroy nodes;
-- Participants.Queries those that pass a query on to the node. Participants.UserData is the text by
-- which a participant tells its names, whose length is a size_t that is converted to an int and a
-- CORBA::Long. Participants.Ledger states the laws by which OpenDDS keeps its participants. The
-- object behind context_ is an argument of RmwAllocateFree::create, which takes it by value: it is
-- there while the constructor runs and gone afterwards, so that the destructor and get_names are
-- undefined where they read it. WaitSets.Storage is the memory of a wait set (src/wait_set.cpp),
-- where a pointer that was never written is a value of its own.
--
-- Services (src/Service.cpp, src/DDSClient.cpp, src/DDSServer.cpp, src/rmw_client.cpp,
-- src/rmw_server.cpp): Services is the constructor of Service, Services.Sides what clients and
-- servers share, Services.Calls, Services.Servers and Services.Exchange the entry points;
-- Services.Clients follows a client from its constructors to its end. The callbacks of the
-- generated type support are a parameter, with the record Half for the requesters and another for
-- the repliers: these are made and destroyed with rmw_allocate and rmw_free, on the heap. FreesAll
-- says that the allocations of one are freed with it; what DDS answers of a reader or a writer is
-- Ends.
--
-- All loops are structural recursion on the sequence that the code walks, so that no fuel is
-- needed, but for the digits of a number in Participants.Transport, whose n + 1 steps are enough
-- for n.
--
-- Not modelled: messages to the log, the security configuration of a participant, which nothing
-- calls, serialization by the generated type support, and everything inside OpenDDS.
pub mod Prelude
pub mod Text
pub mod Order
pub mod Containers
pub mod Identifier
pub mod Ret
pub mod Names
pub mod TopicCache
pub mod Listener
pub mod Node
pub mod Qos
pub mod Events
pub mod WaitSets
pub mod Wait
pub mod Messages
pub mod Gids
pub mod NodeHandles
pub mod Endpoints
pub mod Heap
pub mod Init
pub mod Handles
pub mod Entities
pub mod Services
pub mod Structs
pub mod GuardConditions
pub mod Participants
pub mod Serialization
pub mod Tests
