-- ===== src/Lib.antt =====
-- The broker of this repository: an MQTT broker in which the threads of broker/event_io.c cut the bytes
-- of a connection into packets, broker/mqtt.c parses and writes packets, broker/hand_mqtt.c answers them,
-- and broker/substree.c keeps the subscriptions in a tree that publishing searches. broker/broker.c holds
-- the table of clients that these parts share.
--
-- Base: the names that all files share. Base/Memory is what malloc answers, as a list of answers that is
-- an argument of every function that allocates; Base/Strings the C strings as bytes before the NUL;
-- Base/Words the machine words with their wrap-around; Base/Bits masks as arithmetic.
--
-- Substree: broker/substree.c. Substree/Tokens is _sub_topic_tokenise, Substree/Add is _sub_add and
-- mqtt3_sub_add, Substree/Search is _subs_process, _sub_search and mqtt3_sub_tree_process, and Substree/Tree
-- has their nodes and leaves. Add and Search share only the tree; Substree/Deliver puts them together. The
-- callback of the search is a parameter, with any state, and so is the test on is_subscribe. The lock
-- root_lock is released, held by the thread of the model, or held by another one; branch_lock is held round
-- one assignment and is left out, as are the blocks that are freed, which nothing reads again.
--
-- Utility: pub_topic_valid and sub_topic_valid of broker/utility.c.
--
-- Mqtt: broker/mqtt.c and broker/mqtt.h. Mqtt/Parser is mqtt_parser_execute, one function for each case of
-- its switch; Mqtt/Command is mqtt_parser_command; Mqtt/Serialiser is mqtt_serialiser_size and
-- mqtt_serialiser_write. A buffer is its length and the memory behind its pointer; a read outside of it is
-- an outcome of its own. The size is counted without wrap-around: the lengths are 32 bits wide and the sum
-- of six of them fits a size_t. The remaining length is written by recursion on accessibility. The loop of
-- the parser has fuel: every state has a rank of at most 11, each round lowers it, and so 11 rounds are
-- enough, except in the state variable_header, which nothing in the broker sets.
--
-- EventIo: loop_read of broker/event_io.c, in the build without mTCP, on the fields of struct client that
-- it uses. recv is a parameter with any state, of which the theorems ask that it answers at most as many
-- bytes as it was asked for; what handle_mqtt_command does is a parameter too. The loop on the length has
-- 5 rounds, since the fifth byte is an error, and the loop on the payload a round for each byte that is
-- missing. EventIo/Framing has what holds between two calls, EventIo/Framed and EventIo/Resumed that it is
-- kept.
--
-- EventIo/Send is the sending of packets in loop_run of the same file, for one client. send is a parameter
-- with any state; its result is a uint32_t there, as in the code. The loop on one packet has fuel, and as
-- many rounds as the packet has bytes are enough when each call sends one.
--
-- Broker: the structs packet, client and broker of broker/broker.h and broker/client.h, and clean_context,
-- remove_client and add_client of broker/broker.c. The table is a function from the number of a socket. The
-- queue of a client is the list of its packets; Broker/Queue has it as the code does, linked on a heap.
--
-- HandMqtt: broker/hand_mqtt.c, the case of each packet in handle_mqtt_command with the tree of Substree
-- and the messages of Mqtt. HandMqtt/Publish says what a PUBLISH leaves in every queue, HandMqtt/EndToEnd
-- puts SUBSCRIBE and PUBLISH together, HandMqtt/Sent follows a message to the connection of its
-- subscriber, HandMqtt/Kept carries the invariants of a client through every packet, and HandMqtt/Refusals
-- is about a CONNECT that is refused.
--
-- Server: one thread, loop_run of broker/event_io.c with accept_connection, loop_read and
-- handle_mqtt_command, and init_database of broker/broker.c. The system and the hash table of uthash.h are
-- the interfaces System and Table; the events that epoll_wait gives are a list for each turn, with what
-- malloc answers meanwhile. Server/Kept carries the invariants of the parts (EventIo/Resumed,
-- EventIo/Send/Counted, HandMqtt/Kept) through the turns.
--
-- Sockets: the functions of broker/event_io.c that make, watch and close sockets, with the calls of the system
-- as the interface Kernel, which gives Server its System. Sockets/Opened follows the open descriptors.
--
-- Startup: run, run_worker, start_server and main of broker/broker.c. What main and run_worker call of the
-- system is a type Call, whose meaning is a parameter, so that Startup/Exits can follow the calls,
-- and Startup/Failed how the process exits when a thread cannot be created. A run of main is one in which
-- every call comes back: pthread_join does not come back of a thread that is in its loop.
--
-- Threads: the threads that publish to one client and the one that sends to it, as steps in any order.
-- broker/hand_mqtt.c, 49-57, takes three steps (the lock, the link, the counter), and broker/event_io.c,
-- 282-354, one for each turn of its loops; clean_context and add_client of broker/broker.c come between,
-- since they take no lock. Threads/Kept is about the counter, Threads/Order about the packets, and
-- Threads/Waiting about a packet whose rest waits.
--
-- Tools: tools/epsub.c and tools/eppub.c, which share most lines. Tools/Load is main up to the start of
-- the threads, with the number that each client gets; Tools/Measure the callbacks, CreateConnection,
-- CloseConnection and PrintStats of epsub; Tools/Polling the events of a connection in its RunMain, and
-- Tools/Thread the loop around them; Tools/Report the last statistics of its main; Tools/Publisher the
-- times that eppub puts into its messages, and Tools/Publishing the events of a connection in its RunMain.
-- The library mosquitto, the clock, epoll, atoi and sprintf are parameters, or come with each turn of a
-- loop.
--
-- Not modelled: the builds with mTCP; the loop of RunMain in eppub but for its events; printing and
-- logging; getsockop.c and tools/util, which are calls of the system; uthash.h and mosquitto.h, which are
-- copies of other projects. The threads are interleaved at the queue of a client only (Threads); elsewhere
-- a thread runs alone on the broker.
pub mod Base
pub mod Substree
pub mod Utility
pub mod Mqtt
pub mod EventIo
pub mod Broker
pub mod HandMqtt
pub mod Server
pub mod Sockets
pub mod Startup
pub mod Threads
pub mod Tools
