-- ===== src/Lib.antt =====
-- packetdrill with MPTCP (gtests/net/packetdrill): a tool that runs scripts of system calls and
-- packets against a network stack. The script's packets are built and sent, the stack's packets are
-- sniffed, parsed and compared, and the values of MPTCP options are carried from one to the other.
--
-- The parts and the files that model them. All paths of the program are below
-- gtests/net/packetdrill.
--   Base         no code of the program: numbers, lists, and Outcome, the result of C code that
--                answers a value, answers an error (STATUS_ERR), or does what C leaves undefined or
--                an assert forbids (`fault`).
--   Memory       byte buffers: a pointer is an index, and a read outside is a fault.
--   Queue        queue/queue.c and queue.h: queue_t and queue_t_val, in which the parser of scripts
--                puts the names and values that the MPTCP code takes out. A record of the array
--                (a function), the rear index r and the front index f; one function for each of the
--                C functions, under its name. View has the list that a queue stands for, Refine what
--                the operations do on it, Wrap what happens at the end of the array, Front what a
--                removal leaves of a queue that holds an element.
--   TcpOptions   tcp_options.c: a block of options and its growth, with Append on a block built
--                option by option. TcpOptions/Iterator is
--                tcp_options_iterator.c: the lengths of the kinds and MPTCP subtypes, the step
--                from one option to the next, get_tcp_option and get_mptcp_option. Next has what
--                one step keeps, Wire the options as they stand on the wire, Find the search,
--                Unchecked what happens on input that the search does not check.
--   Checksum     checksum.c: the Internet checksum and the checksums of TCP, UDP and ICMPv6 under
--                their pseudo-headers. Sum has the main loop, Fold the folding, Verify the checksum
--                of what carries its own checksum.
--   Packet       packet.c, packet.h and header.h: struct packet with its array of headers.
--                Packet/Parser is packet_parser.c: Layer4 has the parsers of TCP, UDP and ICMP,
--                Layers those of GRE and the dispatch on the protocol, Ip those of IPv4, IPv6, MPLS
--                and Ethernet, and parse_packet. Layout says what a parsed packet is, Layer4Good,
--                LayersGood and IpGood follow the parsers, Total puts them together, and Tunnel is
--                about a tunnel with nothing in it.
--   HashMap      hash_map.c: the map of u32 to u32, the hash function being a parameter. Nodes is
--                about one bucket, Grow about linking nodes, Map has the invariant and the growth,
--                Set and New what the operations do.
--   Mptcp        mptcp.c: the state of the connection under test. Flows has the subflows and
--                Capable the MP_CAPABLE handshake; Match is about finding subflows, Capable/Keys
--                about the single steps of the handshake and Capable/Handshake about all of it. Join
--                has the steps of MP_JOIN, Join/Exchange the kinds of packets, and Join/Handshake is
--                about all of it.
--   Run          run.c, run.h and script.h: events, their times and the loop of run_script. Time is
--                about script time, live time and verify_time, Order about the order of events and Loop
--                about the loop.
--   Script       script.c and script.h: the expressions of a script and the tables of symbols.
--                Unescape has the escape codes of strings, with Written about what is written and
--                Escape about the inverse; Evaluate has the evaluation, with Evaluated about its
--                results; Flags has the names of flags.
--   Socket       socket.h, socket.c and struct tcp of tcp.h: a socket in the script's and in live
--                terms. Seq is about sequence numbers, Store about the list of sockets.
--   RunPacket    run_packet.c: the headers that the runner reads, and the searches for a socket.
--                Sockets has the socket that a packet of the script belongs to, Traffic what
--                the packet does to it, and run_packet_event. Find is about the searches, Isn with
--                its children about the initial sequence number of the remote side, and Handshake,
--                Opening, Passive and PassiveOpen about a connection to a listening socket. Verify
--                has the comparison of headers, with Fields about the fields of TCP and Layers
--                about all headers of a packet.
--                Options has the comparison of options, with Options/Mptcp for those of MPTCP, Found
--                about the search for an option and Same about all options; Options/Verdict has
--                the other checks of a live packet, with Result about their outcome.
--   PacketChecksum  packet_checksum.c: the checksums of a packet. Fill is about one field, Ipv4
--                about a TCP segment in an IPv4 packet.
--   Builder      tcp_packet.c, udp_packet.c and ip_packet.c: new packets. Fields is about the TCP
--                header, and Made about a whole packet.
--   Examples     runs on concrete data.
--
-- How the parts interact. parse_packet uses ipv4_checksum and packet_append_header. The searches for
-- an option start from the TCP header that parse_packet found. The queues hold the names by which the
-- MPTCP code finds the keys, and that code uses the searches for options and the packets. run_script
-- hands each packet of the script to run_packet_event, which finds or makes its socket, maps the
-- packet to live values and injects it after checksum_packet, or waits for the live packet that the
-- kernel sends and compares that with the script's. This is how the program is wired; the models of
-- the parts are not all joined. run_events takes the routines of the events as arguments.
-- run_packet_event works on headers and takes as arguments what the routines on options and payload
-- answer, verify_outbound_live_packet and the injection among them. verify_outbound_live_packet takes
-- map_outbound_live_packet, with what it writes into both packets.
--
-- State is passed explicitly: an operation takes the state and gives the new one back. Integers are
-- natural numbers, with `% 2 ^ w` written out where the source computes in w bits and the value may
-- exceed them. The host is little-endian, as on the platforms of the program. Memory that is
-- freed is not modelled.
--
-- Fuel. The parsers call one another without end in the source; every such call follows an appended
-- header, of which there are at most 6, and six levels are given. The loop over an MPLS stack has
-- one round for each byte of the packet. The loops over options have 41 rounds, since the block has
-- at most 40 bytes. The loops of ip_checksum_fold have three rounds each. The fuel of queue_free is
-- an argument, and the loop of hash_map_pick_bucket_count has 31
-- rounds. The loop of run_script has one round more than there are events. Running out of fuel is
-- `none`, and the theorems below exclude it; where the MPTCP code searches for an option, and where
-- same_tcp_options compares options, it counts as a fault. The times of a script are whole numbers, since C leaves the overflow of an s64 open.
--
-- Not modelled: sctp_crc32c, which is never called; hash.c and hashmap/, copies of third-party code;
-- the system call runner, the packet sockets, the remote mode and the printing of packets, which are
-- input and output for the most part; the grammar and the lexer of scripts; the release of memory;
-- the builders of ICMP packets and of encapsulated packets; of run_packet.c the mapping of SACK blocks
-- and timestamps; of mptcp.c the DSS option and the options about addresses.
pub mod Base
pub mod Memory
pub mod Queue
pub mod TcpOptions
pub mod Checksum
pub mod Packet
pub mod HashMap
pub mod Mptcp
mod Examples
pub mod Run
pub mod Script
pub mod Socket
pub mod RunPacket
pub mod PacketChecksum
pub mod Builder
