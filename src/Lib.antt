-- ===== src/Lib.antt =====
-- dnsmeter sends DNS queries to a name server at given rates and counts the answers. This library models
-- the program's own logic, from the files of src/, and proves what its parts promise.
--
-- The parts and their modules:
--
-- Query (src/query.cpp): the compilation of a line to a DNS query (MakeQuery), the EDNS0 record of a DNSSEC
-- query (AddDnssecToQuery), and the time stamps in the ID of a query (getQueryTimestamp, getQueryRTT).
-- PayloadFile (src/payload_file.cpp): the queries of a text or of a capture, compiled by MakeQuery, and the
-- iterator getQuery. Packet (src/packet.cpp) with Checksum: the IP and UDP packet in its buffer, as a
-- function from addresses to bytes that goes on behind the buffer, so that a write past its end shows.
-- RawSocketSender (src/raw_socket_sender.cpp): the destination, and send. DnsSenderThread
-- (src/dns_sender_thread.cpp): sendPacket takes a query of the payload file, puts it in the packet with the
-- time stamp as its ID and hands it to the socket; DnsSenderThread.Loops has the loops around it, as the
-- numbers of packets of their rounds, and DnsSenderThread.Sending the same loops with the packets that they
-- send, up to run. DnsSenderThread.Run says that the two agree, and DnsSenderThread.Whole what a run has
-- counted. Senders has the threads of a session at the same time: each is at a point of its run, a schedule
-- says whose turn it is, and a turn goes up to the next call of getQuery, which is one step under its
-- mutex, or to the next reading of a clock. Senders.Session and Senders.Load say what holds of any
-- schedule. RawSocketReceiver (src/raw_socket_receiver.cpp) and DnsReceiverThread
-- (src/dns_receiver_thread.cpp): the filter of the answers and their counters. RawSocketReceiver.Program is
-- the packet filter program of FreeBSD, and RawSocketReceiver.Buffers its receive. System has the blocks of
-- memory and the descriptors that the sockets hold, and RawSocketSender.Resources and
-- RawSocketReceiver.Resources the constructors and destructors on it. DnsSender (src/dns_sender.cpp): the
-- threads that prepareThreads makes, the rates, their share for each thread, and the results over threads
-- and receiver; DnsSender.Params is the command line, DnsSender.Report what is shown and written, and
-- DnsSender.Main the function main with its loop over the rates. SystemStat (src/system_stat.cpp): the
-- counters of the interfaces; SystemStat.Lines reads them, and SystemStat.Arrays has the export to an array
-- and the import, and SystemStat.Samplers the other samplers. Exceptions (src/exceptions.h) has the
-- exceptions and the results of code that may throw, Pplib the parameters for pplib and the resolver, Base
-- the helpers that the modules share.
--
-- Names are the source's in this library's spelling: setTimeslice is set_timeslice. An object's state is a
-- record that each method takes and returns, a caught or thrown exception is a value of Result, and
-- undefined behaviour or an input list that has run out is none.
--
-- What comes from outside: the resolver and the strings of pplib are parameters. Random numbers, readings
-- of the clock, requests to stop, frames and the answers of the kernel are arguments or lists, one entry
-- for each round. Where a list takes the place of time, a theorem that a loop ends says which entries it
-- needs. range_loop and unlimited_loop run on fuel, a unit for each round; range_loop-progression and
-- unlimited_loop-rounds say how much is enough.
--
-- Numbers: the fields of packets and the network's words are unsigned words with their wrap-around, on a
-- little-endian host. The counters of queries, which would take centuries to wrap, are natural numbers,
-- with the bound as a hypothesis where it matters. The time slice of calcTimeslice is computed in single
-- precision and the number of time slices of a run in double precision, with the rounding of IEEE 754, from
-- Base.Floats; 0 time slices, by which a message of runWithRateLimit divides, are none. In Senders, which
-- leaves the messages out, a thread without time slices goes on to waitForTimeout. Other times that the
-- source keeps as floating point numbers are exact: a round trip time is a number of units of 1/10000 s,
-- and the start of a time slice and a reading of the clock are whole nanoseconds. The kernel's and the
-- allocator's refusals in the constructors of sender threads are an argument of prepare_threads. Not
-- modelled are negative rates, runtimes, timeouts and numbers of threads behind the command line, where
-- they are integers.
--
-- Not modelled: the text of the output and the help, the opening of files, the samplers of FreeBSD for
-- processors and memory, the system calls that only copy their results, and the thread of main beside the
-- others: what the threads have counted at each moment that it looks at them is an argument.
pub mod Base
pub mod Exceptions
pub mod System
pub mod Checksum
pub mod Pplib
pub mod Query
pub mod Packet
pub mod PayloadFile
pub mod RawSocketSender
pub mod RawSocketReceiver
pub mod DnsReceiverThread
pub mod DnsSender
pub mod Senders
pub mod SystemStat
pub mod DnsSenderThread
