-- ===== src/Lib.antt =====
-- WireSend: a chat and file-transfer program of one server and one client over TCP.
--
-- A program runs two threads over one connection. The input loop (StartServer in
-- src/ServerMod.cpp, StartClient in src/ClientMod.cpp) reads lines from the terminal, carries out
-- commands, sends a file that the peer accepted, and sends the line. The receiving thread
-- (RunRecvThread in the same files) reads packets and dispatches on type and control byte. Both use
-- the wire format (src/CommunMod.cpp), the transport (src/api.cpp) and the file handler
-- (src/FileHandler.cpp).
--
-- Common: names of the library, Boolean tests, lists, decimal numerals, the outcomes of a call
-- (a value, std::terminate, undefined behaviour, an endless wait).
-- Wire: headers/Protocol.hpp, headers/FileTypes.hpp, headers/EnumStates.hpp and
-- src/CommunMod.cpp. serialize_packet is SerializePacket, and so on, word by word. Memory has the
-- bytes of integers on hosts of either byte order, and htonl.
-- Net: RecievePacket and SendPacket of src/api.cpp as receive_packet and send_packet, over a
-- record Kernel of the system's calls. IsStream says what recv and send promise on a connected
-- stream socket, IsHealthy that a connection does not fail. Frame is the header and body reading
-- that both threads do.
-- Files: the parts of std::filesystem and of the file streams that are used, on a disk that maps
-- paths to entries.
-- Process: the globals of src/api.cpp, the pending requests, the terminal, the dialogs' answers.
-- Transfer: src/FileHandler.cpp, and UserAction of src/api.cpp. Views has what the sending of a file
-- leaves as it was.
-- Info: the printing functions of src/api.cpp and src/FileHandler.cpp, as the text that they print,
-- and GetLANIPAddr; Info/Lan describes the address that it finds.
-- Commands: src/CmdHandler.cpp. Launch: src/UserHandler.cpp, with the whole of main in Launch/Run.
-- Server, Client: the globals of src/ServerMod.cpp and src/ClientMod.cpp as a record; handle_packet
-- is the body of RunRecvThread behind the reading, recv_thread its loop; Input has the input loop,
-- one function per command and one per step that follows.
-- Setup in both: the constructors, StartServer and StartClient up to the receiving thread, over a
-- record Sockets of the calls that set up a connection (Net/Sockets).
-- Threads: the two threads of one program as a step relation. Its state is the shared state and
-- where each thread stands; a step is one call of a thread (getline with its command, the sending of
-- a file, the sending of the line, the reading of a frame, the handling of a packet) or a change
-- from outside, of the system, the disk, the terminal or the dialogs. Program in Server and Client
-- gives the calls; Run gives StartServer and StartClient from their start to their return.
-- Greeting has the runs of a server, whose receiving thread begins before the greeting; Joining and
-- Tracing have the ways in which an input loop ends, and the steps of a run.
-- Negotiation: what a program knows of the negotiation of files, three flags and the moves between
-- them, with what each kind of step does to the three in Steps and the counts of a run in Runs and
-- Greeted; Talk and Refinement in Server and Client apply that to the two programs, and Invariant
-- there has what holds in every state that the threads reach.
-- Wire/Interface, Api, Commands/Interface, Transfer/Interface, Interface in Server and Client: the
-- headers as records, with what their users rely on for the wire format and the transport.
-- Exchange: both programs, what one sends being what the other's stream holds: offer, acceptance
-- and transfer of a file, and typed lines. Round has a round of an input loop that sends both.
-- Traffic: the threads of both programs, in any order, over a connection that works until its
-- program shuts it (IsReliable in Net/Reliable). Peer says what the calls of a program may do to
-- its connection, and ServerPeer and ClientPeer that those of the two programs do no more:
-- ServerCalls and ClientCalls go through the commands, ServerLines and ClientLines through the
-- lines, Files through src/FileHandler.cpp, and Reading has what a frame takes from a stream of
-- packets. Arriving and Receiving put the steps of a run together, Delivery has two runs,
-- Accepting, ServerCalm and ClientCalm say when a program begins to send a file, Screen,
-- ServerScreen and ClientScreen what a screen shows, and Consent is about the runs of both.
-- Tests: a concrete kernel, and the theorems at concrete inputs.
--
-- Numbers are natural numbers; conversions to 16 and 32 bits are written out. A read outside a
-- vector, a signed overflow and a conversion that C++ leaves open are undefined, as values.
-- Wire/Bytes says when the fields of a packet fit their types.
--
-- Fuel: receive_packet and send_packet have as many rounds as the buffer has bytes, since each
-- round that goes on moves one byte at least. The chunk loop has one more than the file has bytes.
-- The search for a free name has two more than the disk has entries. A numeral of n has n + 1
-- rounds. recv_thread takes a number of rounds, as the thread itself has no end.
--
-- Not modelled: the interleaving of the two threads inside one call, of which each is one step on
-- the whole state; a network that loses what was sent before a program shuts its connection, where
-- only the theorems over any stream speak; the debugging output but for dbgPrintRecvFileInfo and
-- dbgPrintSendFileInfo; tinyfiledialogs, a third-party library whose answers are part of the
-- state; errors of the lookups of CanSendFiles, where fs::exists and fs::is_regular_file may
-- throw; signals: a send on a connection that was shut or is broken only fails, while the program,
-- which sets no handler, may end by SIGPIPE there; a write that fails on a full disk, since an
-- open stream takes all bytes; end of input in the input loop, which reads as an empty line; a
-- getifaddrs element that an inet_ntop cannot print.
pub mod Common
pub mod Wire
pub mod Net
pub mod Files
pub mod Process
pub mod Info
pub mod Transfer
pub mod Commands
pub mod Server
pub mod Client
pub mod Api
pub mod Negotiation
pub mod Threads
pub mod Launch
pub mod Exchange
pub mod Traffic
pub mod Tests
