-- ===== src/Lib.antt =====
-- Selective reject: a file transfer over UDP. `rcopy` sends a file as numbered packets inside a window,
-- `server` receives them, stores what comes ahead of its turn, writes to the output file, and answers
-- with RR, SREJ and EOF acknowledgements.
--
-- How the parts interact. rcopy.c runs the sender's states over the window of windowing.c; server.c
-- receives packets and hands them to the receiver's states in bufferMngment.c. Both build packets with
-- `createPDU` (windowing.c) and reach the network through safeUtil.c and pollLib.c.
--
-- The files, and the code that they model:
--   Base      names of the libraries, tests, lists, the C type `int`, byte orders
--   Machine   one process: what it has sent and written, the answers of its environment, how a run ends
--             (with a result, by exit, in undefined behaviour, or cut short), and what holds then;
--             `safe_sendto`, `safe_recvfrom` and Safe are safeUtil.c
--   Net       Names: gethostbyname.c; Sockets: the functions of networks.c; Ports: where a server listens
--             and a client sends to; Tcp: the same for TCP; Print: what `printIPInfo` shows of that
--   Poll      `pollCall` (pollLib.c); Set: its set of descriptors and what changes it; Added, Removed,
--             Watched: what is in the set, and `pollCall` on the set of one socket; Kept: what the set-up
--             leaves alone
--   Pdu       Build: `createPDU`, `createWindowPacket` (windowing.c), `formatReceiverReadyPDU`
--             (bufferMngment.c) and what a receiver reads; Layout: what they put where;
--             Print: `printPDU`
--   Receiver  Slots, Replies, States: all functions of bufferMngment.c; a tracker is the record
--             `ServerStateData`; Stored, Delivered, InTurn, Arrivals, Flush, Manage: what they keep
--   Window    Defs: windowing.c, its static variables as the record `Window`; Holds, Marks, Acks: which
--             packets it can send again
--   Sender    Steps, Loops: the functions of rcopy.c; the variables its states share are `Transfer`;
--             Main: `main`, the arguments and the input file; Sending, Retry: what a round sends, and what
--             is sent again; Setup: the setup packet; Pieces, Account, Answers, Acks: the pieces of the
--             file read, and what is sent for them and for answers; Rounds, Reading, Pumping, Waiting,
--             Received, Ending, Whole, Sent: that account in each state and in all of them; Silence,
--             GivesUp, Quits: rcopy when nothing arrives any more; Started: rcopy from its arguments
--   Server    Setup, Receive: `receive_initial_PDU`, `manage_incoming_data`, `sendErrorPacket` (server.c);
--             Child: the states of `processFile`; Parent: `main`, `checkArgs`, `processServer`; Network:
--             what the network may deliver; Delivery, Complete, Handshake, Served: the transfer as a whole;
--             Acknowledged: a child behind its EOF acknowledgement; Working, Finishes, Arrives: the transfer
--             where every call works; Whole: the server from `main`
--   Transfer  Streams: the pieces of a file as the packets that the server's theorems are about; Link:
--             rcopy.c and server.c joined by a network; Copied, Arrives: what the copy then is
-- The modules whose names end in Example or Tests, and Server/Damaging, run the code on a transfer of two
-- packets.
--
-- How state is written. A function that updates through a pointer returns the new value; every call of
-- the system goes through the state `World`, whose clock lets the environment answer each call anew. An
-- operation that C does not define, such as an index out of bounds, a division by zero, an overflow of
-- `int`, or a copy past the end of an array, is `none` or ends the run as `undefined`. Numbers of
-- packets in 32 bits become `int`s by `signed32`.
--
-- Loops. The loop of `flushingFunction` gets one round more than the buffer has slots, that of
-- `processRRpacket` one more than the distance to go, that of `sendSetupPacket` its 10, and that of
-- the server's `processFile` two turns, one for each state that is not DONE; all are enough.
-- The loops that wait for the network (`receive_loop`, `eof_ack_loop`, `drain`, `data_transfer`,
-- `eof_loop`, `rcopy_loop`, `process_server`) have no bound in the code: they take a number of rounds,
-- and a run whose rounds are used up is `unfinished`. What is stated of them holds for every number, or
-- for every number from a stated bound on.
--
-- Parameters. The kernel, the network and the library libcpe464 (checksum, faulty sends) answer as
-- `Env` says. Assumed of them, each where it is named: the Internet checksum stored in its own field
-- makes the whole packet's checksum zero (`Verifies`); a write is complete or fails; the network delivers
-- what the sender sent or what the checksum rejects, and nothing before it is sent (`DeliversFrom`; in
-- `Carries` for rcopy and one child of the server, which hear no other child); `read`
-- gives the next bytes of the input file, as many as asked for while there are so many (`ReadsFile`);
-- `poll` answers with a result for each entry and some if it counts some (`PollAnswers`), or counts none
-- (`SilentFrom`); the kernel gives out socket numbers to which ten can be added (`SmallSockets`), since
-- pollLib.c adds them as `int`s; the resolver gives whole addresses. What arrives in the end is stated
-- for calls that work (`Works`) and for a network that gives, up to the EOF acknowledgement, what is
-- waited for (`Gives`); nothing is assumed of it behind that.
--
-- Not modelled: several processes that write to one file. A `World` is one process, and its `file` holds
-- the bytes that this process has put into the output file since it opened it, empty; server.c starts a
-- child for every datagram, and the child of a repeated setup packet opens the same file with `O_TRUNC`.
-- The addresses of datagrams: rcopy.c overwrites the server's address with the source of each datagram
-- that it receives (lines 183 and 426, through safeUtil.c), and where a datagram then goes is the
-- network's part here. The handler of SIGCHLD (server.c), which only reaps children; printing, but for
-- what `printPDU` and the functions of gethostbyname.c print; `close` and `free`; newPDU.c (a copy of
-- `createPDU` and `printPDU` that the build leaves out); and the library libcpe464, which is another
-- project's.
pub mod Base
pub mod Machine
pub mod Net
pub mod Pdu
pub mod Poll
pub mod Receiver
pub mod Sender
pub mod Server
pub mod Transfer
pub mod Window
