-- ===== src/Lib.antt =====
-- A verification library for a file synchronisation service with replicated servers, written in C.
--
-- The program. A client keeps a folder in step with a server. Client and server exchange packets
-- over TCP (src/util/communication.c): a file goes as an announcement followed by data packets of at
-- most 1000 bytes. The server keeps a context for each user, found in a hash table
-- (src/util/contextHashTable.c), with up to two sessions, and for each session a bounded queue of files
-- to send (src/util/fileSync.c), which the thread that receives files fills and the thread that sends
-- them empties. One server is the manager; it tells the others, the backups, of every connection, upload
-- and deletion by replication events (src/server/replica.c), which travel as text in packets.
--
-- The files.
--   Base            Lists over the native numbers, texts as lists of bytes, little-endian integers.
--   SyncBuffer      src/util/fileSync.c. Refine: the ring is a queue. Traffic: traces of the threads.
--   ContextTable    src/util/contextHashTable.c. Hash, Lookup: one operation; History: many insertions.
--   Text            What the program uses of the C library on texts: decimal print and scan, strtok_r,
--                   strchr, inet_ntop, inet_pton. Decimal, Tokens and Ip have their lemmas.
--   Address         struct sockaddr_in and its text. Laws: it is read back.
--   Packet          The packets of src/util/communication.c. Socket: the kernel's side of a connection;
--                   Stream, Framing: packets out of streams.
--   Files           The file system, and create_filepath.
--   Transfer        send_file, receive_file, delete_file, handle_send_delete of
--                   src/util/communication.c. Sending, Total, Receiving, RoundTrip, Deleting.
--   Events          The events of src/server/replica.c and their text. RoundTrip, and Delivery: across a
--                   connection.
--   Replicas        The manager's list of replicas in src/server/replica.c. Invariant, Survivors,
--                   Notify.
--   FileList        src/util/fileLinkedList.c, crc32 and get_file_status. Checksum, Laws, Status.
--   Sessions        src/util/connectionManagement.c: contexts, their two slots and the sessions in
--                   them. Slots: one context; Users: the table's contexts; Disconnect: all of them.
--   Server          The requests of src/server/server.c: a new connection (Connect), and a file on a
--                   session's stream, handle_incoming_file (Others, Telling, Upload, Delete, Handling;
--                   Incoming and Removing for the whole way from the sender).
--   Sender          The thread send_f of src/server/server.c. Drain: a whole queue.
--   Commands        The thread interface of src/server/server.c; what list_files gives is a parameter.
--                   Delete, Exit.
--   Roles           The loops of src/server/serverRoles.c: Upload, Deletion, Connection, Ending:
--                   they are replicated; Joining: a backup joins.
--   Election        src/server/election.c. RoundTrip: the messages; Asking, Votes: whom an election
--                   asks and how it ends; Answer and Announced: across a connection.
--   Client          The console of src/client/client.c. Parsing: a typed line; Requests, Download: a
--                   command from the line to the server and back; Copy: upload.
--   Monitor         The loops of src/server/serverRoles.c that send and watch heartbeats, and the
--                   election that they start. Silence, Heartbeats.
--   Failover        The change of the manager: the end of run_as_backup, send_packet_all_users, and how
--                   src/client/client.c follows it. Told: whom it reaches; Follow: a client; Handover.
--   Startup         parse_server_arguments and the ports of src/server/server.c, main of
--                   src/client/client.c. Arguments; Meeting: a client finds the ports of a server.
--   Welcome         handle_new_connection of src/server/server.c and connect_to_server of
--                   src/client/client.c. Handshake: the one with the other.
--   Folder          The synchronised folder of src/client/client.c. Arriving: the receiving thread, with
--                   the sending thread of the server; Watching: the watcher.
--   Listing         list_files of src/server/server.c. Growth, Room: its buffer.
--
-- Reading of C. A byte is a number below 256 by convention, a C string the bytes before its NUL, a
-- `char *` that may be NULL an Option. Machine integers are kept modulo their width where the code can
-- reach it. Sending and receiving threads under one mutex are steps of a relation. The environment is
-- explicit: each read of a socket takes the next event of a list (bytes, end of stream, error) and each
-- send the next outcome, so a theorem about all lists holds for every behaviour of the network. A read
-- that would block for good, and a read of memory that is not the program's, are results of their own.
--
-- Fuel. The loop over a file's chunks has one more unit of fuel than the file has bytes; each turn but
-- the last takes at least one byte, and Transfer/Total shows that it is enough for every connection.
-- The loop of crc32 over reads of 1024 bytes is treated likewise (FileList/Checksum). The doubling of
-- the buffer in list_files has a unit of fuel for each byte that is needed, and each turn adds at least
-- one (Listing/Growth). All other loops go down a list or a counter of the code.
--
-- Not modelled: the creation of threads, the opening and binding of sockets, printing and the freeing
-- of memory.
-- A file that opens can be read to its end, and the folders that the server creates exist.
pub mod Base
pub mod SyncBuffer
pub mod ContextTable
pub mod Text
pub mod Address
pub mod Packet
pub mod Files
pub mod Transfer
pub mod Events
pub mod Replicas
pub mod FileList
pub mod Sessions
pub mod Server
pub mod Election
pub mod Roles
pub mod Listing
pub mod Commands
pub mod Client
pub mod Failover
pub mod Monitor
pub mod Startup
pub mod Welcome
pub mod Folder
pub mod Sender
