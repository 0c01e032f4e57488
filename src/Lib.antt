-- ===== src/Lib.antt =====
-- QtDataSync keeps a local copy of a user's data on each device and synchronizes the copies over a
-- server. This library models the two ends that decide what the data is, and proves what they keep.
--
-- The local end (src/datasync):
--   Json           synchelper.cpp: documents, and the bytes that jsonHash hashes
--   Environment    objectkey.h, and as parameters Qt's cache, temporary file names, file name encoding
--                  and conversions; the settings that the engine reads
--   Emitter        emitteradapter.cpp: the shared cache, the queued calls and the signals; Backend is
--                  changeemitter.cpp and the slots that receive its signals
--   LocalStore     localstore.cpp: State holds the tables DataIndex and DeviceUploads, the document
--                  files and the emitter; Access the methods of the data, from readJson to reset; Sync
--                  the methods of a SyncScope, Changes the visit of the change list; Saving, Removing and
--                  Loading what the data methods do, Atomicity what a failure leaves
--   SyncController synccontroller.cpp: syncChange, split at the cases of its switch
--   ChangeController changecontroller.cpp: the running uploads, and the visitor that starts them
--   RemoteConnector remoteconnector.cpp and connectorstatemachine.scxml: the connection to the server;
--                  Proofs how a new device is let in, Session and Handlers what the messages of the server
--                  do, Requests what the engine and the user ask for, Buffer the messages that must wait
--   CryptoController cryptocontroller.cpp: the exchange keys, their files and their renewal; Service is
--                  the interface that RemoteConnector has of it
--   ExchangeEngine exchangeengine.cpp: the state that the user sees, and when uploads and downloads are on
-- Between the ends (src/messages):
--   Messages       message.cpp: how messages are written and read; Classes has the properties of each class
--                  from its header, Stream the types that are no Qt types
-- The server end (tools/appserver):
--   Server.Database databasecontroller.cpp: the tables, triggers and cascades; Methods holds the
--                  methods, one function each
--   Server.Client  client.cpp: the session of one client; Handlers holds the handlers of the messages,
--                  Downloads the changes that are sent, Events what a client reacts to
--   Server.Connector clientconnector.cpp: the table of clients, and what it passes between them
--   Server.TaskQueue singletaskqueue.cpp
-- Common, Table and Exec are shared: tests and lists, SQL statements on lists of rows, and methods
-- that change a state and may throw, with rules for what they establish (Exec.Triple).
-- Examples holds concrete settings and the theorems applied to them.
--
-- A store is sound (LocalStore.Writes.Sound) if the primary key of DataIndex is unique, a row that names a
-- file has the checksum of the document in it, and no two rows share a file. A version can be raised if
-- it is below 2 ^ 64 - 1.
--
-- How the code corresponds: a method of LocalStore is a function on a Store that gives a result or an
-- exception, and the store as it was left, so writes before a throw are seen. Each step that can fail
-- outside (a query, a file operation, a commit) reads its outcome from a list in the store; an empty
-- list means success from there on. A rollback restores the tables and not the files. SHA3 values are
-- numbers and file names and types are byte strings. A quint64 version wraps at 2 ^ 64 where the code
-- adds one. SyncController.Policy states the rules of modeling/exchange.txt on entries, one for each key,
-- without tables, files or transactions; LocalStore.Coherent, Updates, Writes and Outcomes say how
-- tables and files stand for entries. On the server a method that throws leaves the tables alone, and
-- the triggers and cascades run inside the statement that sets them off. A call of the database from a
-- client's session reads its outcome from a list, as in a store. Queued calls of Qt are lists that
-- another step takes up, and signals are recorded in the order in which they are emitted. In the engine
-- a call of a controller runs to its end before its signals are handled. No function needs fuel.
--
-- Not modelled: LocalStore::find (SQL text matching), the key store with the private keys and the keys
-- of exports in CryptoController, the export of an account, the creation of the engine's objects and
-- thread, the set-up of the server's sockets, the data store front ends, key store plugins and
-- bindings. On the server, failures of single statements for outside reasons are left out, and so are
-- the bounds of the columns but for the key count that updateExchangeKey raises (an INT) and the check
-- of the quota. The versions that clear raises in SQLite have no bound. A client's socket
-- error and timeout come between its tasks; in the code they write the state also while a task runs.
pub mod Common
pub mod Table
pub mod Json
pub mod Environment
pub mod Exec
pub mod Emitter
pub mod LocalStore
pub mod SyncController
pub mod ChangeController
pub mod RemoteConnector
pub mod ExchangeEngine
pub mod Messages
pub mod CryptoController
pub mod Server
pub mod Examples
