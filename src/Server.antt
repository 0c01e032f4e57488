-- ===== src/Server.antt =====
-- tools/appserver: the PostgreSQL tables behind the server, and the session of one client.
pub mod Database
pub mod Client
pub mod Connector
pub mod TaskQueue
