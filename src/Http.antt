-- ===== src/Http.antt =====
-- The searches that come over HTTP: daemon/src/http_server.cpp, `FileContents::fromSearch` of
-- core/vca/userdb.cpp, and command/src/command.cpp, which asks.
pub mod Server
pub mod Command
pub mod Ports
pub mod Asked
