-- ===== src/Server.antt =====
-- libs/Server/HttpServer.cpp: the texts that it writes into headers and reads from targets.
pub mod Headers
