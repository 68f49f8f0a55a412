-- ===== src/Server.antt =====
-- The HTTP server of osrm-backend/server.
pub mod RequestParser
