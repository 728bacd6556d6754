-- ===== src/Ws.antt =====
-- internal/interface/ws: the WebSocket connections of the server.
pub mod Hub
