-- ===== src/Ws.antt =====
-- src/ws: the WebSocket endpoint's limits and rooms.
pub mod RateLimit
pub mod Rooms
pub mod RoomName
