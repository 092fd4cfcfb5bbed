-- ===== src/Api/Routers.antt =====
-- The handlers of src/api/routers, after their dependencies are resolved: an authenticated user is
-- an argument.
pub mod Auth
pub mod User
pub mod Group
pub mod Messaging
pub mod Websocket
