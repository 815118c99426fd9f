-- ===== src/Server.antt =====
-- server/src: the sessions of the clients.
pub mod Result
pub mod Action
pub mod Client
pub mod Manager
pub mod Processing
pub mod Loop
pub mod Connection
pub mod SimpleLogin
pub mod Config
