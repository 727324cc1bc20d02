-- ===== src/Http.antt =====
-- my_lib/http_client: a client that reads one response, over asynchronous operations.
pub mod Reader
pub mod Client
pub mod Once
pub mod Chunks
pub mod Body
pub mod Content
mod Tests
