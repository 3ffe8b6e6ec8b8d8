-- ===== src/Routes.antt =====
-- routes/: the request handlers.
pub mod Chat
pub mod Completions
pub mod Messages
pub mod Screening
pub mod Streams
pub mod Embeddings
