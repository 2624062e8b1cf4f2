-- ===== src/Tests.antt =====
-- The theorems at concrete inputs.
mod Streams
mod Endpoints
mod Wire
mod Network
mod Channel
mod Sockets
mod Simulator
mod Copy
