-- ===== src/Tests.antt =====
-- The theorems applied to concrete inputs, by part of the program.
mod Rings
mod Serial
mod Frames
mod Tcp
mod Logs
mod Sockets
mod Keys
mod Ticks
mod Messages
mod Chat
mod Polls
mod Dumps
