-- ===== src/Examples.antt =====
-- The theorems at concrete inputs.
mod Checks
mod Messages
mod Requests
mod Server
mod Strings
mod Gemini
mod Startup
mod Pool
mod Threads
mod Locks
mod Loop
mod Workers
mod Sharing
mod Service
mod Answers
