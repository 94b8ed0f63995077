-- ===== src/Tests.antt =====
-- The theorems at concrete inputs.
mod Pots
mod Samples
mod Errors
mod Older
mod Strings
mod Files
mod Network
mod Threads
mod Trees
mod Tables
mod Lists
mod Services
mod Messages
mod Datagrams
