-- ===== src/Tests.antt =====
-- The theorems at concrete inputs.
mod Sample
mod Messaging
mod Files
mod Rest
mod System
mod Joining
mod Changes
mod Network
