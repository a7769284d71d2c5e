-- ===== src/Tests.antt =====
-- The theorems at concrete inputs, and runs of the definitions.
mod Text
mod Xss
mod Http
mod Cache
mod Multipart
mod Session
mod Archive
mod Request
mod Interface
