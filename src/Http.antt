-- ===== src/Http.antt =====
-- The parts that read HTTP text.
pub mod Protocol
pub mod Parser
pub mod Scanner
pub mod ContentType
pub mod PartHeader
pub mod Multipart
pub mod Form
pub mod Cookies
