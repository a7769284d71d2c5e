-- ===== src/Session.antt =====
-- Sessions: where their contents are kept, and what the client holds of them.
pub mod Encryptor
pub mod HmacCipher
pub mod AesCipher
pub mod Client
pub mod Cookies
pub mod Storage
pub mod MemoryStorage
pub mod Sid
pub mod Dual
pub mod Api
pub mod Interface
pub mod Exposed
pub mod Packing
