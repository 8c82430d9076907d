-- ===== src/Ril.antt =====
-- The client library of the radio daemon: ril/libsecril-client/secril-client.cpp and its header.
pub mod Status
pub mod Tokens
pub mod History
pub mod Handlers
pub mod Parcel
pub mod Client
pub mod Write
pub mod Request
pub mod Oem
pub mod Response
pub mod Connect
pub mod Reader
pub mod Session
mod Tests
