-- ===== src/Network/Cookies.antt =====
-- crates/audiodown-network-proxy/src/cookie_jar.rs: the temporary cookie jars. The crates that it
-- calls are the record `Library`; a UUID is a number, and an `Instant` a number of nanoseconds.
pub mod Session
pub mod Store
pub mod Jars
pub mod Bounds
pub mod Access
pub mod Requests
pub mod Commit
pub mod Withheld
pub mod Exclusion
mod Examples
