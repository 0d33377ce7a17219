-- ===== src/HttpParser.antt =====
-- src/proxy/http_parser.rs: the request-head parser.
pub mod Class
pub mod Word
pub mod Scan
pub mod Head
pub mod Lines
pub mod Effects
pub mod Framing
pub mod Once
pub mod Accepted
pub mod Path
pub mod Request
