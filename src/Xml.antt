-- ===== src/Xml.antt =====
pub mod Unescape
pub mod Parser
pub mod Content
pub mod Next
