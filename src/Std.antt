-- ===== src/Std.antt =====
-- The functions of Rust's standard library that the program calls, over texts.
pub mod Text
pub mod Number
pub mod Utf8
pub mod IpAddr
pub mod Ipv6
pub mod FilePath
pub mod Sort
