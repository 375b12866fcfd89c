-- ===== src/Client.antt =====
-- apteryx.c: the client library, over the calls of the service that protoc generates.
pub mod Transport
pub mod Requests
pub mod Lifetime
pub mod System
pub mod Strings
pub mod Service
pub mod Numbers
pub mod Dump
