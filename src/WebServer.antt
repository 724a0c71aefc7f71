-- ===== src/WebServer.antt =====
-- hw12-webserver/main.c: a server of files over one request record that all its connections share.
pub mod Request
pub mod Response
pub mod Loop
pub mod Pages
pub mod Serve
pub mod Start
pub mod Clients
mod Tests
