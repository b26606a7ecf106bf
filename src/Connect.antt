-- ===== src/Connect.antt =====
-- meio-connect: the web server and the web sockets on top of the actors. The web socket, the codec
-- and the HTTP server are other crates: what they answer is an argument.
pub mod Talker
pub mod Client
pub mod Route
pub mod Bind
pub mod Server
pub mod Link
pub mod Sockets
