-- ===== src/Juggler.antt =====
-- juggler: a websocket server for RPC calls and pub-sub events over a broker.
pub mod Msg
pub mod Conn
pub mod Handler
pub mod Client
mod Samples
pub mod Callee
pub mod Broker
pub mod Loops
pub mod Server
