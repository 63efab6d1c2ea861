-- ===== src/Tcp.antt =====
-- The network part of the tutorial server in its last version (code/day29/tcp).
pub mod Buffer
pub mod TcpConnection
pub mod Exchange
pub mod TcpServer
pub mod EventLoop
