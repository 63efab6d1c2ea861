-- ===== src/Net.antt =====
-- l4lb/src/net, the sockets, buffers, event loop and connections under the load balancer.
pub mod Buffer
pub mod System
pub mod Epoller
pub mod Channel
pub mod Socket
pub mod TcpConnection
pub mod TimerQueue
pub mod Acceptor
pub mod EventLoop
mod Tests
