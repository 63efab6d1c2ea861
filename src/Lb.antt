-- ===== src/Lb.antt =====
-- l4lb/src/lb, the load balancer over the connections of l4lb/src/net.
pub mod Connector
pub mod ProxySession
pub mod LoadBalancer
mod Tests
