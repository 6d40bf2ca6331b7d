-- ===== src/Framework.antt =====
-- pkg/framework: the helpers of the end-to-end suites, a module for each part.
pub mod Client
pub mod Pods
pub mod Setup
pub mod Streams
pub mod Deployments
pub mod Consumer
pub mod Stability
pub mod Hpa
pub mod Operators
pub mod Keda
pub mod Cro
pub mod Vpa
