-- ===== src/Tests.antt =====
-- The theorems at concrete data, and runs of the model on small inputs.
mod ArbiterTests
mod ClockTests
mod EventTests
mod CacheTests
mod MapTests
mod FlowTests
mod FabricTests
mod StridedTests
mod PortTests
mod CreditTests
mod TensorTests
mod OperatorTests
mod EngineTests
mod PoolTests
mod TimetableTests
