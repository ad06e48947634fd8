-- ===== src/RiskEngine.antt =====
-- src/core/RiskEngine.h and src/core/RiskEngine.cpp: the evaluation of one order, the circuit
-- breakers by instrument and the kill switch.
pub mod Types
pub mod State
pub mod Breaker
pub mod Checks
pub mod Evaluate
pub mod Reachable
pub mod Unreset
pub mod Runs
pub mod Tests
