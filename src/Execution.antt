-- ===== src/Execution.antt =====
-- src/execution: the evaluator of scalar expressions, and the physical operators.
pub mod Like
pub mod Eval
pub mod Operator
