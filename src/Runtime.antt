-- ===== src/Runtime.antt =====
-- runtime/: the values of the expression language, its operators, its variables, and the executor.
pub mod Values
pub mod Result
pub mod Ops
pub mod Variables
pub mod Ast
pub mod Execution
pub mod Evaluate
pub mod Node
pub mod Bind
pub mod Preflight
pub mod Executor
mod Tests
pub mod Samples
