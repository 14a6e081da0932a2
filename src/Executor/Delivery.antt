-- ===== src/Executor/Delivery.antt =====
-- The results of PooledExecutor::run_tests (crates/rpytest-daemon/src/executor.rs): the scheduler's
-- split and the pool's parallel run put together.
use mathlib.Core.List.{Perm}
use mathlib.Core.List.Perm
use rpytest.Common.{List}
