-- ===== src/Sql.antt =====
-- src/observer/sql: expressions (`Expr`), the rules of the optimizer that rewrite them (`Rewrite`), and the
-- push of predicates down to a table scan (`Pushdown`).
pub mod Expr
pub mod Rewrite
pub mod Pushdown
mod Tests
