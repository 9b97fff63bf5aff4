-- ===== src/Spawn.antt =====
-- Spawn expansion, compiler/src/spawn.rs: `clock f name[i=a..b] { body }` becomes one task for each
-- index. The substitution functions stand in the child `Subst`.
pub mod Subst
pub mod Expand
pub mod Free
pub mod Same
pub mod Tests
