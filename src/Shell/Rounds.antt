-- ===== src/Shell/Rounds.antt =====
-- The rounds of the shell (src/main.cpp): the stacks stay a path from the root.
use vortex_db.Database.{Database}
use vortex_db.Shell.{Shell}
