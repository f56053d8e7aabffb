-- ===== src/Sessions/Refines/Whole.antt =====
-- Each operation against the table, and all of them.
use pearl_ai.Sessions.Table.{Table}
use pearl_ai.Sessions.Refines.{Refines}
