-- ===== src/Db/Tests.antt =====
-- Reads, writes and listings of the in-memory backend.
use nuts.Base.{ℕ}
use nuts.Db.{DbLaws}
use nuts.Db.Memory.{memory, memory-DbLaws}

memory-DbLaws_example : DbLaws (memory {V = ℕ})
memory-DbLaws_example = memory-DbLaws
