-- ===== src/Task/Tests.antt =====
-- A task with a stack of 64 KiB, whose top is 16-byte aligned already.
