-- ===== src/Fences.antt =====
-- src/spinlock.rs, the fences, on a processor of the x86 family. Its stores go through a buffer, first in,
-- first out, so loads and stores are each in order among themselves; a fence that drains the buffer also
-- orders a store before a later load. `fence_seq_cst` is compiled to such an instruction, and the other two
-- atomic fences to none.
use smp_nostd.Base.{Bool, true, false}

pub data Fence : Type 0 where
  fence_seq_cst fence_acquire fence_release mfence sfence lfence : Fence

-- Whether the store buffer is empty afterwards.
unfoldable pub drains : Fence → Bool
drains fence_seq_cst = true
drains fence_acquire = false
drains fence_release = false
drains mfence = true
drains sfence = false
drains lfence = false
