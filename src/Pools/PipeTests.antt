-- ===== src/Pools/PipeTests.antt =====
-- include/common.hpp, `PipePool`: its properties on a pool of two.
use uring_sync.Base.{ℕ, zero, suc, Option, none, some}
use uring_sync.Base.Int.{pos}
use uring_sync.Pools.PipePool.{PipePool, Pipe, no_pipe}
use uring_sync.Pools.PipePool
use uring_sync.Pools.PipePool.Laws.{Accounts, opened, new-Accounts}

-- The second call of `pipe` fails.
abbrev pipe_calls : ℕ → Option Pipe
pipe_calls zero = some (record { read_fd = pos 3; write_fd = pos 4 })
pipe_calls (suc i) = none

new-Accounts_example : Accounts 2 (opened pipe_calls 0 2) (PipePool.new pipe_calls 2)
new-Accounts_example = new-Accounts pipe_calls 2
