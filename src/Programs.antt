-- ===== src/Programs.antt =====
-- The programs of bin: bin/client.c, bin/admin.c and bin/server.c, each as a function of its arguments
-- and of what the runtime answers, from the state of its process to how it ends.
pub mod Arguments
pub mod Client
pub mod Admin
pub mod Server
use aggregator.Base.{ℤ, pos, negsuc, Bool, true, false}
use aggregator.Common.{ReturnCode, success}

-- How a program ends: `main` returns, `exit` is called, or an assertion fails.
pub data Exit : Type 0 where
  returned exited : ℤ → Exit
  aborted : Exit

abbrev pub is_success : ReturnCode → Bool
is_success success = true
is_success code = false
