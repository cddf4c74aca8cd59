-- ===== src/Programs/Server.antt =====
-- bin/server.c: a process of a parallel server, which writes the gathered addresses to a file and
-- registers a provider under the identifier 42.
pub mod Scan
pub mod Run
use aggregator.Base.{
  ℕ, zero, suc, ◌+◌, ◌-◌, Bool, ◌||◌, List, [], ◌∷◌, ◌++◌, map, Option, none, some, length,
  replicate, ◌==◌, if◌then◌else◌, pos, M, Outcome, done, ub, pure, fault, relay, and_then, ◌>>=◌,
  ◌>>◌,
}
use mathlib.Core.Option
use mathlib.Core.List
use aggregator.Common.{CString}
use aggregator.Uthash.{Uthash}
use aggregator.Margo.{Margo}
use aggregator.Programs.{Exit, returned, aborted}
use aggregator.Provider.Lifecycle.{Process, args_init, provider_register}

-- A byte of memory that was never set is `none`.
abbrev pub Memory : Type 0
Memory = List (Option ℕ)

-- What the runtime answers to the program: the result of `margo_init`, 0 where it fails; the text that
-- `margo_addr_to_string` writes, or `none` where it writes nothing; the rank of the process;
-- whether the file can be opened; and the memory that `MPI_Gather` leaves at the process of rank 0.
pub record ServerSurroundings : Type 0 where
  pub mid : ℕ
  pub text : Option CString
  pub rank : ℕ
  pub opened : Bool
  pub gathered : Memory

-- The array `addr`, of 1024 bytes.
abbrev pub addr_array : Option CString → Memory
addr_array none = replicate 1024 none
addr_array (some text) = map (λ c. some c) text ++ some 0 ∷ replicate (1023 - length text) none

-- The characters that end the scan: the terminator, `:` and `;`.
abbrev pub is_end : ℕ → Bool
is_end c = (c == 0) || ((c == 58) || (c == 59))

-- The index that the scan stops at. Reading a byte that was never set, or past the end, is `none`.
unfoldable pub scan : ℕ → Memory → Option ℕ
scan j [] = none
scan j (none ∷ addr) = none
scan j (some c ∷ addr) = let rest = scan (suc j) addr in if is_end c then some j else rest

-- A string in memory, up to its terminator.
unfoldable pub read_string : Memory → Option CString
read_string [] = none
read_string (none ∷ memory) = none
read_string (some c ∷ memory) =
    let rest = Option.map (λ str. c ∷ str) (read_string memory) in if c == 0 then some [] else rest

abbrev pub drop : {A : Type 0} → ℕ → List A → List A
drop n [] = []
drop zero (x ∷ xs) = x ∷ xs
drop (suc n) (x ∷ xs) = drop n xs

module _ ⦃H : Uthash⦄ ⦃G : Margo⦄ where
  -- The process, and the lines of its file.
  pub record ServerSession : Type 0 where
    pub process : Process
    pub file : List CString

  abbrev or_fault : {A : Type 0} → Option A → M ServerSession A
  or_fault none = fault
  or_fault (some a) = pure a

  -- `fprintf` to the file, which must be open.
  unfoldable pub write_line : Bool → CString → M ServerSession (Unit {0})
  write_line opened line s = if opened then done tt (record s { file = line ∷ s.file }) else ub s

  -- The process of rank 0 writes a line; all of them close the file, which must be open.
  unfoldable pub write_addresses : ServerSurroundings → M ServerSession (Unit {0})
  write_addresses e =
      (if e.rank == 0
        then or_fault (read_string (drop 18 e.gathered)) >>= write_line e.opened
        else pure tt)
      >> (if e.opened then pure tt else fault)

  -- The registration; its result is not used.
  unfoldable pub register_42 : ℕ → M ServerSession (Unit {0})
  register_42 mid s =
      relay (λ p. record s { process = p })
        (and_then (λ _. pure tt) (provider_register mid 42 (some args_init) s.process))

  -- `main`; its last state is the one in which it waits for the end of the Margo instance. The result
  -- of the scan is not used.
  unfoldable pub server_main : ServerSurroundings → M ServerSession Exit
  server_main e = if e.mid == 0 then pure aborted else (do
    _ ← or_fault (scan 0 (addr_array e.text))
    write_addresses e
    register_42 e.mid
    pure (returned (pos 0)))
