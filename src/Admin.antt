-- ===== src/Admin.antt =====
-- src/admin.c and src/admin.h: the admin object of a process. Its one member is the Margo instance.
pub mod Lifetime
use aggregator.Base.{ℕ, suc, Bool, Option, none, some, M, done, ub, ◌==◌, if◌then◌else◌}
use aggregator.Common.{ReturnCode, success, err_allocation}
use aggregator.Memory.{update}

-- `aggregator_admin`
pub record Admin : Type 0 where
  pub mid : ℕ

-- The admin objects of a process, by address.
pub record Admins : Type 0 where
  pub admins : ℕ → Option Admin
  pub fresh : ℕ

-- The result is the return code and what is stored to `*admin`; `allocated` is false where `calloc`
-- gives NULL.
unfoldable pub admin_init : Bool → ℕ → M Admins (ReturnCode × Option ℕ)
admin_init allocated mid s =
    if allocated
    then done (success, some s.fresh)
        (record {
          admins = update s.admins s.fresh (some (record { mid = mid }));
          fresh = suc s.fresh;
        })
    else done (err_allocation, none) s

-- `free`: nothing happens to NULL, and freeing what is not allocated is undefined.
unfoldable pub admin_finalize : ℕ → M Admins ReturnCode
admin_finalize admin s = if admin == 0 then done success s else elim (s.admins admin) [
  | none ↦ ub s
  | some a ↦ done success (record s { admins = update s.admins admin none })
]
