-- ===== src/Programs/Admin.antt =====
-- bin/admin.c: a program that makes an admin object and frees it again.
pub mod Run
use aggregator.Base.{
  ℕ, ◌+◌, Bool, List, [], ◌∷◌, Option, none, some, ◌==◌, if◌then◌else◌, pos, negsuc, M, Outcome,
  done, ub, pure, fault, relay, and_then, ◌>>=◌, ◌>>◌,
}
use aggregator.Common.{ReturnCode, CString}
use aggregator.Margo.Addresses.{Addresses}
use aggregator.Admin.{Admins, admin_init, admin_finalize}
use aggregator.Programs.{Exit, returned, exited, aborted, is_success}

module _ ⦃A : Addresses⦄ where
  -- The process of the program, with the number of times that it has printed its usage.
  pub record AdminSession : Type 0 where
    pub admins : Admins
    pub addresses : A.Table
    pub usages : ℕ

  abbrev on_admins : {B : Type 0} → M Admins B → M AdminSession B
  on_admins f s = relay (λ a. record s { admins = a }) (f s.admins)

  -- The macro FATAL.
  abbrev fatal : M AdminSession Exit
  fatal = pure (exited (negsuc 0))

  -- `margo_addr_free`, and the end of `main`.
  unfoldable pub release_server : ℕ → ℕ → M AdminSession Exit
  release_server mid svr_addr s = elim (A.addr_free s.addresses mid svr_addr) [
    | none ↦ fatal s
    | some t ↦ done (returned (pos 0)) (record s { addresses = t })
  ]

  -- What follows the initialisation of the admin object.
  unfoldable pub finalize : ℕ → ℕ → ReturnCode × Option ℕ → M AdminSession Exit
  finalize mid svr_addr (code, none) = if is_success code then fault else fatal
  finalize mid svr_addr (code, some admin) =
      if is_success code
      then (do
        code' ← on_admins (admin_finalize admin)
        (if is_success code' then release_server mid svr_addr else fatal))
      else fatal

  -- What follows the lookup of the address. `allocated` is what `calloc` answers.
  unfoldable pub make_admin : ℕ → Bool → Option (ℕ × A.Table) → M AdminSession Exit
  make_admin mid allocated none s = fatal s
  make_admin mid allocated (some r) s =
      and_then (finalize mid r.0)
        (on_admins (admin_init allocated mid) (record s { addresses = r.1 }))

  -- What follows the check of the arguments; `mid` is the result of `margo_init`, 0 where it fails.
  unfoldable pub run_admin : ℕ → Bool → CString → M AdminSession Exit
  run_admin mid allocated svr_addr_str s =
      if mid == 0
      then done aborted s
      else make_admin mid allocated (A.addr_lookup s.addresses mid svr_addr_str) s

  -- The program exits with 0 when its arguments are not as it wants them.
  abbrev print_usage : M AdminSession Exit
  print_usage s = done (exited (pos 0)) (record s { usages = s.usages + 1 })

  -- `main`. The provider identifier is not read.
  unfoldable pub admin_main : ℕ → Bool → List CString → M AdminSession Exit
  admin_main mid allocated (program ∷ svr_addr_str ∷ provider_id ∷ []) =
      run_admin mid allocated svr_addr_str
  admin_main mid allocated [] = print_usage
  admin_main mid allocated (program ∷ []) = print_usage
  admin_main mid allocated (program ∷ svr_addr_str ∷ []) = print_usage
  admin_main mid allocated (program ∷ svr_addr_str ∷ provider_id ∷ more ∷ rest) = print_usage
