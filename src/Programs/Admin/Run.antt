-- ===== src/Programs/Admin/Run.antt =====
-- Runs of the admin program, and the arguments that the programs refuse.
use aggregator.Base.{
  ℕ, ◌+◌, ◌≤◌, ◌≡◌, ◌≢◌, refl, List, [], ◌∷◌, none, some, length, Bool, true, false, ◌==◌, pos,
  negsuc, arith, done,
}
use aggregator.Common.{CString}
use aggregator.Wire.{HgProc}
use aggregator.Uthash.{Uthash}
use aggregator.Margo.{Margo}
use aggregator.Margo.Addresses.{Addresses, references-lookup_free}
use aggregator.Admin.Lifetime.{init-finalize}
use aggregator.Programs.{returned, exited}
use aggregator.Programs.Client.{Surroundings, Session, usage, client_main}
use aggregator.Programs.Admin.{
  AdminSession, release_server, finalize, make_admin, run_admin, admin_main,
}

module _ ⦃A : Addresses⦄ where
  -- Called with two arguments, where the runtime finds the address and frees it again, and memory can be
  -- had, the program returns 0, whatever the second argument is. Every admin object and every
  -- reference to an address is again as it was before.
  pub admin_main-clean :
      (s : AdminSession) (mid svr_addr : ℕ) (t u : A.Table) (program address provider_id : CString)
      → 1 ≤ mid
      → 1 ≤ s.admins.fresh
      → s.admins.admins s.admins.fresh ≡ none
      → A.addr_lookup s.addresses mid address ≡ some (svr_addr, t)
      → A.addr_free t mid svr_addr ≡ some u
      → (v : AdminSession) × (admin_main mid true (program ∷ address ∷ provider_id ∷ []) s
          ≡ done (returned (pos 0)) v)
        × ((b : ℕ) → v.admins.admins b ≡ s.admins.admins b)
        × ((j b : ℕ) → A.references v.addresses j b ≡ A.references s.addresses j b)
        × (v.usages ≡ s.usages)
  unfolding admin_main run_admin make_admin finalize release_server
  admin_main-clean s mid svr_addr t u program address provider_id nonnull first unused looked_up
        freed =
      let (a, m, n, made, there, ended, kept, twice) = init-finalize s.admins mid first unused in
      let nonzero : (mid == 0) ≡ false = ground (arith, nonnull) in
      (
        record { admins = n; addresses = u; usages = s.usages },
        rw (nonzero, looked_up, made, ended, release_server, freed) refl,
        kept,
        references-lookup_free s.addresses t u mid svr_addr address looked_up freed,
        refl,
      )

module _ ⦃H : Uthash⦄ ⦃G : Margo⦄ ⦃A : Addresses⦄ ⦃P : HgProc⦄ where
  -- With any number of arguments but two, both programs print their usage and end before they call
  -- the runtime; the client program exits with -1, the admin program with 0.
  usage-exits :
      (argv : List CString) (e : Surroundings) (s : Session) (mid : ℕ) (allocated : Bool)
      (r : AdminSession)
      → length argv ≢ 3
      → (client_main e argv s ≡ done (exited (negsuc 0)) (record s { output = usage ∷ s.output }))
        × (admin_main mid allocated argv r
            ≡ done (exited (pos 0)) (record r { usages = r.usages + 1 }))
  unfolding client_main admin_main
  usage-exits [] e s mid allocated r n = (refl, refl)
  usage-exits (a ∷ []) e s mid allocated r n = (refl, refl)
  usage-exits (a ∷ b ∷ []) e s mid allocated r n = (refl, refl)
  usage-exits (a ∷ b ∷ c ∷ []) e s mid allocated r n = absurd (n refl)
  usage-exits (a ∷ b ∷ c ∷ d ∷ rest) e s mid allocated r n = (refl, refl)
