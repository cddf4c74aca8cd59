-- ===== src/Admin/Lifetime.antt =====
-- An admin object from its initialization to its end.
use aggregator.Base.{ℕ, suc, ◌≤◌, ◌≡◌, refl, true, none, some, done, ub, arith}
use aggregator.Common.{success}
use aggregator.Memory.{update, update_self, update-back}
use aggregator.Admin.{Admin, Admins, admin_init, admin_finalize}

finalize_live :
    (s : Admins) (p : ℕ) (a : Admin)
    → 1 ≤ p
    → s.admins p ≡ some a
    → admin_finalize p s ≡ done success (record s { admins = update s.admins p none })
unfolding admin_finalize
finalize_live s p a nonnull e = ground arith

finalize_gone : (s : Admins) (p : ℕ) → 1 ≤ p → s.admins p ≡ none → admin_finalize p s ≡ ub s
unfolding admin_finalize
finalize_gone s p nonnull e = ground arith

-- An admin object that is initialised where memory can be had is a new one for the Margo instance;
-- finalizing it succeeds and leaves every address as it was before, and finalizing it twice frees
-- an address that holds no object. The next free address of the process is not NULL, and holds none.
pub init-finalize :
    (s : Admins) (mid : ℕ)
    → 1 ≤ s.fresh
    → s.admins s.fresh ≡ none
    → (a : ℕ) × (v u : Admins) × (admin_init true mid s ≡ done (success, some a) v)
      × (v.admins a ≡ some (record { mid = mid }))
      × (admin_finalize a v ≡ done success u)
      × ((b : ℕ) → u.admins b ≡ s.admins b)
      × (admin_finalize a u ≡ ub u)
unfolding admin_init
init-finalize s mid started free =
    let a : Admin = record { mid = mid } in
    let v : Admins = record { admins = update s.admins s.fresh (some a); fresh = suc s.fresh } in
    let u : Admins = record v { admins = update v.admins s.fresh none } in
    (
      s.fresh,
      v,
      u,
      refl,
      update_self s.admins s.fresh (some a),
      finalize_live v s.fresh a started (update_self s.admins s.fresh (some a)),
      λ b. update-back s.admins s.fresh (some a) b free,
      finalize_gone u s.fresh started (update_self v.admins s.fresh none),
    )
