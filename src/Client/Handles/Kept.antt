-- ===== src/Client/Handles/Kept.antt =====
-- What keeps the counts of a store right.
use aggregator.Base.{
  ℕ, suc, ◌^◌, ◌≤◌, ◌<◌, ◌≡◌, refl, sym, ap, ◌∙◌, ℕ_discrete, none, some, arith, u64,
}
use aggregator.Memory.{update, update_self, update_ne}
use aggregator.Client.Handles.{Client, Handle, Store, lookup_handle, set_handle}
use aggregator.Client.Handles.Counts.{
  IsCounted, created, freed, created-counted, freed-counted, Live-set, Live-drop, Live-later,
  held-set,
}
use aggregator.Client.Handles.References.{new_handle}

module _ (n : ℕ) (st : Store) (v : IsCounted n st) where
  pub later : IsCounted (suc n) st
  later = record {
    counted = v.counted;
    live = Live-later st.fresh st.fresh n (suc n) st.handles (omega arith) (omega arith) v.live;
    started = v.started;
  }

  pub created-IsCounted :
      (c addr provider_id stream_id : ℕ) (cl : Client)
      → st.clients c ≡ some cl
      → IsCounted (suc n) (created st c cl (new_handle c addr provider_id stream_id))
  created-IsCounted c addr provider_id stream_id cl e = record {
    counted = created-counted n st c cl (new_handle c addr provider_id stream_id) v e refl;
    live = (
      (v.started, omega arith, omega arith, omega arith),
      Live-later st.fresh (suc st.fresh) n (suc n) st.handles (omega arith) (omega arith) v.live,
    );
    started = omega arith;
  }

  pub finalized-IsCounted :
      (c : ℕ) → IsCounted (suc n) (record st { clients = update st.clients c none })
  finalized-IsCounted c = record {
    counted = λ d dl e. elim (ℕ_discrete c d) [
      | yes same ↦
          let gone : none ≡ some dl =
            sym (update_self st.clients c none) ∙ ap (update st.clients c none) same ∙ e in
          absurd (cc)
      | no apart ↦ v.counted d dl (sym (update_ne st.clients c none d apart) ∙ e)
    ];
    live = later.live;
    started = v.started;
  }

  module _ (p : ℕ) (h : Handle) (found : lookup_handle p st.handles ≡ some h)
      (small : suc n < 2 ^ 64) where
    pub changed-IsCounted :
        (k : ℕ)
        → 1 ≤ k
        → k ≤ suc n
        → IsCounted
            (suc n)
            (record st { handles = set_handle p (record h { refcount = k }) st.handles })
    changed-IsCounted k low high = record {
      counted = λ d dl e.
          v.counted d dl e
          ∙ ap u64 (sym (held-set d p h (record h { refcount = k }) st.handles found refl));
      live = Live-set st.fresh (suc n) p (record h { refcount = k }) st.handles low high later.live;
      started = v.started;
    }

    pub freed-IsCounted :
        (cl : Client) → st.clients h.client ≡ some cl → IsCounted (suc n) (freed st p h cl)
    freed-IsCounted cl e = record {
      counted = freed-counted n st p h cl v found e;
      live = Live-drop st.fresh (suc n) p st.handles later.live;
      started = v.started;
    }
