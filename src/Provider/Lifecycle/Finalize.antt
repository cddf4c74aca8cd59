-- ===== src/Provider/Lifecycle/Finalize.antt =====
-- What the destruction of a provider does before it goes wrong.
use aggregator.Base.{
  ℕ, ◌≡◌, refl, ap, ◌∙◌, ℕ_discrete, Option, none, some, done, ub, pure, >>=-eq-done, arith,
}
use aggregator.Common.{success}
use aggregator.Memory.{update, update_self}
use aggregator.Uthash.{Uthash}
use aggregator.Margo.{Margo, Rpc, remote_stream_fetch, remote_list_streams}
use aggregator.Provider.{Provider, World, remove_all_streams, destroy_all_streams}
use aggregator.Provider.Validity.{IsValid}
use aggregator.Provider.Destroy.{IsEmptied, destroy_all_lem}
use aggregator.Provider.Lifecycle.{
  Process, load_provider, change_margo, remove_streams_of, free_provider, finalize_provider,
  provider_destroy,
}
use aggregator.Provider.Lifecycle.Register.{IsServed}

module _ ⦃H : Uthash⦄ where
  -- Removing all streams of a valid world.
  remove_all_lem :
      (w : World)
      → IsValid w
      → (v : World) × (remove_all_streams w ≡ done tt v)
        × IsEmptied w (H.items w.provider.streams) v
  unfolding destroy_all_streams
  remove_all_lem w ok =
      let (v, e, valid, emptied, zeroed) = destroy_all_lem w ok in
      let (a, t, first, rest) = >>=-eq-done (remove_all_streams w) (λ _. pure success) e in
      let same : t ≡ v = cc in (v, first ∙ ap (done a) same, emptied)

module _ ⦃H : Uthash⦄ ⦃G : Margo⦄ where
  abbrev withdrawn : G.Instance → ℕ → Provider → G.Instance
  withdrawn i p provider =
      G.deregister (G.deregister (G.pop_callback i p) provider.stream_fetch_id)
        provider.list_streams_id

  remove_streams_of_lem :
      (s : Process) (p : ℕ) (provider : Provider) (w : World)
      → s.providers p ≡ some provider
      → remove_all_streams (record { heap = s.heap; provider = provider }) ≡ done tt w
      → remove_streams_of p s
        ≡ done tt (record s { heap = w.heap; providers = update s.providers p (some w.provider) })
  unfolding remove_streams_of
  remove_streams_of_lem s p provider w there e = ground arith

  destroy_effect :
      (s : Process) (p : ℕ) (provider : Provider) (w : World)
      → s.providers p ≡ some provider
      → remove_all_streams (record { heap = s.heap; provider = provider }) ≡ done tt w
      → provider_destroy p s
        ≡ ub (record {
          margo = withdrawn s.margo p provider;
          providers = update (update s.providers p (some w.provider)) p none;
          heap = w.heap;
        })
  unfolding provider_destroy finalize_provider load_provider change_margo free_provider
  destroy_effect s p provider w there e =
      let changed : Process = record s { margo = withdrawn s.margo p provider } in
      ground (
        arith,
        remove_streams_of_lem changed p provider w there e,
        update_self (update s.providers p (some w.provider)) p none,
      )

  -- The second of two identifiers that are deregistered is gone, also where they are the same.
  deregistered_last :
      (i : G.Instance) (a b : ℕ) (n : Rpc) (k : Option ℕ)
      → G.registered i n k ≡ some b
      → G.registered (G.deregister (G.deregister i a) b) n k ≡ none
  deregistered_last i a b n k e = elim (ℕ_discrete a b) [
    | yes same ↦ G.registered-deregister_none _ b n k (G.registered-deregister i a n k (rw same e))
    | no apart ↦ G.registered-deregister _ b n k (G.registered-deregister_other i a b n k e apart)
  ]

  -- Destroying a valid provider that is served takes both its procedures out of the registry, frees
  -- all the streams of its table, and frees the provider; then it reads the provider once more, for a
  -- message.
  pub destroy_reads_freed :
      (s : Process) (p : ℕ) (provider : Provider)
      → IsServed s p provider
      → IsValid (record { heap = s.heap; provider = provider })
      → (v : Process) × (w : World) × (provider_destroy p s ≡ ub v)
        × (G.registered v.margo remote_stream_fetch (some provider.provider_id) ≡ none)
        × (G.registered v.margo remote_list_streams (some provider.provider_id) ≡ none)
        × (v.providers p ≡ none)
        × (v.heap ≡ w.heap)
        × IsEmptied (record { heap = s.heap; provider = provider }) (H.items provider.streams) w
  destroy_reads_freed s p provider served ok =
      let (w, removed, emptied) =
        remove_all_lem (record { heap = s.heap; provider = provider }) ok in
      let popped = G.pop_callback s.margo p in
      let k = some provider.provider_id in
      let fetch = G.registered-pop_callback s.margo p remote_stream_fetch k ∙ served.fetch in
      let list = G.registered-pop_callback s.margo p remote_list_streams k ∙ served.list in
      (
        record {
          margo = withdrawn s.margo p provider;
          providers = update (update s.providers p (some w.provider)) p none;
          heap = w.heap;
        },
        w,
        destroy_effect s p provider w served.there removed,
        G.registered-deregister_none _ provider.list_streams_id remote_stream_fetch k
            (G.registered-deregister popped provider.stream_fetch_id remote_stream_fetch k fetch),
        deregistered_last popped provider.stream_fetch_id provider.list_streams_id
            remote_list_streams k list,
        update_self (update s.providers p (some w.provider)) p none,
        refl,
        emptied,
      )
