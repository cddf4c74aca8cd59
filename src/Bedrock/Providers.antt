-- ===== src/Bedrock/Providers.antt =====
-- A provider that Bedrock starts and stops.
use aggregator.Base.{ℕ, ◌≡◌, refl, [], none, some, true, done, ub}
use aggregator.Common.{success}
use aggregator.Uthash.{Uthash}
use aggregator.Margo.{Margo, remote_stream_fetch, remote_list_streams}
use aggregator.Provider.{Provider}
use aggregator.Provider.Validity.{IsHeap}
use aggregator.Provider.Lifecycle.{Process}
use aggregator.Provider.Lifecycle.Register.{
  IsServed, provider_of, registered_process, register_effect, registered-IsServed,
  registered-IsValid,
}
use aggregator.Provider.Lifecycle.Finalize.{destroy_reads_freed}
use aggregator.Bedrock.{BedrockArgs, aggregator_args, register_provider, deregister_provider}

module _ ⦃H : Uthash⦄ ⦃G : Margo⦄ where
  -- In a process with a valid heap, on a Margo instance that listens and under an identifier that is
  -- free, Bedrock's registration succeeds: the provider has the Margo instance, the pool and the
  -- ABT-IO instance of Bedrock's arguments and no streams, and both of its procedures lead to it.
  -- Bedrock's deregistration of that provider takes both procedures out again and frees it, and
  -- then reads it once more.
  pub register-deregister :
      (s : Process) (args : BedrockArgs)
      → IsHeap s.heap
      → G.listening s.margo ≡ true
      → G.registered s.margo remote_stream_fetch (some args.provider_id) ≡ none
      → (v u : Process) × (p : ℕ) × (provider : Provider) × (register_provider args s
          ≡ done (success, some p) v)
        × IsServed v p provider
        × (provider.provider_id ≡ args.provider_id)
        × (provider.mid ≡ args.margo_instance)
        × (provider.pool ≡ args.pool)
        × (provider.abtio ≡ args.abt_io)
        × (H.items provider.streams ≡ [])
        × (deregister_provider p v ≡ ub u)
        × (G.registered u.margo remote_stream_fetch (some args.provider_id) ≡ none)
        × (G.registered u.margo remote_list_streams (some args.provider_id) ≡ none)
        × (u.providers p ≡ none)
  unfolding register_provider deregister_provider
  register-deregister s args h up free =
      let a = aggregator_args args in
      let k = args.provider_id in
      let mid = args.margo_instance in
      let p = s.heap.fresh in
      let v = registered_process s mid k a in
      let provider = provider_of s.margo k p mid a in
      let served = registered-IsServed s mid k a in
      let (u, w, read, fetch, list, gone, same, emptied) =
        destroy_reads_freed v p provider served (registered-IsValid s mid k a h) in
      (
        v,
        u,
        p,
        provider,
        register_effect s mid k (some a) up free,
        served,
        refl,
        refl,
        refl,
        refl,
        H.items-empty,
        read,
        fetch,
        list,
        gone,
      )
