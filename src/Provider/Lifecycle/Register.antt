-- ===== src/Provider/Lifecycle/Register.antt =====
-- What the registration of a provider leaves behind.
use aggregator.Base.{
  ℕ, suc, ◌≡◌, refl, ◌∙◌, Bool, true, false, [], Option, none, some, arith, done, if◌then◌else◌,
}
use aggregator.Common.{success, err_invalid_provider}
use aggregator.Memory.{Heap, update, update_self}
use aggregator.Uthash.{Uthash}
use aggregator.Margo.{Margo, Rpc, remote_stream_fetch, remote_list_streams}
use aggregator.Provider.{Provider}
use aggregator.Provider.Validity.{IsHeap, IsValid}
use aggregator.Provider.Lifecycle.{
  ProviderArgs, args_or_init, Process, register_rpc, new_provider, provider_register,
}

later-IsHeap : (h : Heap) → IsHeap h → IsHeap (record h { fresh = suc h.fresh })
later-IsHeap h v = record {
  live = v.live;
  own = v.own;
  named = v.named;
  no_stream = λ p le. v.no_stream p (omega arith);
  no_buffer = λ b le. v.no_buffer b (omega arith);
}

module _ ⦃H : Uthash⦄ ⦃G : Margo⦄ where
  -- The provider at `p` is the one that both procedures of its identifier lead to.
  pub record IsServed (s : Process) (p : ℕ) (provider : Provider) : Type 0 where
    pub there : s.providers p ≡ some provider
    pub fetch :
        G.registered s.margo remote_stream_fetch (some provider.provider_id)
        ≡ some provider.stream_fetch_id
    pub list :
        G.registered s.margo remote_list_streams (some provider.provider_id)
        ≡ some provider.list_streams_id
    pub fetch_data : G.data_of s.margo provider.stream_fetch_id ≡ some p
    pub list_data : G.data_of s.margo provider.list_streams_id ≡ some p

  module _ (i : G.Instance) (k p : ℕ) where
    abbrev fetch_id : ℕ
    fetch_id = (G.register i remote_stream_fetch (some k)).0

    abbrev with_fetch : G.Instance
    with_fetch = G.set_data (G.register i remote_stream_fetch (some k)).1 fetch_id p

    abbrev list_id : ℕ
    list_id = (G.register with_fetch remote_list_streams (some k)).0

    abbrev with_both : G.Instance
    with_both = G.set_data (G.register with_fetch remote_list_streams (some k)).1 list_id p

    abbrev finished : Bool → G.Instance
    finished push = if push then G.push_callback with_both p else with_both

    finished-registered :
        (push : Bool) (n : Rpc)
        → G.registered (finished push) n (some k) ≡ G.registered with_both n (some k)
    finished-registered true n = G.registered-push_callback with_both p n (some k)
    finished-registered false n = refl

    finished-data_of :
        (push : Bool) (id : ℕ) → G.data_of (finished push) id ≡ G.data_of with_both id
    finished-data_of true id = G.data_of-push_callback with_both p id
    finished-data_of false id = refl

    fetch-with_both : G.registered with_both remote_stream_fetch (some k) ≡ some fetch_id
    fetch-with_both =
        G.registered-set_data _ list_id p remote_stream_fetch (some k)
        ∙ G.registered-register_other with_fetch remote_list_streams remote_stream_fetch (some k)
            (some k) (λ e. cc)
        ∙ G.registered-set_data _ fetch_id p remote_stream_fetch (some k)
        ∙ G.registered-register i remote_stream_fetch (some k)

    list-with_both : G.registered with_both remote_list_streams (some k) ≡ some list_id
    list-with_both =
        G.registered-set_data _ list_id p remote_list_streams (some k)
        ∙ G.registered-register with_fetch remote_list_streams (some k)

    fetch_data-with_both : G.data_of with_both fetch_id ≡ some p
    fetch_data-with_both = G.data_of-set_data_other _ list_id fetch_id p (
        G.data_of-register with_fetch remote_list_streams (some k) fetch_id p
          (G.data_of-set_data _ fetch_id p))

    abbrev pub provider_of : ℕ → ProviderArgs → Provider
    provider_of mid a = record {
      mid = mid;
      provider_id = k;
      pool = a.pool;
      abtio = a.abtio;
      num_streams = 0;
      streams = H.empty;
      list_streams_id = list_id;
      stream_fetch_id = fetch_id;
    }

  abbrev pub registered_process : Process → ℕ → ℕ → ProviderArgs → Process
  registered_process s mid k a = record {
    margo = finished s.margo k s.heap.fresh a.push_finalize_callback;
    providers = update s.providers s.heap.fresh (some (provider_of s.margo k s.heap.fresh mid a));
    heap = record s.heap { fresh = suc s.heap.fresh };
  }

  pub register_effect :
      (s : Process) (mid k : ℕ) (args : Option ProviderArgs)
      → G.listening s.margo ≡ true
      → G.registered s.margo remote_stream_fetch (some k) ≡ none
      → provider_register mid k args s
        ≡ done (success, some s.heap.fresh) (registered_process s mid k (args_or_init args))
  unfolding provider_register new_provider register_rpc
  register_effect s mid k args up free = rw (up, free) refl

  pub registered-IsServed :
      (s : Process) (mid k : ℕ) (a : ProviderArgs)
      → IsServed
          (registered_process s mid k a)
          s.heap.fresh
          (provider_of s.margo k s.heap.fresh mid a)
  registered-IsServed s mid k a =
      let i = s.margo in
      let p = s.heap.fresh in
      let push = a.push_finalize_callback in
      record {
        there = update_self s.providers p _;
        fetch = finished-registered i k p push remote_stream_fetch ∙ fetch-with_both i k p;
        list = finished-registered i k p push remote_list_streams ∙ list-with_both i k p;
        fetch_data = finished-data_of i k p push _ ∙ fetch_data-with_both i k p;
        list_data = finished-data_of i k p push _ ∙ G.data_of-set_data _ (list_id i k p) p;
      }

  pub registered-IsValid :
      (s : Process) (mid k : ℕ) (a : ProviderArgs)
      → IsHeap s.heap
      → IsValid (record {
        heap = (registered_process s mid k a).heap;
        provider = provider_of s.margo k s.heap.fresh mid a;
      })
  registered-IsValid s mid k a h = record {
    heap_ok = later-IsHeap s.heap h;
    backed = rw H.items-empty tt;
    distinct = rw H.items-empty tt;
    counted = rw H.items-empty refl;
  }

  -- In a process with a valid heap, registering a provider on an instance that listens, under an
  -- identifier that is free, succeeds: the new provider has no streams and is valid, and both of its
  -- procedures are registered and lead to it.
  pub register-IsServed :
      (s : Process) (mid k : ℕ) (args : Option ProviderArgs)
      → IsHeap s.heap
      → G.listening s.margo ≡ true
      → G.registered s.margo remote_stream_fetch (some k) ≡ none
      → (v : Process) × (p : ℕ) × (provider : Provider) × (provider_register mid k args s
          ≡ done (success, some p) v)
        × IsServed v p provider
        × (provider.provider_id ≡ k)
        × (H.items provider.streams ≡ [])
        × IsValid (record { heap = v.heap; provider = provider })
  register-IsServed s mid k args h up free = (
    registered_process s mid k (args_or_init args),
    s.heap.fresh,
    provider_of s.margo k s.heap.fresh mid (args_or_init args),
    register_effect s mid k args up free,
    registered-IsServed s mid k (args_or_init args),
    refl,
    H.items-empty,
    registered-IsValid s mid k (args_or_init args) h,
  )

  refused_taken :
      (s : Process) (mid k id : ℕ) (args : Option ProviderArgs)
      → G.listening s.margo ≡ true
      → G.registered s.margo remote_stream_fetch (some k) ≡ some id
      → provider_register mid k args s ≡ done (err_invalid_provider, none) s
  unfolding provider_register
  refused_taken s mid k id args up taken = rw (up, taken) refl

  -- A provider that is served keeps its identifier: a second registration under it, on an instance
  -- that listens, is refused and changes nothing.
  register-twice :
      (s : Process) (p mid : ℕ) (provider : Provider) (args : Option ProviderArgs)
      → IsServed s p provider
      → G.listening s.margo ≡ true
      → provider_register mid provider.provider_id args s ≡ done (err_invalid_provider, none) s
  register-twice s p mid provider args v up =
      refused_taken s mid provider.provider_id provider.stream_fetch_id args up v.fetch
