-- ===== src/Provider/Lifecycle.antt =====
-- Registration and destruction of a provider: `aggregator_provider_register`,
-- `aggregator_finalize_provider` and `aggregator_provider_destroy` of src/provider.c.
pub mod Register
pub mod Finalize
use aggregator.Base.{
  ℕ, suc, Bool, true, false, List, [], Option, none, some, M, Outcome, done, ub, pure, fault,
  and_then, ◌>>=◌, ◌>>◌, if◌then◌else◌,
}
use aggregator.Common.{CString, ReturnCode, success, err_invalid_args, err_invalid_provider}
use aggregator.Memory.{Heap, update}
use aggregator.Uthash.{Uthash}
use aggregator.Margo.{Margo, Rpc, remote_stream_fetch, remote_list_streams}
use aggregator.Provider.{Provider, World, remove_all_streams}

-- `aggregator_provider_args`, with AGGREGATOR_PROVIDER_ARGS_INIT.
pub record ProviderArgs : Type 0 where
  pub push_finalize_callback : Bool
  pub token : Option CString
  pub config : Option CString
  pub pool : ℕ
  pub abtio : ℕ

abbrev pub args_init : ProviderArgs
args_init = record {
  push_finalize_callback = true;
  token = none;
  config = none;
  pool = 0;
  abtio = 0;
}

abbrev pub args_or_init : Option ProviderArgs → ProviderArgs
args_or_init none = args_init
args_or_init (some args) = args

module _ ⦃H : Uthash⦄ ⦃G : Margo⦄ where
  -- The objects of a process: its Margo instance, its providers by address, and the heap of their streams.
  pub record Process : Type 0 where
    pub margo : G.Instance
    pub providers : ℕ → Option Provider
    pub heap : Heap

  unfoldable pub load_provider : ℕ → M Process Provider
  load_provider p s = elim (s.providers p) [ none ↦ ub s | some provider ↦ done provider s ]

  unfoldable pub change_margo : (G.Instance → G.Instance) → M Process (Unit {0})
  change_margo f s = done tt (record s { margo = f s.margo })

  -- Registration of one procedure, with the provider as its data.
  unfoldable pub register_rpc : Rpc → ℕ → ℕ → M Process ℕ
  register_rpc name provider_id p s =
      let r = G.register s.margo name (some provider_id) in
      done r.0 (record s { margo = G.set_data r.1 r.0 p })

  unfoldable pub new_provider : ℕ → ℕ → ProviderArgs → M Process ReturnCode
  new_provider mid provider_id a s =
      let p = s.heap.fresh in
      and_then
        (λ fetch_id. register_rpc remote_list_streams provider_id p >>= λ list_id t.
          done success (record t {
            margo = if a.push_finalize_callback then G.push_callback t.margo p else t.margo;
            providers = update t.providers p (
                some (record {
                  mid = mid;
                  provider_id = provider_id;
                  pool = a.pool;
                  abtio = a.abtio;
                  num_streams = 0;
                  streams = H.empty;
                  list_streams_id = list_id;
                  stream_fetch_id = fetch_id;
                }));
            heap = record t.heap { fresh = suc t.heap.fresh };
          }))
        (register_rpc remote_stream_fetch provider_id p s)

  -- The result is the return code and what is stored to `*provider`.
  unfoldable pub provider_register : ℕ → ℕ → Option ProviderArgs → M Process (ReturnCode × Option ℕ)
  provider_register mid provider_id args s =
      if G.listening s.margo
      then elim (G.registered s.margo remote_stream_fetch (some provider_id)) [
        | some id ↦ done (err_invalid_provider, none) s
        | none ↦
            and_then (λ code t. done (code, some s.heap.fresh) t)
              (new_provider mid provider_id (args_or_init args) s)
      ]
      else done (err_invalid_args, none) s

  -- `remove_all_streams` on a provider of the process.
  unfoldable pub remove_streams_of : ℕ → M Process (Unit {0})
  remove_streams_of p s = elim (s.providers p) [
    | none ↦ ub s
    | some provider ↦ elim (remove_all_streams (record { heap = s.heap; provider = provider })) [
      | ub w ↦ ub (record s { heap = w.heap; providers = update s.providers p (some w.provider) })
      | done _ w ↦
          done tt (record s { heap = w.heap; providers = update s.providers p (some w.provider) })
    ]
  ]

  unfoldable pub free_provider : ℕ → M Process (Unit {0})
  free_provider p s = done tt (record s { providers = update s.providers p none })

  -- The message at the end reads the Margo instance of the provider that has just been freed.
  unfoldable pub finalize_provider : ℕ → M Process (Unit {0})
  finalize_provider p = do
    provider ← load_provider p
    change_margo (λ i. G.deregister i provider.stream_fetch_id)
    change_margo (λ i. G.deregister i provider.list_streams_id)
    remove_streams_of p
    free_provider p
    _ ← load_provider p
    pure tt

  unfoldable pub provider_destroy : ℕ → M Process ReturnCode
  provider_destroy p = do
    _ ← load_provider p
    change_margo (λ i. G.pop_callback i p)
    finalize_provider p
    pure success
