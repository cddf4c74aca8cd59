-- ===== src/Client/Init.antt =====
-- `aggregator_client_init`: the client's procedures in the registry of Margo.
use aggregator.Base.{
  ℕ, suc, ◌≡◌, ◌≢◌, refl, ◌∙◌, Option, Option-cases, inl, inr, none, some, M, relay, done, ub,
  arith,
}
use aggregator.Common.{ReturnCode, success}
use aggregator.Memory.{update, update_self, update_ne}
use aggregator.Margo.{Margo, remote_stream_fetch, remote_list_streams}
use aggregator.Client.Handles.{Client, Store}

abbrev or_zero : Option ℕ → ℕ
or_zero none = 0
or_zero (some id) = id

module _ ⦃G : Margo⦄ where
  -- The clients of a process, and its Margo instance.
  pub record ClientProcess : Type 0 where
    pub margo : G.Instance
    pub store : Store

  -- Code that touches the clients alone.
  abbrev pub in_store : {B : Type 0} → M Store B → M ClientProcess B
  in_store f s = relay (λ st. record s { store = st }) (f s.store)

  -- The two identifiers, looked up where the first is registered, and registered otherwise. A name
  -- that is not found leaves the member at the zero of `calloc`.
  unfoldable pub rpc_ids : M G.Instance (ℕ × ℕ)
  rpc_ids i = elim (G.registered i remote_stream_fetch none) [
    | some id ↦ done (id, or_zero (G.registered i remote_list_streams none)) i
    | none ↦
        let fetch = G.register i remote_stream_fetch none in
        let list = G.register fetch.1 remote_list_streams none in done (fetch.0, list.0) list.1
  ]

  -- The result is the return code and what is stored to `*client`.
  unfoldable pub client_init : ℕ → M ClientProcess (ReturnCode × ℕ)
  client_init mid s = elim (rpc_ids s.margo) [
    | ub i ↦ ub (record s { margo = i })
    | done ids i ↦
        done (success, s.store.fresh)
          (record {
            margo = i;
            store = record s.store {
              clients = update s.store.clients s.store.fresh (
                  some (record {
                    mid = mid;
                    stream_fetch_id = ids.0;
                    list_streams_id = ids.1;
                    num_stream_handles = 0;
                  }));
              fresh = suc s.store.fresh;
            };
          })
  ]

  rpc_ids_found :
      (j : G.Instance) (a b : ℕ)
      → G.registered j remote_stream_fetch none ≡ some a
      → G.registered j remote_list_streams none ≡ some b
      → rpc_ids j ≡ done (a, b) j
  unfolding rpc_ids
  rpc_ids_found j a b fetch list = ground arith

  -- A client that has the two identifiers, and no handles yet.
  abbrev pub client_with : ℕ → ℕ × ℕ → Client
  client_with mid ids = record {
    mid = mid;
    stream_fetch_id = ids.0;
    list_streams_id = ids.1;
    num_stream_handles = 0;
  }

  abbrev pub started : ClientProcess → ℕ → ℕ × ℕ → G.Instance → ClientProcess
  started s mid ids i = record {
    margo = i;
    store = record s.store {
      clients = update s.store.clients s.store.fresh (some (client_with mid ids));
      fresh = suc s.store.fresh;
    };
  }

  pub client_init_lem :
      (s : ClientProcess) (mid : ℕ) (ids : ℕ × ℕ) (i : G.Instance)
      → rpc_ids s.margo ≡ done ids i
      → client_init mid s ≡ done (success, s.store.fresh) (started s mid ids i)
  unfolding client_init
  client_init_lem s mid ids i e = ground arith

  module _ (i : G.Instance) where
    abbrev fetch_part : ℕ × G.Instance
    fetch_part = G.register i remote_stream_fetch none

    abbrev list_part : ℕ × G.Instance
    list_part = G.register fetch_part.1 remote_list_streams none

    rpc_ids_new :
        G.registered i remote_stream_fetch none ≡ none
        → rpc_ids i ≡ done (fetch_part.0, list_part.0) list_part.1
    unfolding rpc_ids
    rpc_ids_new free = ground arith

    rpc_ids_again : rpc_ids list_part.1 ≡ done (fetch_part.0, list_part.0) list_part.1
    rpc_ids_again =
        rpc_ids_found list_part.1 fetch_part.0 list_part.0
          (G.registered-register_other fetch_part.1 remote_list_streams remote_stream_fetch none
              none (λ e. cc)
            ∙ G.registered-register i remote_stream_fetch none)
          (G.registered-register fetch_part.1 remote_list_streams none)

  rpc_ids_first :
      (i : G.Instance) (id : ℕ)
      → G.registered i remote_stream_fetch none ≡ some id
      → rpc_ids i ≡ done (id, or_zero (G.registered i remote_list_streams none)) i
  unfolding rpc_ids
  rpc_ids_first i id there = ground arith

  -- Looking the procedures up, or registering them, always ends.
  pub rpc_ids-total : (i : G.Instance) → (ids : ℕ × ℕ) × (j : G.Instance) × (rpc_ids i ≡ done ids j)
  rpc_ids-total i = elim (Option-cases (G.registered i remote_stream_fetch none)) [
    | inl free ↦ (((fetch_part i).0, (list_part i).0), (list_part i).1, rpc_ids_new i free)
    | inr (id, there) ↦
        ((id, or_zero (G.registered i remote_list_streams none)), i, rpc_ids_first i id there)
  ]

  -- Two clients that are initialised one after the other on an instance where the procedures are not
  -- registered yet are different objects with the same two identifiers and no handles, and the
  -- second one registers nothing.
  init-shared :
      (s : ClientProcess) (mid mid' : ℕ)
      → G.registered s.margo remote_stream_fetch none ≡ none
      → (c d : ℕ) × (ids : ℕ × ℕ) × (v u : ClientProcess) × (client_init mid s
          ≡ done (success, c) v)
        × (client_init mid' v ≡ done (success, d) u)
        × (c ≢ d)
        × (u.store.clients c ≡ some (client_with mid ids))
        × (u.store.clients d ≡ some (client_with mid' ids))
        × (u.margo ≡ v.margo)
  init-shared s mid mid' free =
      let ids : ℕ × ℕ = ((fetch_part s.margo).0, (list_part s.margo).0) in
      let i = (list_part s.margo).1 in
      let v = started s mid ids i in
      (
        s.store.fresh,
        suc s.store.fresh,
        ids,
        v,
        started v mid' ids i,
        client_init_lem s mid ids i (rpc_ids_new s.margo free),
        client_init_lem v mid' ids i (rpc_ids_again s.margo),
        omega arith,
        update_ne v.store.clients (suc s.store.fresh) (some (client_with mid' ids)) s.store.fresh
              (omega arith)
            ∙ update_self s.store.clients s.store.fresh (some (client_with mid ids)),
        update_self v.store.clients (suc s.store.fresh) (some (client_with mid' ids)),
        refl,
      )
