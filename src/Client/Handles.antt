-- ===== src/Client/Handles.antt =====
-- src/client.h and the functions of src/client.c on clients and on reference-counted stream handles.
pub mod Counts
pub mod References
pub mod Refusals
pub mod Kept
pub mod Decisions
pub mod Sequences
use aggregator.Base.{
  ℕ, suc, ◌+◌, ◌-◌, ◌^◌, List, [], ◌∷◌, Option, none, some, u64, ◌==◌, if◌then◌else◌, M, Outcome,
  done, ub, pure, fault, and_then, ◌>>=◌, ◌>>◌,
}
use aggregator.Common.{ReturnCode, success, err_invalid_args, err_from_mercury}
use aggregator.Memory.{update}

-- `aggregator_client`
pub record Client : Type 0 where
  pub mid : ℕ
  pub stream_fetch_id : ℕ
  pub list_streams_id : ℕ
  pub num_stream_handles : ℕ

-- `aggregator_stream_handle`; `client` is an address.
pub record Handle : Type 0 where
  pub client : ℕ
  pub addr : ℕ
  pub provider_id : ℕ
  pub refcount : ℕ
  pub stream_id : ℕ

-- The objects of the clients, by address. NULL is 0.
pub record Store : Type 0 where
  pub clients : ℕ → Option Client
  pub handles : List (ℕ × Handle)
  pub fresh : ℕ

abbrev pub lookup_handle : ℕ → List (ℕ × Handle) → Option Handle
lookup_handle p [] = none
lookup_handle p ((q, h) ∷ hs) = if q == p then some h else lookup_handle p hs

abbrev pub set_handle : ℕ → Handle → List (ℕ × Handle) → List (ℕ × Handle)
set_handle p h [] = []
set_handle p h ((q, g) ∷ hs) = if q == p then (q, h) ∷ hs else (q, g) ∷ set_handle p h hs

abbrev pub drop_handle : ℕ → List (ℕ × Handle) → List (ℕ × Handle)
drop_handle p [] = []
drop_handle p ((q, g) ∷ hs) = if q == p then hs else (q, g) ∷ drop_handle p hs

abbrev or_fault : {A : Type 0} → Option A → M Store A
or_fault none = fault
or_fault (some a) = pure a

unfoldable pub load_client : ℕ → M Store Client
load_client c st = or_fault (st.clients c) st

unfoldable pub load_handle : ℕ → M Store Handle
load_handle p st = or_fault (lookup_handle p st.handles) st

unfoldable pub store_client : ℕ → Client → M Store (Unit {0})
store_client c cl st = done tt (record st { clients = update st.clients c (some cl) })

unfoldable pub store_handle : ℕ → Handle → M Store (Unit {0})
store_handle p h st = done tt (record st { handles = set_handle p h st.handles })

unfoldable pub free_handle : ℕ → M Store (Unit {0})
free_handle p st = done tt (record st { handles = drop_handle p st.handles })

-- A handle at the next address, which was never in use.
unfoldable pub calloc_handle : Handle → M Store ℕ
calloc_handle h st =
    done st.fresh (record st { handles = (st.fresh, h) ∷ st.handles; fresh = suc st.fresh })

-- `duplicate` is what `margo_addr_dup` stores, or `none` when it fails; then the handle is freed again.
unfoldable pub remote_stream_handle_create : ℕ → Option ℕ → ℕ → ℕ → M Store (ReturnCode × Option ℕ)
remote_stream_handle_create client duplicate provider_id stream_id =
    if client == 0 then pure (err_invalid_args, none) else (do
      cl ← load_client client
      elim duplicate [
        | none ↦ pure (err_from_mercury, none)
        | some addr ↦ (do
          rh ← calloc_handle (record {
            client = client;
            addr = addr;
            provider_id = provider_id;
            refcount = 1;
            stream_id = stream_id;
          })
          store_client client (record cl { num_stream_handles = u64 (cl.num_stream_handles + 1) })
          pure (success, some rh))
      ])

unfoldable pub remote_stream_handle_ref_incr : ℕ → M Store ReturnCode
remote_stream_handle_ref_incr handle = if handle == 0 then pure err_invalid_args else (do
  h ← load_handle handle
  store_handle handle (record h { refcount = u64 (h.refcount + 1) })
  pure success)

-- The last reference is given up. The duplicated address is the runtime's to free.
unfoldable pub released : ℕ → ℕ → M Store ReturnCode
released client handle = do
  cl ← load_client client
  store_client client (record cl { num_stream_handles = u64 (cl.num_stream_handles + 2 ^ 64 - 1) })
  free_handle handle
  pure success

-- The counters wrap below zero.
unfoldable pub remote_stream_handle_release : ℕ → M Store ReturnCode
remote_stream_handle_release handle =
    if handle == 0
    then pure err_invalid_args
    else load_handle handle >>= λ h.
        store_handle handle (record h { refcount = u64 (h.refcount + 2 ^ 64 - 1) })
        >> (if u64 (h.refcount + 2 ^ 64 - 1) == 0 then released h.client handle else pure success)

-- Freeing the client succeeds, with a warning on the error output when handles are left.
unfoldable pub client_finalize : ℕ → M Store ReturnCode
client_finalize client = do
  _ ← load_client client
  λ st. done success (record st { clients = update st.clients client none })
