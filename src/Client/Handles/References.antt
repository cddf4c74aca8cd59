-- ===== src/Client/Handles/References.antt =====
-- The calls on handles, one by one and in sequences.
use aggregator.Base.{
  ℕ, zero, suc, ◌+◌, ◌-◌, ◌^◌, ◌≤◌, ◌<◌, ◌≡◌, refl, ap, ◌∙◌, List, [], ◌∷◌, some, arith, u64, M,
  done, pure, ◌>>=◌,
}
use aggregator.Common.{success}
use aggregator.Client.Handles.{
  Client, Handle, Store, lookup_handle, set_handle, load_client, load_handle, store_client,
  store_handle, free_handle, calloc_handle, remote_stream_handle_create,
  remote_stream_handle_ref_incr, released, remote_stream_handle_release,
}
use aggregator.Client.Handles.Counts.{created, given_up, freed, drop-set}

-- A new handle of the client.
abbrev pub new_handle : ℕ → ℕ → ℕ → ℕ → Handle
new_handle client addr provider_id stream_id = record {
  client = client;
  addr = addr;
  provider_id = provider_id;
  refcount = 1;
  stream_id = stream_id;
}

pub create_lem :
    (st : Store) (c addr provider_id stream_id : ℕ) (cl : Client)
    → 1 ≤ c
    → st.clients c ≡ some cl
    → remote_stream_handle_create c (some addr) provider_id stream_id st
      ≡ done (success, some st.fresh) (created st c cl (new_handle c addr provider_id stream_id))
unfolding remote_stream_handle_create load_client calloc_handle store_client
create_lem st c addr provider_id stream_id cl nonnull e = ground arith

abbrev pub shared : Store → ℕ → Handle → Store
shared st p h = record st {
  handles = set_handle p (record h { refcount = u64 (h.refcount + 1) }) st.handles;
}

pub incr_lem :
    (st : Store) (p : ℕ) (h : Handle)
    → 1 ≤ p
    → lookup_handle p st.handles ≡ some h
    → remote_stream_handle_ref_incr p st ≡ done success (shared st p h)
unfolding remote_stream_handle_ref_incr load_handle store_handle
incr_lem st p h nonnull e = ground arith

pub release_shared :
    (st : Store) (p : ℕ) (h : Handle)
    → 1 ≤ p
    → lookup_handle p st.handles ≡ some h
    → 2 ≤ h.refcount
    → h.refcount < 2 ^ 64
    → remote_stream_handle_release p st ≡ done success (given_up st p h)
unfolding remote_stream_handle_release load_handle store_handle
release_shared st p h nonnull e two small = ground arith

pub release_last :
    (st : Store) (p : ℕ) (h : Handle) (cl : Client)
    → 1 ≤ p
    → lookup_handle p st.handles ≡ some h
    → h.refcount ≡ 1
    → st.clients h.client ≡ some cl
    → remote_stream_handle_release p st ≡ done success (freed st p h cl)
unfolding remote_stream_handle_release load_handle store_handle released load_client store_client
    free_handle
release_last st p h cl nonnull e one f =
    ground (arith, drop-set p (record h { refcount = u64 (h.refcount + 2 ^ 64 - 1) }) st.handles)

-- A number of releases of one handle.
unfoldable pub releases : ℕ → ℕ → M Store (Unit {0})
releases zero p = pure tt
releases (suc k) p = remote_stream_handle_release p >>= λ _. releases k p

lookup-set :
    (p : ℕ) (h g : Handle) (hs : List (ℕ × Handle))
    → lookup_handle p hs ≡ some h
    → lookup_handle p (set_handle p g hs) ≡ some g
lookup-set p h g [] e = cc
lookup-set p h g ((q, k) ∷ hs) e = ground (arith, lookup-set p h g hs)

-- The store without the handle, given that its references are down to one.
freed-given_up :
    (st : Store) (p : ℕ) (h : Handle) (cl : Client)
    → freed (given_up st p h) p (record h { refcount = u64 (h.refcount + 2 ^ 64 - 1) }) cl
      ≡ freed st p h cl
freed-given_up st p h cl =
    ap (λ hs. record { clients = (freed st p h cl).clients; handles = hs; fresh = st.fresh })
      (drop-set p (record h { refcount = u64 (h.refcount + 2 ^ 64 - 1) }) st.handles)

-- Releasing a handle as often as it has references frees it, and counts one handle less for its
-- client; all other handles and clients stay as they were.
pub releases-freed :
    (r : ℕ) (st : Store) (p : ℕ) (h : Handle) (cl : Client)
    → 1 ≤ p
    → lookup_handle p st.handles ≡ some h
    → h.refcount ≡ suc r
    → suc r < 2 ^ 64
    → st.clients h.client ≡ some cl
    → releases (suc r) p st ≡ done tt (freed st p h cl)
unfolding releases
releases-freed zero st p h cl nonnull e one small f =
    rw (release_last st p h cl nonnull e one f) refl
releases-freed (suc r) st p h cl nonnull e count small f =
    rw (release_shared st p h nonnull e (omega arith) (omega arith)) (
      releases-freed r (given_up st p h) p (record h { refcount = u64 (h.refcount + 2 ^ 64 - 1) })
        cl nonnull (lookup-set p h _ st.handles e) (omega arith) (omega arith) f
      ∙ ap (done tt) (freed-given_up st p h cl))
