-- ===== src/Client/Handles/Refusals.antt =====
-- The calls on handles that are refused, or that follow a pointer to no object.
use aggregator.Base.{ℕ, ◌≤◌, ◌≡◌, Option, none, some, arith, done, ub}
use aggregator.Common.{success, err_invalid_args, err_from_mercury}
use aggregator.Memory.{update}
use aggregator.Client.Handles.{
  Client, Handle, Store, lookup_handle, load_client, load_handle, remote_stream_handle_create,
  remote_stream_handle_ref_incr, remote_stream_handle_release, released, store_handle,
  client_finalize,
}
use aggregator.Client.Handles.Counts.{given_up}

pub create_null :
    (st : Store) (duplicate : Option ℕ) (provider_id stream_id : ℕ)
    → remote_stream_handle_create 0 duplicate provider_id stream_id st
      ≡ done (err_invalid_args, none) st
unfolding remote_stream_handle_create
create_null st duplicate provider_id stream_id = ground arith

pub create_gone :
    (st : Store) (c : ℕ) (duplicate : Option ℕ) (provider_id stream_id : ℕ)
    → 1 ≤ c
    → st.clients c ≡ none
    → remote_stream_handle_create c duplicate provider_id stream_id st ≡ ub st
unfolding remote_stream_handle_create load_client
create_gone st c duplicate provider_id stream_id nonnull e = ground arith

pub create_no_addr :
    (st : Store) (c provider_id stream_id : ℕ) (cl : Client)
    → 1 ≤ c
    → st.clients c ≡ some cl
    → remote_stream_handle_create c none provider_id stream_id st ≡ done (err_from_mercury, none) st
unfolding remote_stream_handle_create load_client
create_no_addr st c provider_id stream_id cl nonnull e = ground arith

pub incr_null : (st : Store) → remote_stream_handle_ref_incr 0 st ≡ done err_invalid_args st
unfolding remote_stream_handle_ref_incr
incr_null st = ground arith

pub incr_gone :
    (st : Store) (p : ℕ)
    → 1 ≤ p
    → lookup_handle p st.handles ≡ none
    → remote_stream_handle_ref_incr p st ≡ ub st
unfolding remote_stream_handle_ref_incr load_handle
incr_gone st p nonnull e = ground arith

pub release_null : (st : Store) → remote_stream_handle_release 0 st ≡ done err_invalid_args st
unfolding remote_stream_handle_release
release_null st = ground arith

pub release_gone :
    (st : Store) (p : ℕ)
    → 1 ≤ p
    → lookup_handle p st.handles ≡ none
    → remote_stream_handle_release p st ≡ ub st
unfolding remote_stream_handle_release load_handle
release_gone st p nonnull e = ground arith

-- The last release of a handle whose client has been freed.
pub release_late :
    (st : Store) (p : ℕ) (h : Handle)
    → 1 ≤ p
    → lookup_handle p st.handles ≡ some h
    → h.refcount ≡ 1
    → st.clients h.client ≡ none
    → remote_stream_handle_release p st ≡ ub (given_up st p h)
unfolding remote_stream_handle_release load_handle store_handle released load_client
release_late st p h nonnull e one gone = ground arith

pub finalize_gone : (st : Store) (c : ℕ) → st.clients c ≡ none → client_finalize c st ≡ ub st
unfolding client_finalize load_client
finalize_gone st c gone = ground arith

pub finalize_lem :
    (st : Store) (c : ℕ) (cl : Client)
    → st.clients c ≡ some cl
    → client_finalize c st ≡ done success (record st { clients = update st.clients c none })
unfolding client_finalize load_client
finalize_lem st c cl there = ground arith
