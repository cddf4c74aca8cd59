-- ===== src/Tests/Clients.antt =====
-- The theorems on stream handles, at concrete inputs.
use aggregator.Base.{
  ℕ, ◌≡◌, ◌↔◌, ◌+◌, refl, sym, ap, ◌∙◌, ℕ_discrete, List, [], ◌∷◌, none, some, arith, done, length,
}
use aggregator.Memory.{update, update_ne}
use aggregator.Client.Handles.{
  Client, Store, remote_stream_handle_create, remote_stream_handle_ref_incr,
  remote_stream_handle_release, client_finalize, load_client, load_handle, store_client,
  store_handle, calloc_handle,
}
use aggregator.Client.Handles.Counts.{IsCounted, freed}
use aggregator.Client.Handles.References.{new_handle, releases, releases-freed}
use aggregator.Client.Handles.Decisions.{HandleCall, opens, shares, closes, finalizes, perform}
use aggregator.Client.Handles.Sequences.{AllProper, perform_all, perform_all-IsCounted}

abbrev client_of : ℕ → Client
client_of n = record { mid = 1; stream_fetch_id = 6; list_streams_id = 5; num_stream_handles = n }

-- A client at 1.
abbrev start : Store
start = record { clients = update (λ c. none) 1 (some (client_of 0)); handles = []; fresh = 2 }

start-IsCounted : IsCounted 0 start
start-IsCounted = record {
  counted = λ c cl e. elim (ℕ_discrete 1 c) [
    | yes same ↦
        let there : some (client_of 0) ≡ some cl = ap start.clients same ∙ e in
        let equal : client_of 0 ≡ cl = cc in sym (ap (λ (x : Client). x.num_stream_handles) equal)
    | no n ↦ cc (update_ne (λ q. none) 1 (some (client_of 0)) c n)
  ];
  live = tt;
  started = omega arith;
}

-- A handle that is shared once and released once, a call on NULL, and the end of the client.
abbrev some_calls : List HandleCall
some_calls = opens 1 (some 30) 4 7 ∷ shares 2 ∷ closes 2 ∷ closes 0 ∷ finalizes 1 ∷ []

abbrev with_handle : ℕ → Store
with_handle r = record {
  clients = update start.clients 1 (some (client_of 1));
  handles = (2, record (new_handle 1 30 4 7) { refcount = r }) ∷ [];
  fresh = 3;
}

perform_all-IsCounted_example : AllProper some_calls start ↔ (
    (t : Store) × (perform_all some_calls start ≡ done tt t) × IsCounted (0 + length some_calls) t)
perform_all-IsCounted_example =
    perform_all-IsCounted some_calls 0 start start-IsCounted (omega arith)

calls_run :
    perform_all some_calls start
    ≡ done tt (record (with_handle 1) { clients = update (with_handle 1).clients 1 none })
unfolding perform_all perform remote_stream_handle_create remote_stream_handle_ref_incr
    remote_stream_handle_release client_finalize load_client load_handle store_client store_handle
    calloc_handle
calls_run = refl

releases-freed_example :
    releases 2 2 (with_handle 2)
    ≡ done tt
        (freed (with_handle 2) 2 (record (new_handle 1 30 4 7) { refcount = 2 }) (client_of 1))
releases-freed_example =
    releases-freed 1 (with_handle 2) 2 (record (new_handle 1 30 4 7) { refcount = 2 }) (client_of 1)
      (omega arith) refl refl (omega arith) refl
