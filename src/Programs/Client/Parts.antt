-- ===== src/Programs/Client/Parts.antt =====
-- What follows from one part of the client program to the next.
use aggregator.Base.{
  u64, ◌+◌, ℕ, zero, suc, ◌≤◌, ◌≡◌, refl, ap, ◌∙◌, List, [], ◌∷◌, ◌++◌, map, length, take, none,
  some, arith, pos, done, ub,
}
use aggregator.Common.{success, ReturnCode, Sample, CString}
use aggregator.Memory.{update_self}
use aggregator.Wire.{put_stream_fetch_in, HgProc, put_stream_fetch_in}
use aggregator.Uthash.{Uthash}
use aggregator.Margo.{Margo}
use aggregator.Margo.Addresses.{Addresses}
use aggregator.Client.{overwrite_ids, remote_stream_fetch, fetch_requested, sent, clamp}
use aggregator.Client.Handles.{
  Client, Handle, Store, lookup_handle, load_handle, remote_stream_handle_create,
}
use aggregator.Client.Handles.Counts.{created}
use aggregator.Client.Handles.References.{new_handle, create_lem}
use aggregator.Programs.{returned}
use aggregator.Programs.Client.{
  Surroundings, retrieved_id, retrieved_total, retrieved_stream, fetched, Session, fetch_and_finish,
  open_stream, print_fetched,
}
use aggregator.Programs.Client.Steps.{
  line_of, with_lines, print_listing_lem, print_fetched_lem, closed, close_client_lem,
}

load_handle_lem :
    (st : Store) (p : ℕ) (h : Handle)
    → lookup_handle p st.handles ≡ some h
    → load_handle p st ≡ done h st
unfolding load_handle
load_handle_lem st p h e = ground arith

pub take-overwrite :
    (n : ℕ) (src ids : List ℕ)
    → n ≤ length src
    → n ≤ length ids
    → take n (overwrite_ids (take n src) ids) ≡ take n src
take-overwrite zero src ids le le' = refl
take-overwrite (suc n) [] ids le le' = absurd (omega arith)
take-overwrite (suc n) (x ∷ src) [] le le' = absurd (omega arith)
take-overwrite (suc n) (x ∷ src) (y ∷ ids) le le' =
    ap (◌∷◌ x) (take-overwrite n src ids (omega arith) (omega arith))

pub take-append : (xs ys : List Sample) (n : ℕ) → n ≡ length xs → take n (xs ++ ys) ≡ xs
take-append [] ys zero e = refl
take-append [] ys (suc n) e = absurd (omega arith)
take-append (x ∷ xs) ys zero e = absurd (omega arith)
take-append (x ∷ xs) ys (suc n) e = ap (◌∷◌ x) (take-append xs ys n (omega arith))

module _ ⦃H : Uthash⦄ ⦃G : Margo⦄ ⦃A : Addresses⦄ ⦃P : HgProc⦄ where
  -- The stream of a handle is fetched and printed, and everything is freed.
  fetch_and_finish_lem :
      (e : Surroundings) (svr_addr p : ℕ) (h : Handle) (cl : Client) (s : Session) (t : A.Table)
      (code : ReturnCode) (n : ℕ) (b : List Sample) (name ns : CString)
      → 1 ≤ p
      → lookup_handle p s.clients.store.handles ≡ some h
      → h.refcount ≡ 1
      → s.clients.store.clients h.client ≡ some cl
      → A.addr_free s.addresses e.mid svr_addr ≡ some t
      → remote_stream_fetch e.fetch_link e.runtime h.stream_id (pos 5) s.world
        ≡ done
            (record {
              ret = code;
              num_samples = pos n;
              buf = some b;
              name = some name;
              ns = some ns;
            })
            s.world
      → n ≤ length b
      → fetch_and_finish e svr_addr h.client (success, some p) s
        ≡ done
            (returned (pos 0))
            (record (with_lines s (fetched (pos n) name ns ∷ map line_of (take n b))) {
              clients = record s.clients { store = closed s.clients.store p h cl };
              addresses = t;
            })
  unfolding fetch_and_finish
  fetch_and_finish_lem e svr_addr p h cl s t code n b name ns nonnull there one client free got le =
      rw (load_handle_lem s.clients.store p h there, got, print_fetched_lem n code name ns b s le)
        (close_client_lem e svr_addr p h cl
          (with_lines s (fetched (pos n) name ns ∷ map line_of (take n b))) t nonnull there one
          client free)

  -- The store while the handle is open.
  abbrev opened : Store → ℕ → ℕ → ℕ → ℕ → Client → Store
  opened st client addr provider_id id cl =
      created st client cl (new_handle client addr provider_id id)

  abbrev pub ended : Store → ℕ → ℕ → ℕ → ℕ → Client → Store
  ended st client addr provider_id id cl =
      closed (opened st client addr provider_id id cl) st.fresh
        (new_handle client addr provider_id id)
        (record cl { num_stream_handles = u64 (cl.num_stream_handles + 1) })

  found_opened :
      (st : Store) (client addr provider_id id : ℕ) (cl : Client)
      → lookup_handle st.fresh (opened st client addr provider_id id cl).handles
        ≡ some (new_handle client addr provider_id id)
  found_opened st client addr provider_id id cl = ground arith

  pub open_stream_lem :
      (e : Surroundings) (svr_addr client provider_id id d n k : ℕ) (ids : List ℕ) (cl : Client)
      (s : Session) (t : A.Table) (code : ReturnCode) (b : List Sample) (name ns : CString)
      → 1 ≤ client
      → 1 ≤ s.clients.store.fresh
      → s.clients.store.clients client ≡ some cl
      → e.duplicate ≡ some d
      → n ≤ length ids
      → A.addr_free s.addresses e.mid svr_addr ≡ some t
      → remote_stream_fetch e.fetch_link e.runtime id (pos 5) s.world
        ≡ done
            (record {
              ret = code;
              num_samples = pos k;
              buf = some b;
              name = some name;
              ns = some ns;
            })
            s.world
      → k ≤ length b
      → open_stream e provider_id svr_addr client
          (record { ret = success; count = n; ids = ids })
          (some id)
          s
        ≡ done
            (returned (pos 0))
            (record (with_lines
              (with_lines s
                (retrieved_id id ∷ retrieved_total n ∷ map retrieved_stream (take n ids)))
              (fetched (pos k) name ns ∷ map line_of (take k b))) {
                clients = record s.clients {
                  store = ended s.clients.store client d provider_id id cl;
                };
                addresses = t;
              })
  unfolding open_stream
  open_stream_lem e svr_addr client provider_id id d n k ids cl s t code b name ns nonnull first
        there duplicate le free got le' =
      let st = s.clients.store in
      let u = with_lines s (retrieved_id id ∷ []) in
      let u' =
        with_lines s (retrieved_id id ∷ retrieved_total n ∷ map retrieved_stream (take n ids)) in
      let made : remote_stream_handle_create client e.duplicate provider_id id st
          ≡ done (success, some st.fresh) (opened st client d provider_id id cl) =
        ap (λ o. remote_stream_handle_create client o provider_id id st) duplicate
        ∙ create_lem st client d provider_id id cl nonnull there in
      rw (print_listing_lem n ids u le, made)
        (fetch_and_finish_lem e svr_addr st.fresh (new_handle client d provider_id id)
          (record cl { num_stream_handles = u64 (cl.num_stream_handles + 1) })
          (record u' {
            clients = record s.clients { store = opened st client d provider_id id cl };
          })
          t code k b name ns first (found_opened st client d provider_id id cl) refl
          (update_self st.clients client _) free got le')

  -- Where the request of the fetch cannot be sent, the program, which has opened its handle, goes on
  -- to read the name of the stream, which was never stored.
  pub fetch-unset :
      (e : Surroundings) (svr_addr client p : ℕ) (h : Handle) (s : Session)
      → lookup_handle p s.clients.store.handles ≡ some h
      → sent e.fetch_link (
          put_stream_fetch_in
            (record { stream_id = h.stream_id; count = pos 5; bulk = e.fetch_link.bulk }))
        ≡ none
      → fetch_and_finish e svr_addr client (success, some p) s ≡ ub s
  unfolding fetch_and_finish remote_stream_fetch fetch_requested print_fetched clamp
  fetch-unset e svr_addr client p h s there unsent =
      rw (load_handle_lem s.clients.store p h there, unsent) refl
