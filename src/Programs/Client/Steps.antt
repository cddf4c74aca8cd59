-- ===== src/Programs/Client/Steps.antt =====
-- The parts of the client program, one by one.
use aggregator.Base.{
  ℕ, zero, suc, ◌≤◌, ◌≡◌, refl, List, [], ◌∷◌, map, length, take, none, some, arith, pos, done,
}
use mathlib.Core.List.{reverse_aux}
use aggregator.Common.{success, ReturnCode, Sample, CString}
use aggregator.Memory.{update, update_self}
use aggregator.Uthash.{Uthash}
use aggregator.Margo.{Margo}
use aggregator.Margo.Addresses.{Addresses}
use aggregator.Client.Handles.{Client, Handle, Store, lookup_handle, load_client, client_finalize}
use aggregator.Client.Handles.Counts.{freed}
use aggregator.Client.Handles.References.{release_last}
use aggregator.Programs.{returned}
use aggregator.Programs.Client.{
  Surroundings, Line, retrieved_total, retrieved_stream, fetched, values_are, Session, print_ids,
  print_listing, print_values, print_buffer, print_fetched, free_server, close_client,
}

-- The line of a sample.
abbrev pub line_of : Sample → Line
line_of x = values_are x.val x.time

module _ ⦃H : Uthash⦄ ⦃G : Margo⦄ ⦃A : Addresses⦄ where
  -- More lines, in the order of printing.
  abbrev pub with_lines : Session → List Line → Session
  with_lines s lines = record s { output = reverse_aux lines s.output }

  print_ids_lem :
      (n : ℕ) (ids : List ℕ) (s : Session)
      → n ≤ length ids
      → print_ids n ids s ≡ done tt (with_lines s (map retrieved_stream (take n ids)))
  unfolding print_ids
  print_ids_lem zero ids s le = refl
  print_ids_lem (suc n) [] s le = absurd (omega arith)
  print_ids_lem (suc n) (id ∷ ids) s le =
      print_ids_lem n ids (with_lines s (retrieved_stream id ∷ [])) (omega arith)

  print_values_lem :
      (n : ℕ) (b : List Sample) (s : Session)
      → n ≤ length b
      → print_values n b s ≡ done tt (with_lines s (map line_of (take n b)))
  unfolding print_values
  print_values_lem zero b s le = refl
  print_values_lem (suc n) [] s le = absurd (omega arith)
  print_values_lem (suc n) (x ∷ b) s le =
      print_values_lem n b (with_lines s (line_of x ∷ [])) (omega arith)

  pub print_listing_lem :
      (n : ℕ) (ids : List ℕ) (s : Session)
      → n ≤ length ids
      → print_listing (record { ret = success; count = n; ids = ids }) s
        ≡ done tt (with_lines s (retrieved_total n ∷ map retrieved_stream (take n ids)))
  unfolding print_listing
  print_listing_lem n ids s le = print_ids_lem n ids (with_lines s (retrieved_total n ∷ [])) le

  pub print_fetched_lem :
      (n : ℕ) (code : ReturnCode) (name ns : CString) (b : List Sample) (s : Session)
      → n ≤ length b
      → print_fetched
          (record { ret = code; num_samples = pos n; buf = some b; name = some name; ns = some ns })
          s
        ≡ done tt (with_lines s (fetched (pos n) name ns ∷ map line_of (take n b)))
  unfolding print_fetched print_buffer
  print_fetched_lem n code name ns b s le =
      print_values_lem n b (with_lines s (fetched (pos n) name ns ∷ [])) le

  finalize_lem :
      (st : Store) (c : ℕ) (cl : Client)
      → st.clients c ≡ some cl
      → client_finalize c st ≡ done success (record st { clients = update st.clients c none })
  unfolding client_finalize load_client
  finalize_lem st c cl e = ground arith

  -- The store at the end.
  abbrev pub closed : Store → ℕ → Handle → Client → Store
  closed st p h cl = record (freed st p h cl) {
    clients = update (freed st p h cl).clients h.client none;
  }

  pub close_client_lem :
      (e : Surroundings) (svr_addr p : ℕ) (h : Handle) (cl : Client) (s : Session) (t : A.Table)
      → 1 ≤ p
      → lookup_handle p s.clients.store.handles ≡ some h
      → h.refcount ≡ 1
      → s.clients.store.clients h.client ≡ some cl
      → A.addr_free s.addresses e.mid svr_addr ≡ some t
      → close_client e svr_addr h.client p s
        ≡ done (returned (pos 0)) (record s {
          clients = record s.clients { store = closed s.clients.store p h cl };
          addresses = t;
        })
  unfolding close_client free_server
  close_client_lem e svr_addr p h cl s t nonnull there one client free =
      let st = s.clients.store in
      rw
        (
          release_last st p h cl nonnull there one client,
          finalize_lem (freed st p h cl) h.client _ (update_self st.clients h.client _),
          free,
          free_server,
        )
        refl
