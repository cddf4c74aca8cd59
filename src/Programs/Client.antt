-- ===== src/Programs/Client.antt =====
-- bin/client.c: a monitoring client that lists the streams of a provider, fetches one of them, prints
-- what it gets, and frees what it made.
pub mod Steps
pub mod Parts
pub mod Answered
pub mod Run
use aggregator.Base.{
  ℕ, zero, suc, ◌-◌, List, [], ◌∷◌, Option, none, some, Bool, true, false, ◌==◌, if◌then◌else◌, ℤ,
  pos, negsuc, M, Outcome, done, ub, pure, fault, relay, and_then, ◌>>=◌, ◌>>◌,
}
use aggregator.Common.{ReturnCode, CString, Sample}
use aggregator.Memory.{Heap}
use aggregator.Wire.{HgProc}
use aggregator.Uthash.{Uthash}
use aggregator.Margo.{Margo}
use aggregator.Margo.Addresses.{Addresses}
use aggregator.TagLists.{taglist_create}
use aggregator.Provider.{World}
use aggregator.Provider.Fetch.{Runtime}
use aggregator.Client.{
  Link, Listing, Samples, remote_list_streams, remote_stream_get_id, remote_stream_fetch,
}
use aggregator.Client.Handles.{
  Store, Handle, load_handle, load_client, remote_stream_handle_create,
  remote_stream_handle_release, client_finalize,
}
use aggregator.Client.Init.{ClientProcess, in_store, client_init}
use aggregator.Programs.{Exit, returned, exited, aborted, is_success}
use aggregator.Programs.Arguments.{provider_id_of}

-- What the runtime answers to the program: the result of `margo_init`, which is 0 where it fails, the
-- links of the two calls, the result of `margo_addr_dup`, and what `malloc` leaves in the array of
-- five identifiers.
pub record Surroundings : Type 0 where
  pub mid : ℕ
  pub list_link : Link
  pub fetch_link : Link
  pub runtime : Runtime
  pub duplicate : Option ℕ
  pub ids : List ℕ

-- The lines that are printed.
pub data Line : Type 0 where
  usage : Line
  retrieved_id : ℕ → Line
  list_failed : ReturnCode → Line
  retrieved_total : ℕ → Line
  retrieved_stream : ℕ → Line
  fetched : ℤ → CString → CString → Line
  values_are : ℕ → ℕ → Line

-- "srini", "teststream2", and "tag1", "tag2", "tag3"
abbrev pub srini : CString
srini = 115 ∷ 114 ∷ 105 ∷ 110 ∷ 105 ∷ []

abbrev pub teststream2 : CString
teststream2 = 116 ∷ 101 ∷ 115 ∷ 116 ∷ 115 ∷ 116 ∷ 114 ∷ 101 ∷ 97 ∷ 109 ∷ 50 ∷ []

abbrev pub three_tags : List CString
three_tags =
    (116 ∷ 97 ∷ 103 ∷ 49 ∷ []) ∷ (116 ∷ 97 ∷ 103 ∷ 50 ∷ []) ∷ (116 ∷ 97 ∷ 103 ∷ 51 ∷ []) ∷ []

module _ ⦃H : Uthash⦄ ⦃G : Margo⦄ ⦃A : Addresses⦄ where
  -- The process of the program, with its own heap and what it has printed, the last line first, and the
  -- world of the provider.
  pub record Session : Type 0 where
    pub clients : ClientProcess
    pub addresses : A.Table
    pub heap : Heap
    pub world : World
    pub output : List Line

  abbrev pub on_clients : {B : Type 0} → M ClientProcess B → M Session B
  on_clients f s = relay (λ p. record s { clients = p }) (f s.clients)

  abbrev pub on_store : {B : Type 0} → M Store B → M Session B
  on_store f = on_clients (in_store f)

  abbrev pub on_world : {B : Type 0} → M World B → M Session B
  on_world f s = relay (λ w. record s { world = w }) (f s.world)

  abbrev pub on_own : {B : Type 0} → M Heap B → M Session B
  on_own f s = relay (λ h. record s { heap = h }) (f s.heap)

  -- Code of the library that only looks at the heap, on the program's own.
  abbrev pub on_own_heap : {B : Type 0} → M World B → M Session B
  on_own_heap f s =
      relay (λ (w : World). record s { heap = w.heap }) (f (record s.world { heap = s.heap }))

  abbrev pub print : Line → M Session (Unit {0})
  print line s = done tt (record s { output = line ∷ s.output })

  -- The macro FATAL.
  abbrev pub fatal : M Session Exit
  fatal = pure (exited (negsuc 0))

  -- The loop over the identifiers, which reads as many as the count says.
  unfoldable pub print_ids : ℕ → List ℕ → M Session (Unit {0})
  print_ids zero ids = pure tt
  print_ids (suc n) [] = fault
  print_ids (suc n) (id ∷ ids) = print (retrieved_stream id) >> print_ids n ids

  unfoldable pub print_listing : Listing → M Session (Unit {0})
  print_listing l =
      if is_success l.ret
      then print (retrieved_total l.count) >> print_ids l.count l.ids
      else print (list_failed l.ret)

  -- The loop over the samples; it does not run for a number below zero.
  unfoldable pub print_values : ℕ → List Sample → M Session (Unit {0})
  print_values zero b = pure tt
  print_values (suc n) [] = fault
  print_values (suc n) (x ∷ b) = print (values_are x.val x.time) >> print_values n b

  unfoldable pub print_buffer : ℤ → Option (List Sample) → M Session (Unit {0})
  print_buffer (negsuc n) buf = pure tt
  print_buffer (pos n) none = fault
  print_buffer (pos n) (some b) = print_values n b

  -- The return code of the fetch is not looked at: names that were not stored are read all the same.
  unfoldable pub print_fetched : Samples → M Session (Unit {0})
  print_fetched f = elim f.name [
    | none ↦ fault
    | some name ↦ elim f.ns [
      | none ↦ fault
      | some ns ↦ print (fetched f.num_samples name ns) >> print_buffer f.num_samples f.buf
    ]
  ]

  -- `margo_addr_free` of the provider's address, and the end of `main`.
  unfoldable pub free_server : ℕ → ℕ → M Session Exit
  free_server mid svr_addr s = elim (A.addr_free s.addresses mid svr_addr) [
    | none ↦ fatal s
    | some t ↦ done (returned (pos 0)) (record s { addresses = t })
  ]

  unfoldable pub close_client : Surroundings → ℕ → ℕ → ℕ → M Session Exit
  close_client e svr_addr client handle = do
    code ← on_store (remote_stream_handle_release handle)
    (if is_success code
        then (do
          code' ← on_store (client_finalize client)
          (if is_success code' then free_server e.mid svr_addr else fatal))
        else fatal)

  module _ ⦃P : HgProc⦄ where
    -- What follows the creation of the handle.
    unfoldable pub fetch_and_finish : Surroundings → ℕ → ℕ → ReturnCode × Option ℕ → M Session Exit
    fetch_and_finish e svr_addr client (code, none) = if is_success code then fault else fatal
    fetch_and_finish e svr_addr client (code, some handle) =
        if is_success code
        then (do
          h ← on_store (load_handle handle)
          got ← on_world (remote_stream_fetch e.fetch_link e.runtime h.stream_id (pos 5))
          print_fetched got
          close_client e svr_addr client handle)
        else fatal

    -- What follows the computation of the identifier.
    unfoldable pub open_stream : Surroundings → ℕ → ℕ → ℕ → Listing → Option ℕ → M Session Exit
    open_stream e provider_id svr_addr client listing none = fault
    open_stream e provider_id svr_addr client listing (some id) = do
      print (retrieved_id id)
      print_listing listing
      handle ← on_store (remote_stream_handle_create client e.duplicate provider_id id)
      fetch_and_finish e svr_addr client handle

    -- What follows the initialisation of the client.
    unfoldable pub query : Surroundings → ℕ → ℕ → ReturnCode × ℕ → M Session Exit
    query e provider_id svr_addr (code, client) =
        if is_success code
        then (do
          listing ← on_world (remote_list_streams e.list_link 5 e.ids)
          tags ← on_own (taglist_create 3 three_tags)
          id ← on_own_heap (remote_stream_get_id (some srini) (some teststream2) tags.1)
          open_stream e provider_id svr_addr client listing id.1)
        else fatal

    -- What follows the lookup of the provider's address.
    unfoldable pub connect : Surroundings → ℕ → Option (ℕ × A.Table) → M Session Exit
    connect e provider_id none s = fatal s
    connect e provider_id (some r) s =
        and_then (query e provider_id r.0)
          (on_clients (client_init e.mid) (record s { addresses = r.1 }))

    -- An identifier that `atoi` cannot read is undefined.
    unfoldable pub start : Surroundings → CString → Option ℕ → M Session Exit
    start e svr_addr_str none s = ub s
    start e svr_addr_str (some provider_id) s =
        if e.mid == 0
        then done aborted s
        else connect e provider_id (A.addr_lookup s.addresses e.mid svr_addr_str) s

    -- `main`; `argv` has the name of the program and its arguments.
    unfoldable pub client_main : Surroundings → List CString → M Session Exit
    client_main e (program ∷ svr_addr_str ∷ provider_id ∷ []) =
        start e svr_addr_str (provider_id_of provider_id)
    client_main e [] = print usage >> fatal
    client_main e (program ∷ []) = print usage >> fatal
    client_main e (program ∷ svr_addr_str ∷ []) = print usage >> fatal
    client_main e (program ∷ svr_addr_str ∷ provider_id ∷ more ∷ rest) = print usage >> fatal
