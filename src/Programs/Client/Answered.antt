-- ===== src/Programs/Client/Answered.antt =====
-- What the client program gets from a provider that has the stream it asks for.
use aggregator.Base.{
  ℕ, suc, ◌^◌, ◌≤◌, ◌<◌, ◌≡◌, refl, ap, ap₂, ◌∙◌, List, [], ◌∷◌, reverse, map, length, take,
  length-take, length-reverse, min, none, some, arith, true, pos, done,
}
use mathlib.Core.List.{reverse_aux}
use aggregator.Common.{success, Sample, StreamType, counter, CString}
use aggregator.Common.Hash.{id_from_string_identifiers}
use aggregator.Memory.{Heap, update, update_self}
use aggregator.Stream.History.{Holds}
use aggregator.Wire.{
  Bytes, HgProc, put_list_streams_in, put_stream_fetch_in, put_members, put_stream_fetch_out,
}
use aggregator.Uthash.{Uthash}
use aggregator.Margo.{Margo}
use aggregator.Margo.Addresses.{Addresses}
use aggregator.TagLists.{taglist_create, copy_tags}
use aggregator.Provider.{strcpy}
use aggregator.Provider.Create.{Request}
use aggregator.Provider.Validity.{IsValid}
use aggregator.Provider.Listing.{keys, length-keys}
use aggregator.Provider.Fetch.Newest.{newest}
use aggregator.Client.{
  remote_list_streams, remote_stream_get_id, remote_stream_fetch, overwrite_ids,
}
use aggregator.Client.Identity.{get_id_lem}
use aggregator.Client.Newest.{working, length-newest, fetch-newest}
use aggregator.Client.Listed.{list_streams-oldest}
use aggregator.Client.Init.{started, client_with}
use aggregator.Programs.{returned}
use aggregator.Programs.Client.{
  Surroundings, Line, retrieved_id, retrieved_total, retrieved_stream, fetched, Session, srini,
  teststream2, three_tags, query,
}
use aggregator.Programs.Client.Steps.{line_of}
use aggregator.Programs.Client.Parts.{take-overwrite, take-append, ended, open_stream_lem}

length-overwrite_ids : (src dest : List ℕ) → length (overwrite_ids src dest) ≡ length dest
length-overwrite_ids [] dest = refl
length-overwrite_ids (x ∷ src) [] = refl
length-overwrite_ids (x ∷ src) (y ∷ dest) = ap suc (length-overwrite_ids src dest)

-- The heap with the tag list of the program.
abbrev tagged : Heap → Heap
tagged h = record h {
  taglists = update h.taglists h.fresh (some (record { taglist = three_tags; num_tags = 3 }));
  fresh = suc h.fresh;
}

tags_lem : (h : Heap) → taglist_create 3 three_tags h ≡ done (success, h.fresh) (tagged h)
unfolding taglist_create copy_tags strcpy
tags_lem h = refl

module _ ⦃H : Uthash⦄ ⦃G : Margo⦄ ⦃A : Addresses⦄ ⦃P : HgProc⦄ where
  -- The runtime does what the program asks for, and the provider has the stream: it is found under `id`,
  -- and has recorded `xs`. The messages can be encoded.
  pub record IsAnswered (s : Session) (e : Surroundings) (address : CString) (id : ℕ)
      (xs : List Sample) : Type 0 where
    pub first : 1 ≤ s.clients.store.fresh
    pub unused : s.clients.store.clients s.clients.store.fresh ≡ none
    pub mid_set : 1 ≤ e.mid
    pub svr_addr : ℕ
    pub with_addr : A.Table
    pub looked_up : A.addr_lookup s.addresses e.mid address ≡ some (svr_addr, with_addr)
    pub without_addr : A.Table
    pub addr_freed : A.addr_free with_addr e.mid svr_addr ≡ some without_addr
    pub list_bulk : ℕ
    pub list_works : e.list_link ≡ working list_bulk
    pub fetch_bulk : ℕ
    pub fetch_works : e.fetch_link ≡ working fetch_bulk
    pub transfers : e.runtime ≡ record { bulk_created = true; transferred = true }
    pub addr : ℕ
    pub duplicated : e.duplicate ≡ some addr
    pub five : length e.ids ≡ 5
    pub hashed : id_from_string_identifiers srini teststream2 three_tags 3 ≡ some id
    pub valid : IsValid s.world
    pub small : length (H.items s.world.provider.streams) < 2 ^ 32
    pub p : ℕ
    pub type : StreamType
    pub held : Holds s.world.heap p type xs
    pub found : H.find s.world.provider.streams id ≡ some p
    pub list_request : Bytes
    pub list_sent : put_list_streams_in 5 ≡ some list_request
    pub list_answer : Bytes
    pub list_encoded :
        put_members success
          (min (length (H.items s.world.provider.streams)) 5)
          (some (keys (H.items s.world.provider.streams)))
        ≡ some list_answer
    pub fetch_request : Bytes
    pub fetch_sent :
        put_stream_fetch_in (record { stream_id = id; count = pos 5; bulk = fetch_bulk })
        ≡ some fetch_request
    pub fetch_answer : Bytes
    pub fetch_encoded :
        put_stream_fetch_out (pos (min 5 (length xs))) held.stream.name held.stream.ns success
        ≡ some fetch_answer

  module _ (s : Session) (e : Surroundings) (address : CString) (id : ℕ) (xs : List Sample)
      (c : IsAnswered s e address id xs) where
    abbrev pub total : ℕ
    total = min (length (H.items s.world.provider.streams)) 5

    abbrev listed : List ℕ
    listed = overwrite_ids (take total (keys (H.items s.world.provider.streams))) e.ids

    list_lem :
        remote_list_streams e.list_link 5 e.ids s.world
        ≡ done (record { ret = success; count = total; ids = listed }) s.world
    list_lem =
        ap (λ l. remote_list_streams l 5 e.ids s.world) c.list_works
        ∙ list_streams-oldest s.world 5 c.list_bulk e.ids c.list_request c.list_answer c.valid
            c.small (omega (arith, c.five)) c.list_sent c.list_encoded

    fetch_lem :
        remote_stream_fetch e.fetch_link e.runtime id (pos 5) s.world
        ≡ done
            (record {
              ret = success;
              num_samples = pos (min 5 (length xs));
              buf = some (newest xs 5);
              name = some c.held.stream.name;
              ns = some c.held.stream.ns;
            })
            s.world
    fetch_lem =
        ap₂ (λ l r. remote_stream_fetch l r id (pos 5) s.world) c.fetch_works c.transfers
        ∙ fetch-newest (record { bulk_created = true; transferred = true }) s.world id c.p (pos 5)
            c.type xs c.fetch_bulk c.fetch_request c.fetch_answer c.valid c.held c.found refl
            c.fetch_sent c.fetch_encoded

    id_lem :
        remote_stream_get_id
          (some srini)
          (some teststream2)
          s.heap.fresh
          (record s.world { heap = tagged s.heap })
        ≡ done (success, some id) (record s.world { heap = tagged s.heap })
    id_lem =
        let r : Request = record {
          ns = srini;
          name = teststream2;
          type = counter;
          desc = none;
          taglist = s.heap.fresh;
        } in
        get_id_lem (record s.world { heap = tagged s.heap }) r id
          (
            record { taglist = three_tags; num_tags = 3 },
            update_self s.heap.taglists s.heap.fresh _,
            c.hashed,
          )

    -- The lines that the program prints.
    abbrev pub first_lines : List Line
    first_lines =
        retrieved_id id
        ∷ retrieved_total total
        ∷ map retrieved_stream (take total (keys (H.items s.world.provider.streams)))

    abbrev pub last_lines : List Line
    last_lines =
        fetched (pos (min 5 (length xs))) c.held.stream.name c.held.stream.ns
        ∷ map line_of (reverse (take 5 xs))

    abbrev pub connected : ℕ × ℕ → G.Instance → Session
    connected ids i = record s { addresses = c.with_addr; clients = started s.clients e.mid ids i }

    abbrev pub finished : ℕ → ℕ × ℕ → G.Instance → Session
    finished provider_id ids i = record s {
      addresses = c.without_addr;
      heap = tagged s.heap;
      clients = record (started s.clients e.mid ids i) {
        store =
            ended (started s.clients e.mid ids i).store s.clients.store.fresh c.addr provider_id id
              (client_with e.mid ids);
      };
      output = reverse_aux last_lines (reverse_aux first_lines s.output);
    }

    listed_shown : take total listed ≡ take total (keys (H.items s.world.provider.streams))
    listed_shown =
        take-overwrite total (keys (H.items s.world.provider.streams)) e.ids
          (omega (arith, length-keys (H.items s.world.provider.streams))) (omega (arith, c.five))

    values_shown : take (min 5 (length xs)) (newest xs 5) ≡ reverse (take 5 xs)
    values_shown =
        take-append (reverse (take 5 xs)) _ (min 5 (length xs))
          (omega (arith, length-reverse (take 5 xs), length-take 5 xs))

    pub query_lem :
        (provider_id : ℕ) (ids : ℕ × ℕ) (i : G.Instance)
        → query e provider_id c.svr_addr (success, s.clients.store.fresh) (connected ids i)
          ≡ done (returned (pos 0)) (finished provider_id ids i)
    unfolding query
    query_lem provider_id ids i =
        let client = s.clients.store.fresh in
        let u = connected ids i in
        let n = min 5 (length xs) in
        rw (list_lem, tags_lem s.heap, id_lem)
          (open_stream_lem e c.svr_addr client provider_id id c.addr total n listed
              (client_with e.mid ids) (record u { heap = tagged s.heap }) c.without_addr success
              (newest xs 5) c.held.stream.name c.held.stream.ns c.first (omega (arith, c.first))
              (update_self s.clients.store.clients client _) c.duplicated
              (omega (
                arith,
                length-overwrite_ids (take total (keys (H.items s.world.provider.streams))) e.ids,
                c.five,
              ))
              c.addr_freed fetch_lem (omega (arith, length-newest xs 5))
            ∙ (λ j. done (returned (pos 0)) (record (finished provider_id ids i) {
              output =
                  reverse_aux
                    (fetched (pos n) c.held.stream.name c.held.stream.ns
                      ∷ map line_of (values_shown j))
                    (reverse_aux
                      (retrieved_id id
                        ∷ retrieved_total total
                        ∷ map retrieved_stream (listed_shown j))
                      s.output);
            })))
