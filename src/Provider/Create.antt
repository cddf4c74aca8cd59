-- ===== src/Provider/Create.antt =====
-- `aggregator_provider_stream_create`, branch by branch.
use aggregator.Base.{
  ℕ, suc, ◌+◌, ◌≡◌, refl, Bool, true, false, ◌&&◌, [], Option, none, some, arith, u64, length, ltb,
  if◌then◌else◌, M, done, ub,
}
use aggregator.Common.{ReturnCode, success, StreamType, CString, TagList, zero_sample}
use aggregator.Common.Hash.{id_from_string_identifiers}
use aggregator.Memory.{Stream, Heap, update, load, store}
use aggregator.Uthash.{Uthash}
use aggregator.Provider.{
  World, zero_stream, calloc_stream, calloc_buffer, strcpy, load_taglist, set_up, find_stream,
  hash_add, add_stream, stream_create,
}

-- The arrays have room for the terminator.
abbrev pub desc_fits : Option CString → Bool
desc_fits none = false
desc_fits (some desc) = ltb (length desc) 200

abbrev pub fits : CString → CString → Option CString → Bool
fits ns name desc = ltb (length name) 36 && (ltb (length ns) 36 && desc_fits desc)

abbrev pub desc_of : Option CString → CString
desc_of none = []
desc_of (some desc) = desc

-- The arguments of a call, and the identifier that they give.
pub record Request : Type 0 where
  pub ns : CString
  pub name : CString
  pub type : StreamType
  pub desc : Option CString
  pub taglist : ℕ

-- The stream of a request, with its buffer.
abbrev pub requested : Request → ℕ → ℕ → Stream
requested r id buffer = record {
  type = r.type;
  buffer = buffer;
  buffer_index = 0;
  desc = desc_of r.desc;
  name = r.name;
  ns = r.ns;
  taglist = r.taglist;
  id = id;
}

-- The heap with a stream at the next address and an empty buffer at the one after it.
abbrev pub with_stream : Heap → Request → ℕ → Heap
with_stream h r id = record h {
  streams =
      update (update h.streams h.fresh (some zero_stream)) h.fresh
        (some (requested r id (suc h.fresh)));
  buffers = update h.buffers (suc h.fresh) (some (λ i. zero_sample));
  fresh = suc (suc h.fresh);
}

set_up_lem :
    (h : Heap) (r : Request) (id : ℕ)
    → set_up h.fresh id r.ns r.name r.type r.desc r.taglist
        (record h { streams = update h.streams h.fresh (some zero_stream); fresh = suc h.fresh })
      ≡ (if fits r.ns r.name r.desc
          then done tt (with_stream h r id)
          else ub (record h {
            streams = update h.streams h.fresh (some zero_stream);
            fresh = suc h.fresh;
          }))
unfolding set_up load store strcpy calloc_buffer
set_up_lem h r id = ground arith

module _ ⦃H : Uthash⦄ where
  abbrev pub create : Request → M World (ReturnCode × Option ℕ)
  create r = stream_create (some r.ns) (some r.name) r.type r.desc r.taglist

  -- The identifier that a request gives in a heap, where its tag list is there and long enough.
  abbrev pub GivesId : World → Request → ℕ → Type 0
  GivesId w r id =
      (tags : TagList) × (w.heap.taglists r.taglist ≡ some tags)
      × (id_from_string_identifiers r.ns r.name tags.taglist tags.num_tags ≡ some id)

  -- The new stream is in the heap; it is in the table too, unless its identifier was taken.
  abbrev pub registered : World → Request → ℕ → World
  registered w r id = record {
    heap = with_stream w.heap r id;
    provider = record w.provider {
      streams = H.add w.provider.streams id w.heap.fresh;
      num_streams = u64 (w.provider.num_streams + 1);
    };
  }

  abbrev pub orphaned : World → Request → ℕ → World
  orphaned w r id = record w { heap = with_stream w.heap r id }

  module _ (w : World) (r : Request) (id : ℕ) (g : GivesId w r id) where
    -- Creating a stream whose tag list is there, whose names fit their arrays, and whose identifier is new,
    -- succeeds: the stream that is returned is in the heap with an empty buffer of its own, and in the
    -- table, which counts it.
    pub create-new :
        fits r.ns r.name r.desc ≡ true
        → H.find w.provider.streams id ≡ none
        → create r w ≡ done (success, some w.heap.fresh) (registered w r id)
    unfolding stream_create load_taglist calloc_stream add_stream find_stream hash_add load
    create-new ok absent = ground (arith, set_up_lem w.heap r id, g.1, g.2)

    -- When the tag list is there and the names fit, but the identifier is taken, the call still returns
    -- success: the new stream is in the heap, but the table and its count are as before, so that it
    -- cannot be found.
    pub create-taken :
        (q : ℕ)
        → fits r.ns r.name r.desc ≡ true
        → H.find w.provider.streams id ≡ some q
        → create r w ≡ done (success, some w.heap.fresh) (orphaned w r id)
    unfolding stream_create load_taglist calloc_stream add_stream find_stream hash_add load
    create-taken q ok taken = ground (arith, set_up_lem w.heap r id, g.1, g.2)

    pub create-too_long :
        fits r.ns r.name r.desc ≡ false
        → (w' : World) × (create r w ≡ ub w') × (w'.provider ≡ w.provider)
    unfolding stream_create load_taglist calloc_stream
    create-too_long bad = (
      record w {
        heap = record w.heap {
          streams = update w.heap.streams w.heap.fresh (some zero_stream);
          fresh = suc w.heap.fresh;
        };
      },
      ground (arith, set_up_lem w.heap r id, g.1, g.2),
      refl,
    )
