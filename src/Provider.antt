-- ===== src/Provider.antt =====
-- src/provider.h and the registry of streams of src/provider.c, with the functions of src/client.c
-- that only call them. One provider stands beside the heap.
pub mod Create
pub mod Validity
pub mod Items
pub mod Destroy
pub mod Listing
pub mod Fetch
pub mod Lifecycle
pub mod View
use aggregator.Base.{
  ℕ, suc, ◌+◌, ◌-◌, ◌^◌, Bool, List, [], ◌∷◌, Option, none, some, map, u64, length, ltb,
  if◌then◌else◌, M, Outcome, done, ub, pure, fault, and_then, ◌>>=◌, ◌>>◌,
}
use aggregator.Common.{
  ReturnCode, success, err_invalid_name, err_invalid_stream, StreamType, counter, CString, TagList,
  zero_sample,
}
use aggregator.Common.Hash.{id_from_string_identifiers}
use aggregator.Memory.{Stream, Heap, update, or_ub, load, store}
use aggregator.Uthash.{Uthash, Item}

module _ ⦃H : Uthash⦄ where
  -- `aggregator_provider`; the handles of the runtime are opaque numbers.
  pub record Provider : Type 0 where
    pub mid : ℕ
    pub provider_id : ℕ
    pub pool : ℕ
    pub abtio : ℕ
    pub num_streams : ℕ
    pub streams : H.Table
    pub list_streams_id : ℕ
    pub stream_fetch_id : ℕ

  pub record World : Type 0 where
    pub heap : Heap
    pub provider : Provider

  abbrev pub lifted : {A : Type 0} → World → Outcome Heap A → Outcome World A
  lifted w (done a h) = done a (record w { heap = h })
  lifted w (ub h) = ub (record w { heap = h })

  -- Code that touches the heap alone.
  abbrev pub on_heap : {A : Type 0} → M Heap A → M World A
  on_heap f w = lifted w (f w.heap)

abbrev pub zero_stream : Stream
zero_stream = record {
  type = counter;
  buffer = 0;
  buffer_index = 0;
  desc = [];
  name = [];
  ns = [];
  taglist = 0;
  id = 0;
}

-- `calloc`; it is taken to succeed, as the code does not look.
unfoldable pub calloc_stream : M Heap ℕ
calloc_stream h =
    done h.fresh
      (record h { streams = update h.streams h.fresh (some zero_stream); fresh = suc h.fresh })

unfoldable pub calloc_buffer : M Heap ℕ
calloc_buffer h =
    done h.fresh (record h {
      buffers = update h.buffers h.fresh (some (λ i. zero_sample));
      fresh = suc h.fresh;
    })

-- Freeing what is not allocated is undefined.
unfoldable pub free_stream : ℕ → M Heap (Unit {0})
unfolding load
free_stream p = do _ ← load p; λ h. done tt (record h { streams = update h.streams p none })

unfoldable pub free_buffer : ℕ → M Heap (Unit {0})
free_buffer b = do
  _ ← (λ h. or_ub (h.buffers b) h)
  λ h. done tt (record h { buffers = update h.buffers b none })

-- `strcpy` into an array of `size` bytes, which holds the terminator too.
unfoldable pub strcpy : ℕ → Option CString → M Heap CString
strcpy size none = fault
strcpy size (some str) = if ltb (length str) size then pure str else fault

unfoldable pub load_taglist : ℕ → M Heap TagList
load_taglist tl h = or_ub (h.taglists tl) h

-- The members of a fresh stream, set from the arguments of `aggregator_provider_stream_create`.
unfoldable pub set_up :
    ℕ → ℕ → CString → CString → StreamType → Option CString → ℕ → M Heap (Unit {0})
set_up stream id ns name t desc tl = do
  s ← load stream
  name' ← strcpy 36 (some name)
  ns' ← strcpy 36 (some ns)
  desc' ← strcpy 200 desc
  buffer ← calloc_buffer
  store stream (record s {
    id = id;
    name = name';
    ns = ns';
    desc = desc';
    type = t;
    taglist = tl;
    buffer_index = 0;
    buffer = buffer;
  })

module _ ⦃H : Uthash⦄ where
  unfoldable pub find_stream : ℕ → M World (Option ℕ)
  find_stream id w = done (H.find w.provider.streams id) w

  -- HASH_ADD, and `num_streams += 1`
  unfoldable pub hash_add : ℕ → ℕ → M World (Unit {0})
  hash_add id p w = done tt (record w {
    provider = record w.provider {
      streams = H.add w.provider.streams id p;
      num_streams = u64 (w.provider.num_streams + 1);
    };
  })

  -- HASH_DEL
  unfoldable pub hash_del : ℕ → M World (Unit {0})
  hash_del p w =
      done tt (record w { provider = record w.provider { streams = H.del w.provider.streams p } })

  unfoldable pub set_num_streams : (ℕ → ℕ) → M World (Unit {0})
  set_num_streams f w =
      done tt (record w { provider = record w.provider { num_streams = f w.provider.num_streams } })

  unfoldable pub add_stream : ℕ → M World ReturnCode
  add_stream stream = do
    s ← on_heap (load stream)
    existing ← find_stream s.id
    elim existing [ some q ↦ pure err_invalid_stream | none ↦ hash_add s.id stream >> pure success ]

  -- `num_streams -= 1` wraps below zero.
  unfoldable pub remove_stream : ℕ → M World ReturnCode
  remove_stream id = do
    stream ← find_stream id
    elim stream [
      | none ↦ pure err_invalid_stream
      | some p ↦
          hash_del p
          >> on_heap (free_stream p)
          >> set_num_streams (λ n. u64 (n + 2 ^ 64 - 1))
          >> pure success
    ]

  -- The loop of `remove_all_streams` over the items that are left.
  unfoldable pub remove_loop : List Item → M World (Unit {0})
  remove_loop [] = pure tt
  remove_loop ((k, p) ∷ items) = hash_del p >> on_heap (free_stream p) >> remove_loop items

  unfoldable pub remove_all_streams : M World (Unit {0})
  remove_all_streams w =
      and_then (λ _. set_num_streams (λ _. 0)) (remove_loop (H.items w.provider.streams) w)

  -- The result is the return code and what is stored to `*m`; a `none` argument is NULL.
  unfoldable pub stream_create :
      Option CString
      → Option CString
      → StreamType
      → Option CString
      → ℕ
      → M World (ReturnCode × Option ℕ)
  stream_create none name t desc tl = pure (err_invalid_name, none)
  stream_create (some ns) none t desc tl = pure (err_invalid_name, none)
  stream_create (some ns) (some name) t desc tl = do
    tags ← on_heap (load_taglist tl)
    id ← on_heap (or_ub (id_from_string_identifiers ns name tags.taglist tags.num_tags))
    stream ← on_heap calloc_stream
    on_heap (set_up stream id ns name t desc tl)
    _ ← add_stream stream
    pure (success, some stream)

  -- After `remove_stream` has freed it, the stream is read twice: its mutex and its buffer.
  unfoldable pub stream_destroy : ℕ → M World ReturnCode
  stream_destroy m = do
    s ← on_heap (load m)
    stream ← find_stream s.id
    elim stream [
      | none ↦ pure err_invalid_stream
      | some p ↦ (do
        found ← on_heap (load p)
        _ ← remove_stream found.id
        freed ← on_heap (load p)
        on_heap (free_buffer freed.buffer)
        pure success)
    ]

  unfoldable pub destroy_all_streams : M World ReturnCode
  destroy_all_streams = remove_all_streams >> pure success
