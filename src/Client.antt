-- ===== src/Client.antt =====
-- src/client.c: the calls of a remote monitoring client, end to end. A call runs the provider's
-- handler on the world of the provider; the network is what the runtime answers to the call.
pub mod Handles
pub mod Identity
pub mod Init
pub mod Newest
pub mod Listed
use aggregator.Base.{
  ℕ, ◌*◌, ◌^◌, Bool, true, false, ◌||◌, ◌&&◌, List, [], ◌∷◌, Option, none, some, length, take, ltb,
  if◌then◌else◌, ℤ, pos, negsuc, ltb_ℤ, leb_ℤ, M, Outcome, done, ub, pure, fault, and_then, ◌>>=◌,
}
use aggregator.Common.{
  ReturnCode, success, err_from_mercury, err_invalid_name, Sample, CString, TagList, zero_sample,
  stream_buffer_size,
}
use aggregator.Common.Hash.{id_from_string_identifiers}
use aggregator.Wire.{
  Bytes, HgProc, ListStreamsOut, StreamFetchIn, StreamFetchOut, put_list_streams_in,
  get_list_streams_in, put_stream_fetch_in, get_stream_fetch_in, decode_list_streams_out,
  decode_stream_fetch_out,
}
use aggregator.Uthash.{Uthash}
use aggregator.Provider.{World, on_heap, load_taglist, strcpy}
use aggregator.Provider.Listing.{list_streams_ult}
use aggregator.Provider.Fetch.{Runtime, Fetched, calloc_samples, overwrite, stream_fetch_ult}
use aggregator.Memory.{or_ub}

-- What the runtime answers to a call: the handle that `margo_bulk_create` stores, `margo_create`, `margo_provider_forward`, `margo_get_input` at
-- the provider, and `margo_get_output`.
pub record Link : Type 0 where
  pub bulk : ℕ
  pub created : Bool
  pub forwarded : Bool
  pub input_read : Bool
  pub output_read : Bool

-- A return code and what was stored through the pointers of the call.
pub record Listing : Type 0 where
  pub ret : ReturnCode
  pub count : ℕ
  pub ids : List ℕ

pub record Samples : Type 0 where
  pub ret : ReturnCode
  pub num_samples : ℤ
  pub buf : Option (List Sample)
  pub name : Option CString
  pub ns : Option CString

-- The request of a call, where it can be sent.
abbrev pub sent : Link → Option Bytes → Option Bytes
sent link request = if link.created && link.forwarded then request else none

-- `margo_get_input` and `margo_get_output`
abbrev pub read_message : {A : Type 0} → Bool → Bytes → (Bytes → Option A) → Option A
read_message ok bytes decode = if ok then decode bytes else none

-- The number of samples that is asked for.
unfoldable pub clamp : ℤ → ℤ
clamp n = if leb_ℤ (pos stream_buffer_size) n || ltb_ℤ n (pos 0) then pos stream_buffer_size else n

-- `memcpy` of identifiers to the caller's array; both arrays must be as long.
abbrev pub overwrite_ids : List ℕ → List ℕ → List ℕ
overwrite_ids [] dest = dest
overwrite_ids (x ∷ src) [] = []
overwrite_ids (x ∷ src) (y ∷ dest) = x ∷ overwrite_ids src dest

unfoldable pub copy_ids : {S : Type 0} → ℕ → List ℕ → List ℕ → M S (List ℕ)
copy_ids n src dest =
    if ltb (length src) n || ltb (length dest) n
    then fault
    else pure (overwrite_ids (take n src) dest)

module _ ⦃H : Uthash⦄ where
  -- The identifier of a name, or `none` where nothing was stored.
  unfoldable pub remote_stream_get_id :
      Option CString → Option CString → ℕ → M World (ReturnCode × Option ℕ)
  remote_stream_get_id none name tl = pure (err_invalid_name, none)
  remote_stream_get_id (some ns) none tl = pure (err_invalid_name, none)
  remote_stream_get_id (some ns) (some name) tl = do
    tags ← on_heap (load_taglist tl)
    id ← on_heap (or_ub (id_from_string_identifiers ns name tags.taglist tags.num_tags))
    pure (success, some id)

  module _ ⦃P : HgProc⦄ where
    abbrev not_listed : ℕ → List ℕ → Listing
    not_listed count ids = record { ret = err_from_mercury; count = count; ids = ids }

    -- The part of the call that has an answer.
    unfoldable pub list_answered : ListStreamsOut → ℕ → List ℕ → M World Listing
    list_answered out count ids = elim out.ret [
      | success ↦ elim out.count [
        | none ↦ fault
        | some n ↦ elim out.ids [
          | none ↦ fault
          | some src ↦ (do
            ids' ← copy_ids n src ids
            pure (record { ret = success; count = n; ids = ids' }))
        ]
      ]
      | ret ↦ pure (record { ret = ret; count = count; ids = ids })
    ]

    -- The part of the call after the forward, which has failed where there is no answer.
    unfoldable pub receive_list : Bool → ℕ → List ℕ → Option Bytes → M World Listing
    receive_list output_read count ids none = pure (not_listed count ids)
    receive_list output_read count ids (some bytes) =
        elim (read_message output_read bytes decode_list_streams_out) [
          | none ↦ pure (not_listed count ids)
          | some out ↦ list_answered out count ids
        ]

    -- The part of the call after the request, which is `none` where it has not been sent.
    unfoldable pub list_requested : Link → ℕ → List ℕ → Option Bytes → M World Listing
    list_requested link count ids none = pure (not_listed count ids)
    list_requested link count ids (some request) =
        list_streams_ult (read_message link.input_read request get_list_streams_in)
        >>= receive_list link.output_read count ids

    -- `*count` and the array `*ids` are what the caller passes.
    unfoldable pub remote_list_streams : Link → ℕ → List ℕ → M World Listing
    remote_list_streams link count ids =
        list_requested link count ids (sent link (put_list_streams_in count))

    -- The part of the call that has an answer; `b` is the memory of the call, written by the provider.
    unfoldable pub fetch_answered : StreamFetchOut → List Sample → M World Samples
    fetch_answered out b = elim out.actual_count [
      | none ↦ fault
      | some n ↦ (do
        name ← on_heap (strcpy 36 out.name)
        ns ← on_heap (strcpy 36 out.ns)
        pure (record {
          ret = out.ret;
          num_samples = n;
          buf = some b;
          name = some name;
          ns = some ns;
        }))
    ]

    abbrev not_fetched : ℤ → Samples
    not_fetched n = record {
      ret = err_from_mercury;
      num_samples = n;
      buf = none;
      name = none;
      ns = none;
    }

    -- The part of the call after the forward, which has failed where there is no answer. A failing
    -- `margo_get_output` leaves `out` as it was, and it is freed all the same.
    unfoldable pub receive : Bool → ℤ → Fetched → M World Samples
    receive output_read n fetched = elim fetched.answer [
      | none ↦ pure (not_fetched n)
      | some bytes ↦ elim (read_message output_read bytes decode_stream_fetch_out) [
        | none ↦ fault
        | some out ↦ elim (calloc_samples n) [
          | none ↦ fault
          | some b ↦ fetch_answered out (overwrite fetched.pushed b)
        ]
      ]
    ]

    unfoldable pub fetch_requested : Link → Runtime → ℤ → Option Bytes → M World Samples
    fetch_requested link runtime n none = pure (not_fetched n)
    fetch_requested link runtime n (some request) =
        stream_fetch_ult runtime (read_message link.input_read request get_stream_fetch_in)
        >>= receive link.output_read n

    unfoldable pub remote_stream_fetch : Link → Runtime → ℕ → ℤ → M World Samples
    remote_stream_fetch link runtime stream_id num_samples_requested =
        let n = clamp num_samples_requested in
        let request : StreamFetchIn = record {
          stream_id = stream_id;
          count = n;
          bulk = link.bulk;
        } in
        fetch_requested link runtime n (sent link (put_stream_fetch_in request))
