-- ===== src/Provider/Fetch/Unanswered.antt =====
-- The error paths of the handlers, before a stream is found.
use aggregator.Base.{◌≡◌, refl, none, some, arith, ub}
use aggregator.Wire.{HgProc, StreamFetchIn, encode_stream_fetch_out, encode_list_streams_out}
use aggregator.Uthash.{Uthash}
use aggregator.Provider.{World, find_stream}
use aggregator.Provider.Listing.{list_streams_ult}
use aggregator.Provider.Fetch.{Runtime, finish, stream_fetch_ult}

module _ ⦃H : Uthash⦄ ⦃P : HgProc⦄ where
  -- A fetch of a stream that is not in the table is not answered: the answer is encoded from members
  -- that were never set. The same holds, in both handlers, of input that cannot be deserialized.
  pub fetch-unanswered :
      (runtime : Runtime) (w : World) (request : StreamFetchIn)
      → H.find w.provider.streams request.stream_id ≡ none
      → (stream_fetch_ult runtime (some request) w ≡ ub w)
        × (stream_fetch_ult runtime none w ≡ ub w)
        × (list_streams_ult none w ≡ ub w)
  unfolding stream_fetch_ult finish encode_stream_fetch_out find_stream list_streams_ult
      encode_list_streams_out
  fetch-unanswered runtime w request absent = (ground arith, refl, refl)
