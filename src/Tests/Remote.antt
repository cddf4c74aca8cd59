-- ===== src/Tests/Remote.antt =====
-- The theorems on the remote calls, at concrete inputs.
use aggregator.Base.{
  ℕ, List, length, ◌↔◌, ◌≡◌, refl, sym, ap, subst, ◌∙◌, ℕ_discrete, [], ◌∷◌, none, some, true, pos,
  min, take, arith, done, ub,
}
use aggregator.Common.{success, counter}
use aggregator.Memory.{Stream, update_ne}
use aggregator.Wire.{
  encode_list_streams_out, decode_list_streams_out, encode_stream_fetch_out,
  decode_stream_fetch_out, put_members, put_head, put_ids, put_stream_fetch_out, StreamFetchOut,
  put_list_streams_in, get_list_streams_in, put_stream_fetch_in, get_stream_fetch_in,
}
use aggregator.Wire.Roundtrip.{messages-roundtrip}
use aggregator.Provider.{World, find_stream}
use aggregator.Provider.Validity.{HasBuffer, IsNamed, IsValid}
use aggregator.Provider.Listing.{list_streams_ult}
use aggregator.Provider.Listing.Exact.{IsListed, list-exact}
use aggregator.Provider.Fetch.{Runtime, stream_fetch_ult}
use aggregator.Provider.Fetch.Unanswered.{fetch-unanswered}
use aggregator.Client.{remote_list_streams}
use aggregator.Client.Newest.{wanted, working}
use aggregator.Client.Listed.{list_streams-oldest}
use aggregator.Tests.Data.{whole, table, procs, two_samples, heap_of, stream_of}

-- A provider with one counter, with the identifier 7, that has recorded 3 and then 5.
abbrev one_counter : World
one_counter = record {
  heap = heap_of counter 2 two_samples;
  provider = record {
    mid = 1;
    provider_id = 1;
    pool = 0;
    abtio = 0;
    num_streams = 1;
    streams = (7, 1) ∷ [];
    list_streams_id = 5;
    stream_fetch_id = 6;
  };
}

only :
    (p : ℕ) (s : Stream) → one_counter.heap.streams p ≡ some s → (1 ≡ p) × (stream_of counter 2 ≡ s)
only p s e = elim (ℕ_discrete 1 p) [
  | yes same ↦
      let there : some (stream_of counter 2) ≡ some s = ap one_counter.heap.streams same ∙ e in
      (same, cc)
  | no n ↦ cc (update_ne (λ q. none) 1 (some (stream_of counter 2)) p n)
]

one_counter-IsValid : IsValid one_counter
one_counter-IsValid = record {
  heap_ok = record {
    live =
        λ p s e. subst (HasBuffer one_counter.heap) (only p s e).1 (two_samples, refl, omega arith);
    own = λ p q s t e f same. sym (only p s e).0 ∙ (only q t f).0;
    named = λ p s e. subst IsNamed (only p s e).1 (omega arith, omega arith);
    no_stream = λ p le. ground arith;
    no_buffer = λ b le. ground arith;
  };
  backed = ((stream_of counter 2, refl, refl), tt);
  distinct = (refl, tt);
  counted = omega arith;
}

abbrev answered : StreamFetchOut
answered = record {
  actual_count = some (pos 2);
  name = some (110 ∷ []);
  ns = some (115 ∷ []);
  ret = success;
}

encoded :
    encode_stream_fetch_out {S = ℕ} answered 0 ≡ done (some (0 ∷ 2 ∷ 1 ∷ 110 ∷ 1 ∷ 115 ∷ 0 ∷ [])) 0
unfolding encode_stream_fetch_out put_stream_fetch_out
encoded = refl

list_encoded :
    encode_list_streams_out {S = ℕ}
      (record { ret = success; count = some 1; ids = some (7 ∷ 8 ∷ []) })
      0
    ≡ done (some (0 ∷ 1 ∷ 7 ∷ [])) 0
unfolding encode_list_streams_out put_members put_head put_ids
list_encoded = refl

list-exact_example :
    (ids : List ℕ) × (list_streams_ult (some 4) one_counter
      ≡ done (put_members success (min (length ids) 4) (some ids)) one_counter)
    × ((j : ℕ)
        → IsListed j ids ↔ ((p : ℕ) × (find_stream j one_counter ≡ done (some p) one_counter)))
list-exact_example = list-exact one_counter 4 one_counter-IsValid (omega arith)

abbrev runtime : Runtime
runtime = record { bulk_created = true; transferred = true }

fetch-unanswered_example :
    (stream_fetch_ult runtime (some (record { stream_id = 8; count = pos 3; bulk = 2 })) one_counter
      ≡ ub one_counter)
    × (stream_fetch_ult runtime none one_counter ≡ ub one_counter)
    × (list_streams_ult none one_counter ≡ ub one_counter)
fetch-unanswered_example =
    fetch-unanswered runtime one_counter (record { stream_id = 8; count = pos 3; bulk = 2 }) refl

fetch_asked :
    put_stream_fetch_in (record { stream_id = 7; count = pos (wanted (pos 1)); bulk = 2 })
    ≡ some (7 ∷ 0 ∷ 1 ∷ 2 ∷ [])
unfolding put_stream_fetch_in
fetch_asked = refl

list_asked : put_list_streams_in 4 ≡ some (4 ∷ [])
unfolding put_list_streams_in
list_asked = refl

messages-roundtrip_example :
    (get_list_streams_in (4 ∷ []) ≡ some 4)
    × (get_stream_fetch_in (7 ∷ 0 ∷ 1 ∷ 2 ∷ [])
        ≡ some (record { stream_id = 7; count = pos (wanted (pos 1)); bulk = 2 }))
    × (decode_list_streams_out (0 ∷ 1 ∷ 7 ∷ [])
        ≡ some (record { ret = success; count = some 1; ids = some (take 1 (7 ∷ 8 ∷ [])) }))
    × (decode_stream_fetch_out (0 ∷ 2 ∷ 1 ∷ 110 ∷ 1 ∷ 115 ∷ 0 ∷ []) ≡ some answered)
messages-roundtrip_example =
    messages-roundtrip 4 (record { stream_id = 7; count = pos (wanted (pos 1)); bulk = 2 }) success
      1 (7 ∷ 8 ∷ []) answered (4 ∷ []) (7 ∷ 0 ∷ 1 ∷ 2 ∷ []) (0 ∷ 1 ∷ 7 ∷ [])
      (0 ∷ 2 ∷ 1 ∷ 110 ∷ 1 ∷ 115 ∷ 0 ∷ []) 0 0 0 0 list_asked fetch_asked list_encoded encoded

listed_encoded : put_members success (min 1 4) (some (7 ∷ [])) ≡ some (0 ∷ 1 ∷ 7 ∷ [])
unfolding put_members put_head put_ids
listed_encoded = refl

list_streams-oldest_example :
    remote_list_streams (working 2) 4 (0 ∷ 0 ∷ 0 ∷ 0 ∷ []) one_counter
    ≡ done (record { ret = success; count = min 1 4; ids = 7 ∷ 0 ∷ 0 ∷ 0 ∷ [] }) one_counter
list_streams-oldest_example =
    list_streams-oldest one_counter 4 2 (0 ∷ 0 ∷ 0 ∷ 0 ∷ []) (4 ∷ []) (0 ∷ 1 ∷ 7 ∷ [])
      one_counter-IsValid (omega arith) (omega arith) list_asked listed_encoded
