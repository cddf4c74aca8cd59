-- ===== src/Tests/Programs.antt =====
-- The theorems on the programs, at concrete inputs.
use aggregator.Base.{
  ℕ, ◌<◌, ◌≡◌, refl, sym, ap, subst, ◌∙◌, ℕ_discrete, [], ◌∷◌, ◌++◌, map, replicate, length, All,
  none, some, true, false, pos, arith, done,
}
use aggregator.Common.{counter, CString}
use aggregator.Common.Hash.{id_from_string_identifiers, aggregator_hash}
use aggregator.Memory.{Stream, Heap, update, update_ne}
use aggregator.Wire.{
  put_list_streams_in, put_stream_fetch_in, put_members, put_head, put_ids, put_stream_fetch_out,
}
use aggregator.Margo.Directory.{Counts, taken, set_count}
use aggregator.Provider.{Provider, World}
use aggregator.Provider.Validity.{HasBuffer, IsNamed, IsValid}
use aggregator.Provider.Lifecycle.Register.{IsServed}
use aggregator.Client.Newest.{working}
use aggregator.Programs.{returned}
use aggregator.Programs.Client.{Surroundings, Session, srini, teststream2, three_tags}
use aggregator.Programs.Client.Answered.{IsAnswered}
use aggregator.Programs.Admin.{AdminSession, admin_main}
use aggregator.Programs.Admin.Run.{admin_main-clean}
use aggregator.Programs.Server.{
  ServerSurroundings, ServerSession, is_end, scan, addr_array, server_main,
}
use aggregator.Programs.Server.Scan.{Ends, scan_stops}
use aggregator.Programs.Server.Run.{server_main-serves}
use aggregator.Tests.Data.{whole, table, procs, sample, two_samples}
use aggregator.Tests.Lifecycles.{procedures, before, empty_heap, empty-IsHeap, no_clients}
use aggregator.Tests.Modules.{addresses}

-- The stream that the client asks for, with the samples 3 and then 5.
abbrev asked_stream : Stream
asked_stream = record {
  type = counter;
  buffer = 2;
  buffer_index = 2;
  desc = [];
  name = teststream2;
  ns = srini;
  taglist = 9;
  id = 2_456_029_212;
}

abbrev asked_heap : Heap
asked_heap = record {
  streams = update (λ p. none) 1 (some asked_stream);
  buffers = update (λ b. none) 2 (some two_samples);
  taglists = λ l. none;
  fresh = 3;
}

abbrev asked_world : World
asked_world = record {
  heap = asked_heap;
  provider = record {
    mid = 1;
    provider_id = 42;
    pool = 0;
    abtio = 0;
    num_streams = 1;
    streams = (2_456_029_212, 1) ∷ [];
    list_streams_id = 5;
    stream_fetch_id = 6;
  };
}

only : (p : ℕ) (s : Stream) → asked_heap.streams p ≡ some s → (1 ≡ p) × (asked_stream ≡ s)
only p s e = elim (ℕ_discrete 1 p) [
  | yes same ↦ let there : some asked_stream ≡ some s = ap asked_heap.streams same ∙ e in (same, cc)
  | no n ↦ cc (update_ne (λ q. none) 1 (some asked_stream) p n)
]

asked-IsValid : IsValid asked_world
asked-IsValid = record {
  heap_ok = record {
    live = λ p s e. subst (HasBuffer asked_heap) (only p s e).1 (two_samples, refl, omega arith);
    own = λ p q s t e f same. sym (only p s e).0 ∙ (only q t f).0;
    named = λ p s e. subst IsNamed (only p s e).1 (omega arith, omega arith);
    no_stream = λ p le. ground arith;
    no_buffer = λ b le. ground arith;
  };
  backed = ((asked_stream, refl, refl), tt);
  distinct = (refl, tt);
  counted = omega arith;
}

abbrev address : CString
address = 110 ∷ 97 ∷ []

abbrev no_counts : Counts
no_counts = λ mid a. 0

abbrev surroundings : Surroundings
surroundings = record {
  mid = 5;
  list_link = working 1;
  fetch_link = working 2;
  runtime = record { bulk_created = true; transferred = true };
  duplicate = some 2;
  ids = 0 ∷ 0 ∷ 0 ∷ 0 ∷ 0 ∷ [];
}

abbrev session : Session
session = record {
  clients = no_clients;
  addresses = no_counts;
  heap = empty_heap;
  world = asked_world;
  output = [];
}

hashed : id_from_string_identifiers srini teststream2 three_tags 3 ≡ some 2_456_029_212
unfolding id_from_string_identifiers aggregator_hash
hashed = refl

abbrev served : IsAnswered session surroundings address 2_456_029_212 (sample 5 ∷ sample 3 ∷ [])
unfolding put_list_streams_in put_members put_head put_ids put_stream_fetch_in put_stream_fetch_out
served = record {
  first = omega arith;
  unused = refl;
  mid_set = omega arith;
  svr_addr = 2;
  with_addr = taken no_counts 5 2;
  looked_up = refl;
  without_addr = set_count (taken no_counts 5 2) 5 2 0;
  addr_freed = refl;
  list_bulk = 1;
  list_works = refl;
  fetch_bulk = 2;
  fetch_works = refl;
  transfers = refl;
  addr = 2;
  duplicated = refl;
  five = refl;
  hashed = hashed;
  valid = asked-IsValid;
  small = omega arith;
  p = 1;
  type = counter;
  held = record {
    stream = asked_stream;
    buf = two_samples;
    loaded = refl;
    typed = refl;
    allocated = refl;
    recorded = refl;
    in_bounds = omega arith;
  };
  found = refl;
  list_request = _;
  list_sent = refl;
  list_answer = _;
  list_encoded = refl;
  fetch_request = _;
  fetch_sent = refl;
  fetch_answer = _;
  fetch_encoded = refl;
}

-- "na" is followed by a colon.
abbrev self : CString
self = 110 ∷ 97 ∷ 58 ∷ 49 ∷ []

scan_stops_example :
    (pre post : CString) × (self ≡ pre ++ post)
    × (scan 0 (addr_array (some self)) ≡ some (length pre))
    × (length pre < 1024)
    × All (λ c. is_end c ≡ false) pre
    × Ends post
scan_stops_example = scan_stops self (omega arith)

abbrev at_rank : ℕ → ServerSurroundings
at_rank rank = record {
  mid = 1;
  text = some self;
  rank = rank;
  opened = true;
  gathered = map (λ c. some c) self ++ (replicate 1020 none ++ replicate 1024 none);
}

abbrev server_session : ServerSession
server_session = record { process = before; file = [] }

server_main-serves_example :
    (v : ServerSession) × (p : ℕ) × (provider : Provider) × (server_main (at_rank 1) server_session
      ≡ done (returned (pos 0)) v)
    × IsServed v.process p provider
    × (provider.provider_id ≡ 42)
    × (table.items provider.streams ≡ [])
    × (v.file ≡ [])
server_main-serves_example =
    server_main-serves (at_rank 1) server_session self (omega arith) refl (omega arith)
      (omega arith) refl empty-IsHeap refl refl

-- The admin program, before it has made anything.
abbrev idle : AdminSession
idle = record {
  admins = record { admins = λ p. none; fresh = 1 };
  addresses = no_counts;
  usages = 0;
}

admin_main-clean_example :
    (v : AdminSession) × (admin_main 1 true ([] ∷ address ∷ [] ∷ []) idle
      ≡ done (returned (pos 0)) v)
    × ((b : ℕ) → v.admins.admins b ≡ none)
    × ((mid b : ℕ) → addresses.references v.addresses mid b ≡ 0)
    × (v.usages ≡ 0)
admin_main-clean_example =
    admin_main-clean idle 1 2 (taken no_counts 1 2) (set_count (taken no_counts 1 2) 1 2 0) []
      address [] (omega arith) (omega arith) refl refl refl
