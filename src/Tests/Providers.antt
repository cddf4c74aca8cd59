-- ===== src/Tests/Providers.antt =====
-- The theorems on the registry, at concrete inputs.
use aggregator.Base.{ℕ, ◌≡◌, refl, List, [], ◌∷◌, none, some, arith, done, ub}
use aggregator.Common.{success, counter, gauge, zero_sample}
use aggregator.Common.Hash.{id_from_string_identifiers, aggregator_hash}
use aggregator.Memory.{Stream, update, load, store, read_sample, write_sample}
use aggregator.Stream.{stream_update, is_refused, push_sample}
use aggregator.Provider.{
  Provider, World, zero_stream, stream_create, load_taglist, calloc_stream, set_up, strcpy,
  calloc_buffer, add_stream, find_stream, hash_add, remove_all_streams, remove_loop, hash_del,
  free_stream, set_num_streams, stream_destroy, destroy_all_streams,
}
use aggregator.Provider.Create.{
  Request, requested, create, GivesId, registered, orphaned, create-taken,
}
use aggregator.Provider.Destroy.{IsEmptied, destroy_use_after_free, destroy_all_lem}
use aggregator.Provider.Validity.{IsValid}
use aggregator.Provider.Validity.Registry.{removed, registered-IsValid}
use aggregator.Provider.Validity.Calls.{Operation, creates, destroys_all, updates, execute, run}
use aggregator.Client.{remote_stream_get_id}
use aggregator.Client.Identity.{get_id-create}
use aggregator.Tests.Data.{whole, table, sample}

abbrev no_streams : Provider
no_streams = record {
  mid = 1;
  provider_id = 1;
  pool = 0;
  abtio = 0;
  num_streams = 0;
  streams = [];
  list_streams_id = 5;
  stream_fetch_id = 6;
}

-- A heap with one tag list, at 9.
abbrev pub empty_world : World
empty_world = record {
  heap = record {
    streams = λ p. none;
    buffers = λ b. none;
    taglists = update (λ l. none) 9 (some (record { taglist = []; num_tags = 0 }));
    fresh = 10;
  };
  provider = no_streams;
}

pub empty-IsValid : IsValid empty_world
empty-IsValid = record {
  heap_ok = record {
    live = λ p s e. cc;
    own = λ p q s t e f same. cc;
    named = λ p s e. cc;
    no_stream = λ p le. refl;
    no_buffer = λ b le. refl;
  };
  backed = tt;
  distinct = tt;
  counted = omega arith;
}

abbrev request : Request
request = record {
  ns = 97 ∷ [];
  name = 98 ∷ [];
  type = counter;
  desc = some (99 ∷ []);
  taglist = 9;
}

-- 177670 xor 177671
gives_id :
    (w : World)
    → w.heap.taglists 9 ≡ some (record { taglist = []; num_tags = 0 })
    → GivesId w request 1
unfolding id_from_string_identifiers aggregator_hash
gives_id w e = (record { taglist = []; num_tags = 0 }, e, refl)

abbrev one_world : World
one_world = registered empty_world request 1

create-taken_example :
    create request one_world ≡ done (success, some 12) (orphaned one_world request 1)
create-taken_example = create-taken one_world request 1 (gives_id one_world refl) 10 refl refl

one-IsValid : IsValid one_world
one-IsValid = registered-IsValid empty_world request 1 refl empty-IsValid refl

destroy_use_after_free_example :
    (stream_destroy 10 one_world ≡ ub (removed one_world 10))
    × IsValid (removed one_world 10)
    × ((removed one_world 10).heap.streams 10 ≡ none)
    × (table.find (removed one_world 10).provider.streams 1 ≡ none)
    × (table.find (removed one_world 10).provider.streams 2
        ≡ table.find one_world.provider.streams 2)
destroy_use_after_free_example =
    destroy_use_after_free one_world 10 10 2 (requested request 1 11) one-IsValid refl refl
      (omega arith)

destroy_all_lem_example :
    (v : World) × (destroy_all_streams one_world ≡ done success v)
    × IsValid v
    × IsEmptied one_world (table.items one_world.provider.streams) v
    × (v.provider.num_streams ≡ 0)
destroy_all_lem_example = destroy_all_lem one_world one-IsValid

-- A creation, an update, another creation of the same stream, and the destruction of all streams.
abbrev pub operations : List Operation
operations =
    creates (some (97 ∷ [])) (some (98 ∷ [])) counter (some (99 ∷ [])) 9
    ∷ updates 10 (sample 6)
    ∷ creates (some (97 ∷ [])) none gauge none 9
    ∷ destroys_all
    ∷ []

abbrev at_the_end : World
at_the_end = record {
  heap = record {
    streams =
        update
          (update
            (update (update (λ p. none) 10 (some zero_stream)) 10 (some (requested request 1 11)))
            10 (some (record (requested request 1 11) { buffer_index = 1 })))
          10 none;
    buffers =
        update (update (λ b. none) 11 (some (λ i. zero_sample))) 11
          (some (update (λ i. zero_sample) 0 (sample 6)));
    taglists = empty_world.heap.taglists;
    fresh = 12;
  };
  provider = no_streams;
}

operations-run : run operations empty_world ≡ done tt at_the_end
unfolding run execute stream_create load_taglist id_from_string_identifiers aggregator_hash
    calloc_stream set_up load store strcpy calloc_buffer add_stream find_stream hash_add
    stream_update is_refused push_sample read_sample write_sample destroy_all_streams
    remove_all_streams remove_loop hash_del free_stream set_num_streams
operations-run = refl

get_id-create_example :
    (v : World) × (m : ℕ) × (s : Stream) × (create request empty_world ≡ done (success, some m) v)
    × (remote_stream_get_id (some (97 ∷ [])) (some (98 ∷ [])) 9 v ≡ done (success, some 1) v)
    × (table.find v.provider.streams 1 ≡ some m)
    × (v.heap.streams m ≡ some s)
    × (s.id ≡ 1)
    × (s.name ≡ 98 ∷ [])
    × (s.ns ≡ 97 ∷ [])
get_id-create_example = get_id-create empty_world request 1 (gives_id empty_world refl) refl refl
