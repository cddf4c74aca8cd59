-- ===== src/Tests/Lifecycles.antt =====
-- The theorems on registrations and tag lists, at concrete inputs.
use aggregator.Base.{ℕ, ◌≡◌, refl, List, [], ◌∷◌, none, some, true, arith, done, ub}
use aggregator.Common.{success, CString}
use aggregator.Common.Hash.{id_from_string_identifiers}
use aggregator.Memory.{Heap}
use aggregator.Margo.{Margo, remote_stream_fetch, remote_list_streams}
use aggregator.Margo.Table.{Registry, registry, put_id}
use aggregator.Provider.{Provider, World, load_taglist}
use aggregator.Provider.Validity.{IsHeap, IsValid}
use aggregator.Provider.Destroy.{IsEmptied}
use aggregator.Provider.Lifecycle.{Process, provider_register, provider_destroy}
use aggregator.Provider.Lifecycle.Register.{IsServed, register-IsServed}
use aggregator.Provider.Lifecycle.Finalize.{destroy_reads_freed}
use aggregator.Client.Init.{ClientProcess}
use aggregator.TagLists.{taglist_create, taglist_destroy}
use aggregator.TagLists.Lifetime.{Keeps, taglist-lifetime}
use aggregator.Tests.Data.{table}

instance abbrev pub procedures : Margo
procedures = registry

abbrev pub quiet : Registry
quiet = record { listening = true; ids = λ n k. none; data_of = λ id. none; next = 50 }

abbrev pub empty_heap : Heap
empty_heap = record { streams = λ p. none; buffers = λ b. none; taglists = λ l. none; fresh = 1 }

pub empty-IsHeap : IsHeap empty_heap
empty-IsHeap = record {
  live = λ p s e. cc;
  own = λ p q s t e f same. cc;
  named = λ p s e. cc;
  no_stream = λ p le. refl;
  no_buffer = λ b le. refl;
}

abbrev pub before : Process
before = record { margo = quiet; providers = λ p. none; heap = empty_heap }

register-IsServed_example :
    (v : Process) × (p : ℕ) × (provider : Provider) × (provider_register 1 4 none before
      ≡ done (success, some p) v)
    × IsServed v p provider
    × (provider.provider_id ≡ 4)
    × (table.items provider.streams ≡ [])
    × IsValid (record { heap = v.heap; provider = provider })
register-IsServed_example = register-IsServed before 1 4 none empty-IsHeap refl refl

-- A process with a provider at 3 that both procedures lead to.
abbrev served_provider : Provider
served_provider = record {
  mid = 1;
  provider_id = 4;
  pool = 0;
  abtio = 0;
  num_streams = 0;
  streams = [];
  list_streams_id = 51;
  stream_fetch_id = 50;
}

abbrev serving : Process
serving = record {
  margo = record {
    listening = true;
    ids =
        put_id (put_id (λ n k. none) remote_stream_fetch (some 4) 50) remote_list_streams (some 4)
          51;
    data_of = λ id. some 3;
    next = 52;
  };
  providers = λ p. some served_provider;
  heap = empty_heap;
}

serving-IsServed : IsServed serving 3 served_provider
serving-IsServed = record {
  there = refl;
  fetch = refl;
  list = refl;
  fetch_data = refl;
  list_data = refl;
}

served-IsValid : IsValid (record { heap = empty_heap; provider = served_provider })
served-IsValid = record {
  heap_ok = empty-IsHeap;
  backed = tt;
  distinct = tt;
  counted = omega arith;
}

destroy_reads_freed_example :
    (v : Process) × (w : World) × (provider_destroy 3 serving ≡ ub v)
    × (procedures.registered v.margo remote_stream_fetch (some 4) ≡ none)
    × (procedures.registered v.margo remote_list_streams (some 4) ≡ none)
    × (v.providers 3 ≡ none)
    × (v.heap ≡ w.heap)
    × IsEmptied (record { heap = empty_heap; provider = served_provider }) [] w
destroy_reads_freed_example =
    destroy_reads_freed serving 3 served_provider serving-IsServed served-IsValid

abbrev pub no_clients : ClientProcess
no_clients = record {
  margo = quiet;
  store = record { clients = λ c. none; handles = []; fresh = 1 };
}

abbrev two_tags : List CString
two_tags = (97 ∷ []) ∷ (98 ∷ []) ∷ []

taglist-lifetime_example :
    (tl id : ℕ) × (g k : Heap) × (taglist_create 2 two_tags empty_heap ≡ done (success, tl) g)
    × (load_taglist tl g ≡ done (record { taglist = two_tags; num_tags = 2 }) g)
    × (id_from_string_identifiers (97 ∷ []) (98 ∷ []) two_tags 2 ≡ some id)
    × (taglist_destroy tl g ≡ done success k)
    × (k.taglists tl ≡ none)
    × Keeps empty_heap g
    × Keeps g k
taglist-lifetime_example =
    taglist-lifetime two_tags (97 ∷ []) (98 ∷ []) empty_heap (omega arith, (omega arith, tt))
