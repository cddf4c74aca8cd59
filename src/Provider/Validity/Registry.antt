-- ===== src/Provider/Validity/Registry.antt =====
-- The steps of the calls on the registry, and the invariant.
use aggregator.Base.{
  ℕ, suc, ◌+◌, ◌-◌, ◌^◌, ◌<◌, ◌≡◌, ◌≢◌, refl, sym, ap, ◌∙◌, List, [], ◌∷◌, ◌++◌, Option, none, some,
  arith, u64, true, length, length-append, All, done,
}
use aggregator.Common.{success, Sample, stream_buffer_size}
use aggregator.Memory.{Stream, update, update_self, load}
use aggregator.Stream.History.{pushed}
use aggregator.Uthash.{Uthash, Item, lookup, erase}
use aggregator.Provider.{
  World, zero_stream, free_stream, hash_del, set_num_streams, find_stream, remove_stream,
}
use aggregator.Provider.Create.{Request, fits, requested, with_stream, registered, orphaned}
use aggregator.Provider.Validity.{Backed, IsValid}
use aggregator.Provider.Validity.Heaps.{freed-IsHeap, pushed-IsHeap, with_stream-IsHeap}
use aggregator.Provider.Items.{
  Backed-update, Backed-snoc, Distinct-snoc, Distinct-erase, length-erase, Backed-lookup,
  Backed-elsewhere, Backed-erase, erase-IsErased, IsErased,
}

-- An address that is not in use is not among the items.
free_away :
    (streams : ℕ → Option Stream) (p : ℕ) (items : List Item)
    → streams p ≡ none
    → Backed streams items
    → All (λ (i : Item). i.1 ≢ p) items
free_away streams p [] free b = tt
free_away streams p ((j, q) ∷ items) free b =
    ((λ e. cc (b.0.1)), free_away streams p items free b.1)

module _ ⦃H : Uthash⦄ where
  -- The items are still backed when a stream has been allocated.
  Backed-with_stream :
      (w : World) (r : Request) (id : ℕ)
      → IsValid w
      → Backed (with_stream w.heap r id).streams (H.items w.provider.streams)
  Backed-with_stream w r id v =
      let away =
        free_away w.heap.streams w.heap.fresh _ (v.heap_ok.no_stream w.heap.fresh (omega arith))
          v.backed in
      Backed-elsewhere _ w.heap.fresh _ _ away
        (Backed-elsewhere w.heap.streams w.heap.fresh _ _ away v.backed)

  pub orphaned-IsValid :
      (w : World) (r : Request) (id : ℕ)
      → fits r.ns r.name r.desc ≡ true
      → IsValid w
      → IsValid (orphaned w r id)
  orphaned-IsValid w r id fit v = record {
    heap_ok = with_stream-IsHeap w.heap r id v.heap_ok fit;
    backed = Backed-with_stream w r id v;
    distinct = v.distinct;
    counted = v.counted;
  }

  pub registered-IsValid :
      (w : World) (r : Request) (id : ℕ)
      → fits r.ns r.name r.desc ≡ true
      → IsValid w
      → H.find w.provider.streams id ≡ none
      → IsValid (registered w r id)
  registered-IsValid w r id fit v absent = record {
    heap_ok = with_stream-IsHeap w.heap r id v.heap_ok fit;
    backed = rw added (
        Backed-snoc _ id w.heap.fresh (requested r id (suc w.heap.fresh)) _
          (Backed-with_stream w r id v)
          (update_self (update w.heap.streams w.heap.fresh (some zero_stream)) w.heap.fresh _)
          refl);
    distinct = rw added (
        Distinct-snoc id w.heap.fresh _ v.distinct
          (sym (H.find-lookup w.provider.streams id) ∙ absent));
    counted = rw added (
        omega
          (arith, v.counted, length-append (H.items w.provider.streams) ((id, w.heap.fresh) ∷ [])));
  }
    where
      added :
          H.items (H.add w.provider.streams id w.heap.fresh)
          ≡ H.items w.provider.streams ++ (id, w.heap.fresh) ∷ []
      added = H.items-add w.provider.streams id w.heap.fresh absent

  pub pushed-IsValid :
      (w : World) (m : ℕ) (s : Stream) (buf : ℕ → Sample) (x : Sample)
      → IsValid w
      → w.heap.streams m ≡ some s
      → w.heap.buffers s.buffer ≡ some buf
      → s.buffer_index < stream_buffer_size
      → IsValid (record w { heap = pushed w.heap m s buf x })
  pushed-IsValid w m s buf x v e b room = record {
    heap_ok = pushed-IsHeap w.heap m s buf x v.heap_ok e b room;
    backed =
        Backed-update w.heap.streams m _ _
          (λ t f. let equal : t ≡ s = cc in ap (λ (y : Stream). y.id) equal) v.backed;
    distinct = v.distinct;
    counted = v.counted;
  }

  -- The world after `remove_stream`.
  abbrev pub removed : World → ℕ → World
  removed w p = record w {
    heap = record w.heap { streams = update w.heap.streams p none };
    provider = record w.provider {
      streams = H.del w.provider.streams p;
      num_streams = u64 (w.provider.num_streams + 2 ^ 64 - 1);
    };
  }

  module _ (w : World) (k p : ℕ) (v : IsValid w)
      (found : H.find w.provider.streams k ≡ some p) where
    in_items : lookup k (H.items w.provider.streams) ≡ some p
    in_items = sym (H.find-lookup w.provider.streams k) ∙ found

    pub item_stream : (s : Stream) × (w.heap.streams p ≡ some s) × (s.id ≡ k)
    item_stream = Backed-lookup w.heap.streams k p (H.items w.provider.streams) v.backed in_items

    erased : IsErased k p (H.items w.provider.streams) (erase p (H.items w.provider.streams))
    erased =
        erase-IsErased w.heap.streams k p item_stream.0 (H.items w.provider.streams) item_stream.1
          item_stream.2 v.backed v.distinct in_items

    pub removed-IsValid : IsValid (removed w p)
    removed-IsValid = record {
      heap_ok = freed-IsHeap w.heap p v.heap_ok;
      backed = rw (H.items-del w.provider.streams k p found) (
          Backed-elsewhere w.heap.streams p none _ erased.away
            (Backed-erase w.heap.streams p _ v.backed));
      distinct = rw (H.items-del w.provider.streams k p found) (Distinct-erase p _ v.distinct);
      counted = omega (
        arith,
        v.counted,
        ap length (H.items-del w.provider.streams k p found),
        length-erase k p (H.items w.provider.streams) in_items,
      );
    }

    -- The key is gone, and every other one leads where it led.
    pub find-removed :
        (H.find (removed w p).provider.streams k ≡ none)
        × ((j : ℕ) → j ≢ k → H.find (removed w p).provider.streams j ≡ H.find w.provider.streams j)
    find-removed = (
      H.find-lookup _ k ∙ ap (lookup k) (H.items-del w.provider.streams k p found) ∙ erased.gone,
      λ j n.
          H.find-lookup _ j
          ∙ ap (lookup j) (H.items-del w.provider.streams k p found)
          ∙ erased.others j n
          ∙ sym (H.find-lookup w.provider.streams j),
    )

    pub remove_stream_lem : remove_stream k w ≡ done success (removed w p)
    unfolding remove_stream find_stream hash_del free_stream set_num_streams load
    remove_stream_lem = ground (arith, item_stream.1)
