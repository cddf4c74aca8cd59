-- ===== src/Provider/Destroy.antt =====
-- `aggregator_provider_stream_destroy` and `aggregator_provider_destroy_all_streams`.
use aggregator.Base.{ℕ, ◌≡◌, ◌≢◌, refl, ◌∙◌, List, [], ◌∷◌, none, some, arith, All, done, ub}
use aggregator.Common.{success, err_invalid_stream}
use aggregator.Memory.{Stream, update, update_self, update_ne, load}
use aggregator.Uthash.{Uthash, Item}
use aggregator.Provider.{
  World, find_stream, stream_destroy, destroy_all_streams, remove_all_streams, remove_loop,
  hash_del, free_stream, set_num_streams,
}
use aggregator.Provider.Validity.{IsHeap, Backed, Distinct, IsValid}
use aggregator.Provider.Validity.Registry.{
  removed, removed-IsValid, find-removed, remove_stream_lem, item_stream,
}
use aggregator.Provider.Validity.Heaps.{freed-IsHeap}
use aggregator.Provider.Items.{absent_of_key, Backed-elsewhere, erase_hit}

module _ ⦃H : Uthash⦄ where
  pub destroy-dangling : (w : World) (m : ℕ) → w.heap.streams m ≡ none → stream_destroy m w ≡ ub w
  unfolding stream_destroy load
  destroy-dangling w m e = ground arith

  -- Destroying a stream whose identifier leads nowhere is refused, and nothing changes.
  pub destroy-unknown :
      (w : World) (m : ℕ) (s : Stream)
      → w.heap.streams m ≡ some s
      → H.find w.provider.streams s.id ≡ none
      → stream_destroy m w ≡ done err_invalid_stream w
  unfolding stream_destroy find_stream load
  destroy-unknown w m s e absent = ground arith

  pub destroy_lem :
      (w : World) (m p : ℕ) (s : Stream)
      → IsValid w
      → w.heap.streams m ≡ some s
      → H.find w.provider.streams s.id ≡ some p
      → stream_destroy m w ≡ ub (removed w p)
  unfolding stream_destroy find_stream load
  destroy_lem w m p s v e found =
      let item = item_stream w s.id p v found in
      ground (arith, item.1, item.2, remove_stream_lem w s.id p v found)

  -- In a valid world, destroying a stream whose identifier leads to a stream of the table takes that one
  -- out of the table and frees it, which keeps the world valid and every other registration as it was;
  -- then it reads the mutex of the stream that it has just freed.
  pub destroy_use_after_free :
      (w : World) (m p j : ℕ) (s : Stream)
      → IsValid w
      → w.heap.streams m ≡ some s
      → H.find w.provider.streams s.id ≡ some p
      → j ≢ s.id
      → (stream_destroy m w ≡ ub (removed w p))
        × IsValid (removed w p)
        × ((removed w p).heap.streams p ≡ none)
        × (H.find (removed w p).provider.streams s.id ≡ none)
        × (H.find (removed w p).provider.streams j ≡ H.find w.provider.streams j)
  destroy_use_after_free w m p j s v e found n =
      let off = find-removed w s.id p v found in
      (
        destroy_lem w m p s v e found,
        removed-IsValid w s.id p v found,
        update_self w.heap.streams p none,
        off.0,
        off.1 j n,
      )

  -- The table of `v` is empty, and its heap is that of `w` without the streams of the items.
  pub record IsEmptied (w : World) (items : List Item) (v : World) : Type 0 where
    pub empty : H.items v.provider.streams ≡ []
    pub heap_ok : IsHeap v.heap
    pub freed : All (λ (i : Item). v.heap.streams i.1 ≡ none) items
    pub kept : (q : ℕ) → All (λ (i : Item). i.1 ≢ q) items → v.heap.streams q ≡ w.heap.streams q
    pub buffers : v.heap.buffers ≡ w.heap.buffers
    pub tags : v.heap.taglists ≡ w.heap.taglists
    pub next : v.heap.fresh ≡ w.heap.fresh

  -- One round of the loop.
  abbrev unlinked : World → ℕ → World
  unlinked w p = record w {
    heap = record w.heap { streams = update w.heap.streams p none };
    provider = record w.provider { streams = H.del w.provider.streams p };
  }

  items-unlinked :
      (w : World) (k p : ℕ) (items : List Item)
      → H.items w.provider.streams ≡ (k, p) ∷ items
      → H.items (unlinked w p).provider.streams ≡ items
  items-unlinked w k p items e =
      H.items-del w.provider.streams k p (H.find-lookup w.provider.streams k ∙ rw e (ground arith))
      ∙ rw e (erase_hit k p p items refl)

  remove_loop_lem :
      (items : List Item) (w : World)
      → H.items w.provider.streams ≡ items
      → IsHeap w.heap
      → Backed w.heap.streams items
      → Distinct items
      → (v : World) × (remove_loop items w ≡ done tt v) × IsEmptied w items v
  unfolding remove_loop hash_del free_stream load
  remove_loop_lem [] w e h b d = (
    w,
    refl,
    record {
      empty = e;
      heap_ok = h;
      freed = tt;
      kept = λ q a. refl;
      buffers = refl;
      tags = refl;
      next = refl;
    },
  )
  remove_loop_lem ((k, p) ∷ items) w e h b d =
      let s = b.0.0 in
      let away = absent_of_key w.heap.streams p s items b.1 b.0.1 (rw b.0.2 d.0) in
      let rest =
        remove_loop_lem items (unlinked w p) (items-unlinked w k p items e)
          (freed-IsHeap w.heap p h) (Backed-elsewhere w.heap.streams p none items away b.1) d.1 in
      (
        rest.0,
        ground (arith, b.0.1, rest.1),
        record {
          empty = rest.2.empty;
          heap_ok = rest.2.heap_ok;
          freed = (rest.2.kept p away ∙ update_self w.heap.streams p none, rest.2.freed);
          kept = λ q a. rest.2.kept q a.1 ∙ update_ne w.heap.streams p none q a.0;
          buffers = rest.2.buffers;
          tags = rest.2.tags;
          next = rest.2.next;
        },
      )

  -- In a valid world, destroying all streams always succeeds: it empties the table, sets the count to 0,
  -- frees exactly the streams of the table, and frees none of their buffers.
  pub destroy_all_lem :
      (w : World)
      → IsValid w
      → (v : World) × (destroy_all_streams w ≡ done success v)
        × IsValid v
        × IsEmptied w (H.items w.provider.streams) v
        × (v.provider.num_streams ≡ 0)
  unfolding destroy_all_streams remove_all_streams set_num_streams
  destroy_all_lem w v =
      let r = remove_loop_lem (H.items w.provider.streams) w refl v.heap_ok v.backed v.distinct in
      (
        record r.0 { provider = record r.0.provider { num_streams = 0 } },
        ground (arith, r.1),
        record {
          heap_ok = r.2.heap_ok;
          backed = rw r.2.empty tt;
          distinct = rw r.2.empty tt;
          counted = rw r.2.empty (omega arith);
        },
        record {
          empty = r.2.empty;
          heap_ok = r.2.heap_ok;
          freed = r.2.freed;
          kept = r.2.kept;
          buffers = r.2.buffers;
          tags = r.2.tags;
          next = r.2.next;
        },
        refl,
      )
