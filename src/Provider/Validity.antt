-- ===== src/Provider/Validity.antt =====
-- The invariant of the heap and of the registry.
pub mod Heaps
pub mod Registry
pub mod Effect
pub mod Kept
pub mod Calls
use aggregator.Base.{
  ℕ, suc, ◌+◌, ◌≤◌, ◌<◌, ◌≡◌, ◌≢◌, refl, sym, ap, ◌∙◌, List, [], ◌∷◌, ◌++◌, Option, none, some,
  arith, u64, length,
}
use aggregator.Common.{Sample, stream_buffer_size}
use aggregator.Memory.{Stream, Heap, update, update_self, update_ne}
use aggregator.Uthash.{Uthash, Item, lookup, erase}
use aggregator.Provider.{Provider, World}

-- The stream has a buffer, and its index lies inside or at the end of it.
abbrev pub HasBuffer : Heap → Stream → Type 0
HasBuffer h s =
    (buf : ℕ → Sample) × (h.buffers s.buffer ≡ some buf) × (s.buffer_index ≤ stream_buffer_size)

-- The name and the namespace lie in their arrays, terminator included.
abbrev pub IsNamed : Stream → Type 0
IsNamed s = (length s.name < 36) × (length s.ns < 36)

-- Every stream has a buffer of its own and names that fit, and what the allocator has not handed out is not in use.
pub record IsHeap (h : Heap) : Type 0 where
  pub live : (p : ℕ) (s : Stream) → h.streams p ≡ some s → HasBuffer h s
  pub own :
      (p q : ℕ) (s t : Stream)
      → h.streams p ≡ some s
      → h.streams q ≡ some t
      → s.buffer ≡ t.buffer
      → p ≡ q
  pub named : (p : ℕ) (s : Stream) → h.streams p ≡ some s → IsNamed s
  pub no_stream : (p : ℕ) → h.fresh ≤ p → h.streams p ≡ none
  pub no_buffer : (b : ℕ) → h.fresh ≤ b → h.buffers b ≡ none

-- Every item is a stream in the heap that has the item's key for its identifier.
abbrev pub Backed : (ℕ → Option Stream) → List Item → Type 0
Backed streams [] = Unit {0}
Backed streams ((k, p) ∷ items) =
    ((s : Stream) × (streams p ≡ some s) × (s.id ≡ k)) × Backed streams items

-- No key stands twice.
abbrev pub Distinct : List Item → Type 0
Distinct [] = Unit {0}
Distinct ((k, p) ∷ items) = (lookup k items ≡ none) × Distinct items

module _ ⦃H : Uthash⦄ where
  pub record IsValid (w : World) : Type 0 where
    pub heap_ok : IsHeap w.heap
    pub backed : Backed w.heap.streams (H.items w.provider.streams)
    pub distinct : Distinct (H.items w.provider.streams)
    pub counted : w.provider.num_streams ≡ u64 (length (H.items w.provider.streams))
