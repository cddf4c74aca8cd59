-- ===== src/Provider/Validity/Kept.antt =====
-- Calls on tag lists, which do not touch streams and buffers, and the invariant.
use aggregator.Base.{ℕ, ◌≡◌, sym, ap, subst, ◌∙◌, List, some, arith, Outcome, done, ub}
use aggregator.Common.{ReturnCode, CString}
use aggregator.Memory.{Stream, Heap}
use aggregator.Uthash.{Uthash}
use aggregator.TagLists.{taglist_create, taglist_destroy}
use aggregator.TagLists.Lifetime.{Keeps, taglist_create-Keeps, taglist_destroy-Keeps}
use aggregator.Provider.{World, lifted}
use aggregator.Provider.Validity.{IsHeap, Backed, IsValid}

kept-IsHeap : (h g : Heap) → IsHeap h → Keeps h g → IsHeap g
kept-IsHeap h g v k = record {
  live = λ p s e. let b = v.live p s (before p s e) in (b.0, ap (λ f. f s.buffer) k.1 ∙ b.1, b.2);
  own = λ p q s t e f same. v.own p q s t (before p s e) (before q t f) same;
  named = λ p s e. v.named p s (before p s e);
  no_stream = λ p le. ap (λ f. f p) k.0 ∙ v.no_stream p (omega (arith, k.2));
  no_buffer = λ b le. ap (λ f. f b) k.1 ∙ v.no_buffer b (omega (arith, k.2));
}
  where
    before : (p : ℕ) (s : Stream) → g.streams p ≡ some s → h.streams p ≡ some s
    before p s e = ap (λ f. f p) (sym k.0) ∙ e

module _ ⦃H : Uthash⦄ where
  pub kept-IsValid :
      (w : World) (g : Heap) → IsValid w → Keeps w.heap g → IsValid (record w { heap = g })
  kept-IsValid w g v k = record {
    heap_ok = kept-IsHeap w.heap g v.heap_ok k;
    backed = subst (λ f. Backed f (H.items w.provider.streams)) (sym k.0) v.backed;
    distinct = v.distinct;
    counted = v.counted;
  }

  lifted-eq-done :
      {A : Type 0} (w v : World) (o : Outcome Heap A) (a : A)
      → lifted w o ≡ done a v
      → (g : Heap) × (o ≡ done a g) × (record w { heap = g } ≡ v)
  lifted-eq-done w v (done b g) a e = (g, (let same : b ≡ a = cc in ap (λ c. done c g) same), cc)
  lifted-eq-done w v (ub g) a e = cc

  pub taglist_create-IsValid :
      (w v : World) (n : ℕ) (args : List CString) (a : ReturnCode × ℕ)
      → IsValid w
      → lifted w (taglist_create n args w.heap) ≡ done a v
      → IsValid v
  taglist_create-IsValid w v n args a ok e =
      let (g, ends, same) = lifted-eq-done w v _ a e in
      subst IsValid same (kept-IsValid w g ok (taglist_create-Keeps n args w.heap g a ends))

  pub taglist_destroy-IsValid :
      (w v : World) (tl : ℕ) (code : ReturnCode)
      → IsValid w
      → lifted w (taglist_destroy tl w.heap) ≡ done code v
      → IsValid v
  taglist_destroy-IsValid w v tl code ok e =
      let (g, ends, same) = lifted-eq-done w v _ code e in
      subst IsValid same (kept-IsValid w g ok (taglist_destroy-Keeps tl w.heap g code ends))
