-- ===== src/Provider/View/Tags.antt =====
-- Tag lists, as a caller of the registry sees them.
use aggregator.Base.{
  ℕ, zero, suc, ◌≡◌, refl, sym, ap, ◌∙◌, List, [], ◌∷◌, none, some, Bool, true, false, ◌&&◌,
  Option-cases, inl, inr, arith, length, take, leb, ltb, Outcome, done, ub, if◌then◌else◌,
}
use aggregator.Common.{success, CString, TagList}
use aggregator.Memory.{Heap, update}
use aggregator.TagLists.{copy_tags, taglist_create, taglist_destroy}
use aggregator.TagLists.Lifetime.{Keeps}
use aggregator.Uthash.{Uthash}
use aggregator.Provider.{World, lifted, strcpy, load_taglist}
use aggregator.Provider.Validity.{IsValid}
use aggregator.Provider.Validity.Kept.{kept-IsValid}
use aggregator.Provider.View.{view, seen, all_fit, may_drop}
use aggregator.Provider.View.Logs.{seen_same, view_eq}
use aggregator.Provider.View.Streams.{Meets, faulted}

abbrev copied : ℕ → List CString → Bool
copied n args = leb n (length args) && all_fit (take n args)

copy_tags_step :
    (n : ℕ) (arg : CString) (args : List CString) (h : Heap) (ok : Bool)
    → copy_tags n args h ≡ (if ok then done (take n args) h else ub h)
    → copy_tags (suc n) (arg ∷ args) h
      ≡ (if ltb (length arg) 288 && ok then done (arg ∷ take n args) h else ub h)
unfolding copy_tags strcpy
copy_tags_step n arg args h ok e = ground arith

copied-suc :
    (n : ℕ) (arg : CString) (args : List CString)
    → (ltb (length arg) 288 && copied n args) ≡ copied (suc n) (arg ∷ args)
copied-suc n arg args = ground arith

copy_tags_lem :
    (n : ℕ) (args : List CString) (h : Heap)
    → copy_tags n args h ≡ (if copied n args then done (take n args) h else ub h)
unfolding copy_tags
copy_tags_lem zero args h = ground arith
copy_tags_lem (suc n) [] h = ground arith
copy_tags_lem (suc n) (arg ∷ args) h =
    copy_tags_step n arg args h (copied n args) (copy_tags_lem n args h)
    ∙ ap (λ b. if b then done (arg ∷ take n args) h else ub h) (copied-suc n arg args)

abbrev with_tags : Heap → ℕ → List CString → Heap
with_tags h n tags = record h {
  taglists = update h.taglists h.fresh (some (record { taglist = tags; num_tags = n }));
  fresh = suc h.fresh;
}

taglist_create_lem :
    (n : ℕ) (args : List CString) (h : Heap) (ok : Bool)
    → copied n args ≡ ok
    → taglist_create n args h
      ≡ (if ok then done (success, h.fresh) (with_tags h n (take n args)) else ub h)
unfolding taglist_create
taglist_create_lem n args h true e = rw (copy_tags_lem n args h, e) refl
taglist_create_lem n args h false e = rw (copy_tags_lem n args h, e) refl

taglist_destroy_gone : (tl : ℕ) (h : Heap) → h.taglists tl ≡ none → taglist_destroy tl h ≡ ub h
unfolding taglist_destroy load_taglist
taglist_destroy_gone tl h e = ground arith

taglist_destroy_lem :
    (tl : ℕ) (h : Heap) (tags : TagList)
    → h.taglists tl ≡ some tags
    → taglist_destroy tl h ≡ (
        if leb tags.num_tags (length tags.taglist)
        then done success (record h { taglists = update h.taglists tl none })
        else ub h)
unfolding taglist_destroy load_taglist
taglist_destroy_lem tl h tags e = ground arith

module _ ⦃H : Uthash⦄ (w : World) (valid : IsValid w) where
  -- What a call does that keeps the streams and the buffers.
  kept-Meets :
      {A : Type 0} (o : Outcome Heap A) (ok : Bool) (a : A) (g : Heap)
      → Keeps w.heap g
      → o ≡ (if ok then done a g else ub w.heap)
      → Meets (lifted w o) ok (record (view w) { tags = g.taglists; next = g.fresh })
  kept-Meets o true a g k e = inl (
    refl,
    a,
    record w { heap = g },
    ap (lifted w) e,
    view_eq _ _
        (λ p.
          ap (λ f. seen g (f p)) k.0
          ∙ seen_same w.heap g (w.heap.streams p) (λ t f. ap (λ b. b t.buffer) k.1))
        refl refl refl,
    kept-IsValid w g valid k,
  )
  kept-Meets o false a g k e = inr (refl, w, ap (lifted w) e)

  pub makes_tags-Meets :
      (n : ℕ) (args : List CString)
      → Meets (lifted w (taglist_create n args w.heap)) (copied n args) (record (view w) {
        tags =
            update w.heap.taglists w.heap.fresh
              (some (record { taglist = take n args; num_tags = n }));
        next = suc w.heap.fresh;
      })
  makes_tags-Meets n args =
      kept-Meets _ (copied n args) _ (with_tags w.heap n (take n args)) (refl, refl, omega arith)
        (taglist_create_lem n args w.heap (copied n args) refl)

  pub drops_tags-Meets :
      (tl : ℕ)
      → Meets
          (lifted w (taglist_destroy tl w.heap))
          (may_drop (w.heap.taglists tl))
          (record (view w) { tags = update w.heap.taglists tl none })
  drops_tags-Meets tl = elim (Option-cases (w.heap.taglists tl)) [
    | inl gone ↦ faulted w _ _ _ (ap may_drop gone) (taglist_destroy_gone tl w.heap gone)
    | inr (tags, there) ↦
        kept-Meets _ (may_drop (w.heap.taglists tl)) success
          (record w.heap { taglists = update w.heap.taglists tl none }) (refl, refl, omega arith)
          (taglist_destroy_lem tl w.heap tags there
            ∙ ap
                (λ b.
                  if b
                  then done success (record w.heap { taglists = update w.heap.taglists tl none })
                  else ub w.heap)
                (sym (ap may_drop there)))
  ]
