-- ===== src/Provider/View/Steps.antt =====
-- Creating and destroying streams, as a caller of the registry sees it.
use aggregator.Base.{
  ℕ, suc, ◌≢◌, ◌≡◌, refl, sym, ap, ◌∙◌, List, [], ◌∷◌, ◌++◌, Option, none, some, Bool, true, false,
  Bool-cases, Option-cases, inl, inr, ℕ_discrete, arith, All, Outcome, pure, and_then,
  if◌then◌else◌,
}
use aggregator.Memory.{Stream}
use aggregator.Uthash.{Uthash, Item, lookup}
use aggregator.Provider.{World, stream_destroy}
use aggregator.Provider.Create.{
  Request, requested, create, fits, GivesId, registered, orphaned, create-new, create-taken,
  create-too_long,
}
use aggregator.Provider.Destroy.{IsEmptied, destroy-unknown, destroy_lem, destroy-dangling}
use aggregator.Provider.Validity.{IsValid}
use aggregator.Provider.Validity.Registry.{registered-IsValid, orphaned-IsValid}
use aggregator.Provider.View.{
  View, view, seen, with_record, enlisted, is_item, is_none, is_unlisted, record_of,
}
use aggregator.Provider.View.Logs.{seen_at, seen_with_stream, view_eq}
use aggregator.Provider.View.Streams.{Meets, seen_log, log}

module _ ⦃H : Uthash⦄ where
  pub ended_Meets :
      {A : Type 0} (o : Outcome World A) (ok : Bool) (after : View)
      → Meets o ok after
      → Meets (and_then (λ _. pure tt) o) ok after
  ended_Meets o ok after (inl (yes', a, v, e, same, valid)) =
      inl (yes', tt, v, ap (and_then (λ _. pure tt)) e, same, valid)
  ended_Meets o ok after (inr (no', u, e)) = inr (no', u, ap (and_then (λ _. pure tt)) e)

  enlisted_new :
      (items : List Item) (id p : ℕ)
      → lookup id items ≡ none
      → enlisted items id p ≡ items ++ (id, p) ∷ []
  enlisted_new items id p e = rw (e, enlisted) refl

  enlisted_taken :
      (items : List Item) (id p q : ℕ) → lookup id items ≡ some q → enlisted items id p ≡ items
  enlisted_taken items id p q e = rw (e, enlisted) refl

  module _ (w : World) (r : Request) (id : ℕ) (valid : IsValid w) where
    view-registered :
        H.find w.provider.streams id ≡ none
        → view (registered w r id)
          ≡ with_record (view w) (record_of (requested r id (suc w.heap.fresh)) [])
    view-registered absent =
        view_eq _ _ (seen_with_stream w.heap r id valid.heap_ok)
          (H.items-add w.provider.streams id w.heap.fresh absent
            ∙ sym (
                enlisted_new _ id w.heap.fresh
                  (sym (H.find-lookup w.provider.streams id) ∙ absent)))
          refl refl

    view-orphaned :
        (q : ℕ)
        → H.find w.provider.streams id ≡ some q
        → view (orphaned w r id)
          ≡ with_record (view w) (record_of (requested r id (suc w.heap.fresh)) [])
    view-orphaned q taken =
        view_eq _ _ (seen_with_stream w.heap r id valid.heap_ok)
          (sym (
            enlisted_taken _ id w.heap.fresh q (sym (H.find-lookup w.provider.streams id) ∙ taken)))
          refl refl

    pub create-Meets :
        GivesId w r id
        → Meets
            (create r w)
            (fits r.ns r.name r.desc)
            (with_record (view w) (record_of (requested r id (suc w.heap.fresh)) []))
    create-Meets g = elim (Bool-cases (fits r.ns r.name r.desc)) [
      | inl fit ↦ elim (Option-cases (H.find w.provider.streams id)) [
        | inl absent ↦ inl (
          fit,
          _,
          registered w r id,
          create-new w r id g fit absent,
          view-registered absent,
          registered-IsValid w r id fit valid absent,
        )
        | inr (q, taken) ↦ inl (
          fit,
          _,
          orphaned w r id,
          create-taken w r id g q fit taken,
          view-orphaned q taken,
          orphaned-IsValid w r id fit valid,
        )
      ]
      | inr long ↦ let (u, e, same) = create-too_long w r id g long in inr (long, u, e)
    ]

  pub destroy-Meets :
      (w : World) (m : ℕ)
      → IsValid w
      → Meets (stream_destroy m w) (is_unlisted (view w) (seen_at w.heap m)) (view w)
  destroy-Meets w m valid = elim (Option-cases (w.heap.streams m)) [
    | inl gone ↦
        inr (ap (λ o. is_unlisted (view w) (seen w.heap o)) gone, w, destroy-dangling w m gone)
    | inr (s, found) ↦
        let known : is_unlisted (view w) (seen_at w.heap m)
            ≡ is_unlisted (view w) (some (record_of s (log w m s valid found))) =
          ap (is_unlisted (view w)) (seen_log w m s valid found) in
        elim (Option-cases (H.find w.provider.streams s.id)) [
          | inl absent ↦ inl (
            known ∙ ap is_none (sym (H.find-lookup w.provider.streams s.id) ∙ absent),
            _,
            w,
            destroy-unknown w m s found absent,
            refl,
            valid,
          )
          | inr (p, there) ↦ inr (
            known ∙ ap is_none (sym (H.find-lookup w.provider.streams s.id) ∙ there),
            _,
            destroy_lem w m p s valid found there,
          )
        ]
  ]

  item_gone :
      (streams : ℕ → Option Stream) (p : ℕ) (items : List Item)
      → is_item p items ≡ true
      → All (λ (i : Item). streams i.1 ≡ none) items
      → streams p ≡ none
  item_gone streams p [] yes' a = cc
  item_gone streams p ((k, q) ∷ items) yes' a = elim (ℕ_discrete q p) [
    | yes same ↦ rw (← same) a.0
    | no n ↦ item_gone streams p items (ground arith) a.1
  ]

  no_item :
      (p : ℕ) (items : List Item) → is_item p items ≡ false → All (λ (i : Item). i.1 ≢ p) items
  no_item p [] no' = tt
  no_item p ((k, q) ∷ items) no' = (ground arith, no_item p items (ground arith))

  -- The records after the streams of the items are gone.
  emptied_records :
      (w v : World) (items : List Item) (p : ℕ)
      → IsEmptied w items v
      → seen_at v.heap p ≡ (if is_item p items then none else seen_at w.heap p)
  emptied_records w v items p e = elim (Bool-cases (is_item p items)) [
    | inl yes' ↦
        ap (seen v.heap) (item_gone v.heap.streams p items yes' e.freed)
        ∙ ap (λ b. if b then none else seen_at w.heap p) (sym yes')
    | inr no' ↦
        ap (seen v.heap) (e.kept p (no_item p items no'))
        ∙ ap (λ f. seen (record w.heap { buffers = f }) (w.heap.streams p)) e.buffers
        ∙ ap (λ b. if b then none else seen_at w.heap p) (sym no')
  ]

  pub emptied_view :
      (w v : World)
      → IsEmptied w (H.items w.provider.streams) v
      → view v ≡ record (view w) {
        records = λ p. if is_item p (H.items w.provider.streams) then none else seen_at w.heap p;
        items = [];
      }
  emptied_view w v e =
      view_eq _ _ (λ p. emptied_records w v (H.items w.provider.streams) p e) e.empty e.tags e.next
