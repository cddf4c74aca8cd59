-- ===== src/Client/Identity.antt =====
-- `aggregator_remote_stream_get_id` and the stream that a provider has registered.
use aggregator.Base.{
  ℕ, suc, ◌≡◌, refl, sym, ◌∙◌, List, [], ◌∷◌, ◌++◌, none, some, true, arith, done,
}
use aggregator.Common.{success}
use aggregator.Memory.{Stream, update, update_self}
use aggregator.Uthash.{Uthash, Item, lookup}
use aggregator.Provider.{World, load_taglist, zero_stream}
use aggregator.Provider.Create.{Request, requested, fits, create, GivesId, registered, create-new}
use aggregator.Client.{remote_stream_get_id}

lookup-new :
    (k p : ℕ) (items : List Item) → lookup k items ≡ none → lookup k (items ++ (k, p) ∷ []) ≡ some p
lookup-new k p [] absent = ground arith
lookup-new k p ((j, q) ∷ items) absent = ground (arith, lookup-new k p items)

module _ ⦃H : Uthash⦄ where
  pub get_id_lem :
      (w : World) (r : Request) (id : ℕ)
      → GivesId w r id
      → remote_stream_get_id (some r.ns) (some r.name) r.taglist w ≡ done (success, some id) w
  unfolding remote_stream_get_id load_taglist
  get_id_lem w r id g = ground (arith, g.1, g.2)

  -- When a stream whose tag list is there, whose names fit and whose identifier is new has been created, a
  -- client that has the same names and tags computes its identifier, and the provider finds it, with
  -- its names, under that identifier.
  pub get_id-create :
      (w : World) (r : Request) (id : ℕ)
      → GivesId w r id
      → fits r.ns r.name r.desc ≡ true
      → H.find w.provider.streams id ≡ none
      → (v : World) × (m : ℕ) × (s : Stream) × (create r w ≡ done (success, some m) v)
        × (remote_stream_get_id (some r.ns) (some r.name) r.taglist v ≡ done (success, some id) v)
        × (H.find v.provider.streams id ≡ some m)
        × (v.heap.streams m ≡ some s)
        × (s.id ≡ id)
        × (s.name ≡ r.name)
        × (s.ns ≡ r.ns)
  get_id-create w r id g fit absent = (
    registered w r id,
    w.heap.fresh,
    requested r id (suc w.heap.fresh),
    create-new w r id g fit absent,
    get_id_lem (registered w r id) r id g,
    H.find-lookup _ id
        ∙ rw (H.items-add w.provider.streams id w.heap.fresh absent)
            (lookup-new id w.heap.fresh _ (sym (H.find-lookup w.provider.streams id) ∙ absent)),
    update_self (update w.heap.streams w.heap.fresh (some zero_stream)) w.heap.fresh _,
    refl,
    refl,
    refl,
  )
