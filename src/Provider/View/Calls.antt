-- ===== src/Provider/View/Calls.antt =====
-- Every call of the application, and every sequence of them, against the view of the registry.
use aggregator.Base.{
  ℕ, refl, ap, subst, List, [], ◌∷◌, Option, none, some, ◌&&◌, Option-cases, inl, inr, pure,
  and_then,
}
use aggregator.Common.{StreamType, CString}
use aggregator.Common.Hash.{id_from_string_identifiers}
use aggregator.Double.{Double}
use aggregator.Uthash.{Uthash}
use aggregator.Provider.{World, stream_create}
use aggregator.Provider.Create.{Request}
use aggregator.Provider.Destroy.{destroy_all_lem}
use aggregator.Provider.Validity.{IsValid}
use aggregator.Provider.Validity.Calls.{
  Operation, creates, destroys, destroys_all, updates, adjusts, makes_tags, drops_tags, execute,
  run, create-no_tags, create-no_id,
}
use aggregator.Provider.View.{view, expected, allowed, expected_all, allowed_all}
use aggregator.Provider.View.Streams.{Meets, update-Meets, adjust-Meets}
use aggregator.Provider.View.Steps.{ended_Meets, create-Meets, destroy-Meets, emptied_view}
use aggregator.Provider.View.Tags.{makes_tags-Meets, drops_tags-Meets}

module _ ⦃F : Double⦄ ⦃H : Uthash⦄ where
  create_call :
      (w : World) (ns name : CString) (t : StreamType) (desc : Option CString) (tl : ℕ)
      → IsValid w
      → Meets
          (stream_create (some ns) (some name) t desc tl w)
          (allowed (creates (some ns) (some name) t desc tl) (view w))
          (expected (creates (some ns) (some name) t desc tl) (view w))
  unfolding allowed expected
  create_call w ns name t desc tl valid =
      let r : Request = record { ns = ns; name = name; type = t; desc = desc; taglist = tl } in
      elim (Option-cases (w.heap.taglists tl)) [
        | inl gone ↦ inr (rw gone refl, w, create-no_tags w r gone)
        | inr (tags, there) ↦
            elim (Option-cases (id_from_string_identifiers ns name tags.taglist tags.num_tags)) [
              | inl over ↦ inr (rw (there, over) refl, w, create-no_id w r tags there over)
              | inr (id, i) ↦ rw (there, i) (create-Meets w r id valid (tags, there, i))
            ]
      ]

  -- In a valid world a call of the application has no undefined behaviour exactly where the view of the
  -- registry allows it, and then it does to the view what is expected, and keeps the world valid.
  execute-Meets :
      (w : World) (op : Operation)
      → IsValid w
      → Meets (execute op w) (allowed op (view w)) (expected op (view w))
  unfolding execute allowed expected stream_create
  execute-Meets w (creates none name t desc tl) valid = inl (refl, tt, w, refl, refl, valid)
  execute-Meets w (creates (some ns) none t desc tl) valid = inl (refl, tt, w, refl, refl, valid)
  execute-Meets w (creates (some ns) (some name) t desc tl) valid =
      ended_Meets _ _ _ (create_call w ns name t desc tl valid)
  execute-Meets w (destroys m) valid = ended_Meets _ _ _ (destroy-Meets w m valid)
  execute-Meets w destroys_all valid =
      let (v, e, valid', emptied, zeroed) = destroy_all_lem w valid in
      inl (refl, tt, v, ap (and_then (λ _. pure tt)) e, emptied_view w v emptied, valid')
  execute-Meets w (updates m x) valid = ended_Meets _ _ _ (update-Meets w m x valid)
  execute-Meets w (adjusts m x) valid = ended_Meets _ _ _ (adjust-Meets w m x valid)
  execute-Meets w (makes_tags n args) valid = ended_Meets _ _ _ (makes_tags-Meets w valid n args)
  execute-Meets w (drops_tags tl) valid = ended_Meets _ _ _ (drops_tags-Meets w valid tl)

  run_step :
      (w : World) (op : Operation) (ops : List Operation)
      → ((v : World)
          → IsValid v
          → Meets (run ops v) (allowed_all ops (view v)) (expected_all ops (view v)))
      → Meets (execute op w) (allowed op (view w)) (expected op (view w))
      → Meets
          (and_then (λ _. run ops) (execute op w))
          (allowed op (view w) && allowed_all ops (expected op (view w)))
          (expected_all ops (expected op (view w)))
  run_step w op ops rest (inl (yes', a, v, e, same, valid)) =
      rw (e, yes')
        (subst (λ u. Meets (run ops v) (allowed_all ops u) (expected_all ops u)) same
          (rest v valid))
  run_step w op ops rest (inr (no', u, e)) =
      inr (
        ap (λ b. b && allowed_all ops (expected op (view w))) no',
        u,
        ap (and_then (λ _. run ops)) e,
      )

  -- A sequence of calls that starts in a valid world has no undefined behaviour exactly where the view
  -- of the registry allows each call in its turn, and then it leaves the view that is expected of
  -- the calls, one after another, and a valid world.
  pub run-Meets :
      (ops : List Operation) (w : World)
      → IsValid w
      → Meets (run ops w) (allowed_all ops (view w)) (expected_all ops (view w))
  unfolding run
  run-Meets [] w valid = inl (refl, tt, w, refl, refl, valid)
  run-Meets (op ∷ ops) w valid =
      run_step w op ops (λ v valid'. run-Meets ops v valid') (execute-Meets w op valid)
