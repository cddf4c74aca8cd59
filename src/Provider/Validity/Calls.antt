-- ===== src/Provider/Validity/Calls.antt =====
-- The calls of the application, one by one and in sequences, and the invariant.
use aggregator.Base.{
  ℕ, ◌≡◌, sym, ap, subst, ◌∙◌, List, [], ◌∷◌, Option, none, some, Bool-cases, Option-cases, inl,
  inr, arith, M, Outcome, done, ub, pure, and_then, ◌>>=◌, ◌>>◌, >>=-eq-done,
}
use aggregator.Common.{ReturnCode, StreamType, CString, Sample, TagList}
use aggregator.Common.Hash.{id_from_string_identifiers}
use aggregator.Double.{Double}
use aggregator.Memory.{Heap}
use aggregator.Stream.{stream_update, update_gauge_by_fixed_amount}
use aggregator.TagLists.{taglist_create, taglist_destroy}
use aggregator.Provider.Validity.Kept.{taglist_create-IsValid, taglist_destroy-IsValid}
use aggregator.Uthash.{Uthash}
use aggregator.Provider.{
  World, on_heap, lifted, stream_create, load_taglist, stream_destroy, destroy_all_streams,
}
use aggregator.Provider.Create.{
  Request, create, fits, GivesId, create-new, create-taken, create-too_long,
}
use aggregator.Provider.Destroy.{destroy-unknown, destroy_lem, destroy_all_lem, destroy-dangling}
use aggregator.Provider.Validity.{IsValid}
use aggregator.Provider.Validity.Effect.{
  Effect, faults, refuses, records, update-Effect, gauge-Effect,
}
use aggregator.Provider.Validity.Registry.{registered-IsValid, orphaned-IsValid, pushed-IsValid}

-- A call of the application with its arguments.
pub data Operation : Type 0 where
  creates : Option CString → Option CString → StreamType → Option CString → ℕ → Operation
  destroys : ℕ → Operation
  destroys_all : Operation
  updates : ℕ → Sample → Operation
  adjusts : ℕ → Sample → Operation
  makes_tags : ℕ → List CString → Operation
  drops_tags : ℕ → Operation

module _ ⦃H : Uthash⦄ where
  same_world : {A : Type 0} {a b : A} {w v : World} → IsValid w → done a w ≡ done b v → IsValid v
  same_world {a = a} {b = b} {w = w} {v = v} ok e = let equal : w ≡ v = cc in subst IsValid equal ok

  lifted-IsValid :
      (w v : World) (m : ℕ) (o : Outcome Heap ReturnCode) (code : ReturnCode)
      → IsValid w
      → Effect w.heap m o
      → lifted w o ≡ done code v
      → IsValid v
  lifted-IsValid w v m o code ok (faults g f) e = cc (ap (lifted w) f)
  lifted-IsValid w v m o code ok (refuses c f) e = same_world ok (sym (ap (lifted w) f) ∙ e)
  lifted-IsValid w v m o code ok (records s buf x loaded allocated room f) e =
      same_world (pushed-IsValid w m s buf x ok loaded allocated room) (sym (ap (lifted w) f) ∙ e)

  module _ (w : World) (r : Request) where
    pub create-no_tags : w.heap.taglists r.taglist ≡ none → create r w ≡ ub w
    unfolding stream_create load_taglist
    create-no_tags e = ground arith

    pub create-no_id :
        (tags : TagList)
        → w.heap.taglists r.taglist ≡ some tags
        → id_from_string_identifiers r.ns r.name tags.taglist tags.num_tags ≡ none
        → create r w ≡ ub w
    unfolding stream_create load_taglist
    create-no_id tags e n = ground arith

    create_found-IsValid :
        (id : ℕ) (a : ReturnCode × Option ℕ) (v : World)
        → GivesId w r id
        → IsValid w
        → create r w ≡ done a v
        → IsValid v
    create_found-IsValid id a v g ok e = elim (Bool-cases (fits r.ns r.name r.desc)) [
      | inl fit ↦ elim (Option-cases (H.find w.provider.streams id)) [
        | inl absent ↦
            same_world (registered-IsValid w r id fit ok absent)
              (sym (create-new w r id g fit absent) ∙ e)
        | inr (q, taken) ↦
            same_world (orphaned-IsValid w r id fit ok)
              (sym (create-taken w r id g q fit taken) ∙ e)
      ]
      | inr long ↦ cc (create-too_long w r id g long).1
    ]

    create-IsValid :
        (a : ReturnCode × Option ℕ) (v : World) → IsValid w → create r w ≡ done a v → IsValid v
    create-IsValid a v ok e = elim (Option-cases (w.heap.taglists r.taglist)) [
      | inl gone ↦ cc (create-no_tags gone)
      | inr (tags, there) ↦
          elim (Option-cases (id_from_string_identifiers r.ns r.name tags.taglist tags.num_tags)) [
            | inl over ↦ cc (create-no_id tags there over)
            | inr (id, i) ↦ create_found-IsValid id a v (tags, there, i) ok e
          ]
    ]

  destroy-IsValid :
      (w v : World) (m : ℕ) (code : ReturnCode)
      → IsValid w
      → stream_destroy m w ≡ done code v
      → IsValid v
  destroy-IsValid w v m code ok e = elim (Option-cases (w.heap.streams m)) [
    | inl gone ↦ cc (destroy-dangling w m gone)
    | inr (s, found) ↦ elim (Option-cases (H.find w.provider.streams s.id)) [
      | inl absent ↦ same_world ok (sym (destroy-unknown w m s found absent) ∙ e)
      | inr (p, there) ↦ cc (destroy_lem w m p s ok found there)
    ]
  ]

  destroy_all-IsValid :
      (w v : World) (code : ReturnCode)
      → IsValid w
      → destroy_all_streams w ≡ done code v
      → IsValid v
  destroy_all-IsValid w v code ok e = let r = destroy_all_lem w ok in same_world r.2 (sym r.1 ∙ e)

module _ ⦃F : Double⦄ ⦃H : Uthash⦄ where
  -- The call, whose result is not looked at.
  unfoldable pub execute : Operation → M World (Unit {0})
  execute (creates ns name t desc tl) = stream_create ns name t desc tl >>= λ _. pure tt
  execute (destroys m) = stream_destroy m >>= λ _. pure tt
  execute destroys_all = destroy_all_streams >>= λ _. pure tt
  execute (updates m x) = on_heap (stream_update m x.val x.time x.sample_id) >>= λ _. pure tt
  execute (adjusts m x) =
      on_heap (update_gauge_by_fixed_amount m x.val x.time x.sample_id) >>= λ _. pure tt
  execute (makes_tags n args) = on_heap (taglist_create n args) >>= λ _. pure tt
  execute (drops_tags tl) = on_heap (taglist_destroy tl) >>= λ _. pure tt

  ended :
      {A : Type 0} (o : Outcome World A) (v : World)
      → and_then (λ _. pure tt) o ≡ done tt v
      → (a : A) × (o ≡ done a v)
  ended o v e =
      let (a, t, first, rest) = >>=-eq-done o (λ _. pure tt) e in
      let equal : t ≡ v = cc in (a, first ∙ ap (done a) equal)

  create_ended :
      (w v : World) (ns name : Option CString) (t : StreamType) (desc : Option CString) (tl : ℕ)
      → IsValid w
      → (a : ReturnCode × Option ℕ) → stream_create ns name t desc tl w ≡ done a v
      → IsValid v
  unfolding stream_create
  create_ended w v none name t desc tl ok a e = same_world ok e
  create_ended w v (some ns) none t desc tl ok a e = same_world ok e
  create_ended w v (some ns) (some name) t desc tl ok a e =
      create-IsValid w (record { ns = ns; name = name; type = t; desc = desc; taglist = tl }) a v ok
        e

  execute-IsValid :
      (w v : World) (op : Operation) → IsValid w → execute op w ≡ done tt v → IsValid v
  unfolding execute
  execute-IsValid w v (creates ns name t desc tl) ok e =
      let (a, first) = ended (stream_create ns name t desc tl w) v e in
      create_ended w v ns name t desc tl ok a first
  execute-IsValid w v (destroys m) ok e =
      let (a, first) = ended (stream_destroy m w) v e in destroy-IsValid w v m a ok first
  execute-IsValid w v destroys_all ok e =
      let (a, first) = ended (destroy_all_streams w) v e in destroy_all-IsValid w v a ok first
  execute-IsValid w v (updates m x) ok e =
      let o = stream_update m x.val x.time x.sample_id w.heap in
      let (a, first) = ended (lifted w o) v e in
      lifted-IsValid w v m o a ok (update-Effect w.heap m x ok.heap_ok) first
  execute-IsValid w v (adjusts m x) ok e =
      let o = update_gauge_by_fixed_amount m x.val x.time x.sample_id w.heap in
      let (a, first) = ended (lifted w o) v e in
      lifted-IsValid w v m o a ok (gauge-Effect w.heap m x ok.heap_ok) first
  execute-IsValid w v (makes_tags n args) ok e =
      let (a, first) = ended (lifted w (taglist_create n args w.heap)) v e in
      taglist_create-IsValid w v n args a ok first
  execute-IsValid w v (drops_tags tl) ok e =
      let (a, first) = ended (lifted w (taglist_destroy tl w.heap)) v e in
      taglist_destroy-IsValid w v tl a ok first

  -- The calls one after another, as far as they are defined.
  unfoldable pub run : List Operation → M World (Unit {0})
  run [] = pure tt
  run (op ∷ ops) = execute op >> run ops

  -- The invariant holds after any sequence of calls on streams and tag lists, failing
  -- ones included, that starts where it holds and has no undefined behaviour.
  run-IsValid : (ops : List Operation) (w v : World) → IsValid w → run ops w ≡ done tt v → IsValid v
  unfolding run
  run-IsValid [] w v ok e = same_world ok e
  run-IsValid (op ∷ ops) w v ok e =
      let (a, t, first, rest) = >>=-eq-done (execute op w) (λ _. run ops) e in
      run-IsValid ops t v (execute-IsValid w t op ok first) rest
