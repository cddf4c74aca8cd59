-- ===== src/Provider/View/Streams.antt =====
-- Recording a sample, as a caller of the registry sees it.
use aggregator.Base.{
  ℕ, ◌<◌, ◌≤◌, ◌≡◌, ◌≢◌, refl, sym, ap, ◌∙◌, ◌⊎◌, List, ◌∷◌, some, Bool, true, false, not, ◌||◌,
  Bool-cases, Option-cases, inl, inr, dec_lt, arith, length, ltb, Outcome, done, ub,
}
use aggregator.Common.{
  ReturnCode, success, err_invalid_value, StreamType, counter, timer, gauge, Sample,
  stream_buffer_size,
}
use aggregator.Double.{Double}
use aggregator.Memory.{Stream, Heap, update}
use aggregator.Stream.{stream_update, update_gauge_by_fixed_amount}
use aggregator.Stream.History.{history, Holds, Holds-length, pushed}
use aggregator.Stream.Update.{accepts, logged, update_effect, update_full}
use aggregator.Stream.Gauge.{gauge_logged, gauge_effect, gauge_full, gauge_refuses, adjustment}
use aggregator.Uthash.{Uthash}
use aggregator.Provider.{World, lifted}
use aggregator.Provider.Validity.{IsValid}
use aggregator.Provider.Validity.Effect.{update_dangling, gauge_dangling}
use aggregator.Provider.Validity.Registry.{pushed-IsValid}
use aggregator.Provider.View.{
  View, view, resampled, at_address, record_of, seen, has_room, is_no_gauge,
}
use aggregator.Provider.View.Logs.{seen_at, seen_live, seen_pushed, view_eq, update_same}

module _ ⦃H : Uthash⦄ where
  -- An outcome is what a view calls for: a result where it allows the call, and undefined otherwise.
  abbrev pub Meets : {A : Type 0} → Outcome World A → Bool → View → Type 0
  Meets {A = A} o ok after =
      ((ok ≡ true) × (a : A) × (v : World) × (o ≡ done a v) × (view v ≡ after) × IsValid v)
      ⊎ ((ok ≡ false) × (u : World) × (o ≡ ub u))

  pub faulted :
      {A : Type 0} (w : World) (ok : Bool) (o : Outcome Heap A) (after : View)
      → ok ≡ false
      → o ≡ ub w.heap
      → Meets (lifted w o) ok after
  faulted w ok o after no' e = inr (no', w, ap (lifted w) e)

  module _ (w : World) (m : ℕ) (s : Stream) (valid : IsValid w)
      (loaded : w.heap.streams m ≡ some s) where
    abbrev buf : ℕ → Sample
    buf = (valid.heap_ok.live m s loaded).0

    abbrev pub log : List Sample
    log = history buf s.buffer_index

    abbrev held : (t : StreamType) → s.type ≡ t → Holds w.heap m t log
    held t typed = record {
      stream = s;
      buf = buf;
      loaded = loaded;
      typed = typed;
      allocated = (valid.heap_ok.live m s loaded).1;
      recorded = refl;
      in_bounds = (valid.heap_ok.live m s loaded).2;
    }

    pub seen_log : seen_at w.heap m ≡ some (record_of s log)
    seen_log = ap (seen w.heap) loaded ∙ seen_live w.heap s buf (valid.heap_ok.live m s loaded).1

    resampled_log :
        (f : StreamType → List Sample → List Sample) (xs : List Sample)
        → f s.type log ≡ xs
        → resampled f (seen_at w.heap m) ≡ some (record_of s xs)
    resampled_log f xs e = rw (seen_log, e) refl

    kept_view :
        (f : StreamType → List Sample → List Sample)
        → f s.type log ≡ log
        → view w ≡ at_address (view w) m f
    kept_view f same =
        view_eq (view w) (at_address (view w) m f)
          (λ p. sym (update_same (seen_at w.heap) m _ (resampled_log f log same ∙ sym seen_log) p))
          refl refl refl

    pushed_view :
        (f : StreamType → List Sample → List Sample) (x : Sample)
        → s.buffer_index < stream_buffer_size
        → f s.type log ≡ x ∷ log
        → view (record w { heap = pushed w.heap m s buf x }) ≡ at_address (view w) m f
    pushed_view f x room grown =
        view_eq _ (at_address (view w) m f)
          (λ q.
            seen_pushed w.heap m s buf x valid.heap_ok loaded (valid.heap_ok.live m s loaded).1 room
              q
            ∙ ap (λ o. update (seen_at w.heap) m o q) (sym (resampled_log f (x ∷ log) grown)))
          refl refl refl

    -- The step of a call that records.
    recorded :
        (f : StreamType → List Sample → List Sample) (x : Sample) (ok : Bool)
        (o : Outcome Heap ReturnCode)
        → s.buffer_index < stream_buffer_size
        → f s.type log ≡ x ∷ log
        → ok ≡ true
        → o ≡ done success (pushed w.heap m s buf x)
        → Meets (lifted w o) ok (at_address (view w) m f)
    recorded f x ok o room grown yes' e = inl (
      yes',
      success,
      record w { heap = pushed w.heap m s buf x },
      ap (lifted w) e,
      pushed_view f x room grown,
      pushed-IsValid w m s buf x valid loaded (valid.heap_ok.live m s loaded).1 room,
    )

    -- The step of a call that refuses.
    refused :
        (f : StreamType → List Sample → List Sample) (ok : Bool) (o : Outcome Heap ReturnCode)
        (code : ReturnCode)
        → f s.type log ≡ log
        → ok ≡ true
        → o ≡ done code w.heap
        → Meets (lifted w o) ok (at_address (view w) m f)
    refused f ok o code same yes' e = inl (yes', code, w, ap (lifted w) e, kept_view f same, valid)

    full : stream_buffer_size ≤ length log → length log ≡ stream_buffer_size
    full ge = omega (arith, Holds-length (held s.type refl), (held s.type refl).in_bounds)

module _ ⦃F : Double⦄ where
  logged_yes :
      (t : StreamType) (xs : List Sample) (x : Sample)
      → accepts t xs x.val ≡ true
      → (logged t xs x).1 ≡ x ∷ xs
  logged_yes t xs x e = ground arith

  logged_no :
      (t : StreamType) (xs : List Sample) (x : Sample)
      → accepts t xs x.val ≡ false
      → (logged t xs x).1 ≡ xs
  logged_no t xs x e = ground arith

module _ ⦃F : Double⦄ ⦃H : Uthash⦄ where
  module _ (w : World) (m : ℕ) (x : Sample) (valid : IsValid w) where
    abbrev after_update : StreamType → List Sample → List Sample
    after_update t xs = (logged t xs x).1

    abbrev may_update : StreamType → List Sample → Bool
    may_update t xs = not (accepts t xs x.val)

    update_live_Meets :
        (s : Stream) (loaded : w.heap.streams m ≡ some s)
        → Meets
            (lifted w (stream_update m x.val x.time x.sample_id w.heap))
            (has_room may_update (seen_at w.heap m))
            (at_address (view w) m after_update)
    update_live_Meets s loaded =
        let xs = log w m s valid loaded in
        let h = held w m s valid loaded s.type refl in
        let known : has_room may_update (seen_at w.heap m)
            ≡ (not (accepts s.type xs x.val) || ltb (length xs) stream_buffer_size) =
          ap (has_room may_update) (seen_log w m s valid loaded) in
        elim (Bool-cases (accepts s.type xs x.val)) [
          | inl yes' ↦ elim (dec_lt (length xs) stream_buffer_size) [
            | yes room ↦
                recorded w m s valid loaded after_update x _ _ (omega (arith, Holds-length h))
                  (logged_yes s.type xs x yes') (known ∙ rw yes' (ground arith))
                  (update_effect w.heap m s.type xs x h room ∙ rw yes' refl)
            | no no_room ↦ faulted w _ _ _ (known ∙ rw yes' (ground arith)) (
                update_full w.heap m s.type xs x h (full w m s valid loaded (omega arith))
                ∙ rw yes' refl)
          ]
          | inr no' ↦ elim (dec_lt (length xs) stream_buffer_size) [
            | yes room ↦
                refused w m s valid loaded after_update _ _ err_invalid_value
                  (logged_no s.type xs x no') (known ∙ rw no' refl)
                  (update_effect w.heap m s.type xs x h room ∙ rw no' refl)
            | no no_room ↦
                refused w m s valid loaded after_update _ _ err_invalid_value
                  (logged_no s.type xs x no') (known ∙ rw no' refl)
                  (update_full w.heap m s.type xs x h (full w m s valid loaded (omega arith))
                    ∙ rw no' refl)
          ]
        ]

    pub update-Meets :
        Meets
          (lifted w (stream_update m x.val x.time x.sample_id w.heap))
          (has_room may_update (seen_at w.heap m))
          (at_address (view w) m after_update)
    update-Meets = elim (Option-cases (w.heap.streams m)) [
      | inl gone ↦
          faulted w _ _ _ (ap (λ o. has_room may_update (seen w.heap o)) gone)
            (update_dangling w.heap m x gone)
      | inr (s, found) ↦ update_live_Meets s found
    ]

    abbrev after_adjust : StreamType → List Sample → List Sample
    after_adjust t xs = (gauge_logged t xs x).1

    adjust_refused :
        (s : Stream) (loaded : w.heap.streams m ≡ some s)
        → is_no_gauge s.type ≡ true
        → after_adjust s.type (log w m s valid loaded) ≡ log w m s valid loaded
        → s.type ≢ gauge
        → Meets
            (lifted w (update_gauge_by_fixed_amount m x.val x.time x.sample_id w.heap))
            (has_room (λ u ys. is_no_gauge u) (seen_at w.heap m))
            (at_address (view w) m after_adjust)
    adjust_refused s loaded no_gauge same n =
        let xs = log w m s valid loaded in
        let known : has_room (λ u ys. is_no_gauge u) (seen_at w.heap m)
            ≡ (is_no_gauge s.type || ltb (length xs) stream_buffer_size) =
          ap (has_room (λ u ys. is_no_gauge u)) (seen_log w m s valid loaded) in
        refused w m s valid loaded after_adjust _ _ err_invalid_value same
          (known ∙ rw no_gauge refl)
          (gauge_refuses w.heap m s.type xs x (held w m s valid loaded s.type refl) n)

    adjust_live_Meets :
        (s : Stream) (loaded : w.heap.streams m ≡ some s) (t : StreamType)
        → s.type ≡ t
        → Meets
            (lifted w (update_gauge_by_fixed_amount m x.val x.time x.sample_id w.heap))
            (has_room (λ u ys. is_no_gauge u) (seen_at w.heap m))
            (at_address (view w) m after_adjust)
    adjust_live_Meets s loaded counter typed =
        adjust_refused s loaded (ap is_no_gauge typed)
          (ap (λ u. (gauge_logged u (log w m s valid loaded) x).1) typed) (λ e. cc)
    adjust_live_Meets s loaded timer typed =
        adjust_refused s loaded (ap is_no_gauge typed)
          (ap (λ u. (gauge_logged u (log w m s valid loaded) x).1) typed) (λ e. cc)
    adjust_live_Meets s loaded gauge typed =
        let xs = log w m s valid loaded in
        let h = held w m s valid loaded gauge typed in
        let known : has_room (λ u ys. is_no_gauge u) (seen_at w.heap m)
            ≡ (is_no_gauge s.type || ltb (length xs) stream_buffer_size) =
          ap (has_room (λ u ys. is_no_gauge u)) (seen_log w m s valid loaded) in
        let known_gauge : (is_no_gauge s.type || ltb (length xs) stream_buffer_size)
            ≡ ltb (length xs) stream_buffer_size =
          ap (λ u. is_no_gauge u || ltb (length xs) stream_buffer_size) typed in
        elim (dec_lt (length xs) stream_buffer_size) [
          | yes room ↦
              recorded w m s valid loaded after_adjust (adjustment xs x) _ _
                (omega (arith, Holds-length h)) (ap (λ u. (gauge_logged u xs x).1) typed)
                (known ∙ known_gauge ∙ ground arith) (gauge_effect w.heap m xs x h room)
          | no no_room ↦
              faulted w _ _ _ (known ∙ known_gauge ∙ ground arith)
                (gauge_full w.heap m xs x h (full w m s valid loaded (omega arith)))
        ]

    pub adjust-Meets :
        Meets
          (lifted w (update_gauge_by_fixed_amount m x.val x.time x.sample_id w.heap))
          (has_room (λ u ys. is_no_gauge u) (seen_at w.heap m))
          (at_address (view w) m after_adjust)
    adjust-Meets = elim (Option-cases (w.heap.streams m)) [
      | inl gone ↦
          faulted w _ _ _ (ap (λ o. has_room (λ u ys. is_no_gauge u) (seen w.heap o)) gone)
            (gauge_dangling w.heap m x gone)
      | inr (s, found) ↦ adjust_live_Meets s found s.type refl
    ]
