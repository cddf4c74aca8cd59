-- ===== src/Stream/Fetching/Overrun.antt =====
-- A fetch whose two readings of `buffer_index` stand on both sides of two updates.
use aggregator.Base.{ℕ, ◌+◌, ◌<◌, ◌≡◌, ◌≢◌, refl, ap, none, arith}
use aggregator.Common.{Sample, stream_buffer_size}
use aggregator.Double.{Double}
use aggregator.Stream.Race.{System, locking, Reach, here, then_step}
use aggregator.Stream.Race.CheckThenAct.{InTurn, both_pass}
use aggregator.Stream.Fetching.{
  comparing, counting_all, copying, Fetching, updates, less, count_all, FetchReach, here, then_step,
}

module _ ⦃F : Double⦄ where
  -- The updates go on while the handler stands still.
  while_standing :
      (f g : Fetching) {t : System}
      → FetchReach f g
      → Reach g.system t
      → FetchReach f (record g { system = t })
  while_standing f g r here = r
  while_standing f g r (then_step q st) = then_step (while_standing f g r q) (updates st)

  -- A fetch that finds one sample less than its caller asks for, while two updates have passed their
  -- checks, the mutex is free and the buffer has room for both, can come to copy one
  -- sample more than its caller asks for and than it has allocated memory for: the updates are recorded
  -- between the comparison and the second reading of the index.
  pub fetch_can_overrun :
      (f : Fetching) (i j : ℕ) (x y : Sample)
      → f.pc ≡ comparing
      → f.system.index + 1 ≡ f.count
      → i ≢ j
      → f.system.threads i ≡ locking x
      → f.system.threads j ≡ locking y
      → f.system.owner ≡ none
      → f.system.index + 1 < stream_buffer_size
      → (g : Fetching) × FetchReach f g × (g.count ≡ f.count) × (g.pc ≡ copying 0 (f.count + 1))
  fetch_can_overrun f i j x y e one ne ei ej free room =
      let both = both_pass f.system i j x y ne ei ej free room in
      let q : InTurn f.system i j x y both.0 = both.1 in
      let compared : Fetching = record f { pc = counting_all } in
      (
        record f { system = both.0; pc = copying 0 (System.index both.0) },
        then_step (while_standing f compared (then_step here (less e (omega (arith, one)))) q.0)
            (count_all refl),
        refl,
        ap (copying 0) (omega (arith, q.3, one)),
      )
