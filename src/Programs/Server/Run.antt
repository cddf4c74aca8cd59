-- ===== src/Programs/Server/Run.antt =====
-- Runs of the server program, by rank.
use aggregator.Base.{
  ℕ, ◌≤◌, ◌<◌, ◌≡◌, ◌≢◌, refl, ap, ◌∙◌, true, false, [], none, some, length, arith, ◌==◌, pos, done,
  pure, and_then, ◌>>◌,
}
use aggregator.Common.{CString}
use aggregator.Uthash.{Uthash}
use aggregator.Margo.{Margo, remote_stream_fetch}
use aggregator.Provider.{Provider}
use aggregator.Provider.Validity.{IsHeap}
use aggregator.Provider.Lifecycle.{args_init}
use aggregator.Provider.Lifecycle.Register.{IsServed, register-IsServed}
use aggregator.Programs.{returned}
use aggregator.Programs.Server.{
  ServerSurroundings, ServerSession, write_addresses, register_42, server_main, addr_array, scan,
}
use aggregator.Programs.Server.Scan.{scan_stops}

module _ ⦃H : Uthash⦄ ⦃G : Margo⦄ where
  -- What is left of the program after the scan.
  scanned :
      (e : ServerSurroundings) (s : ServerSession) (text : CString)
      → 1 ≤ e.mid
      → e.text ≡ some text
      → length text < 1024
      → server_main e s
        ≡ and_then (λ _. register_42 e.mid >> pure (returned (pos 0))) (write_addresses e s)
  unfolding server_main
  scanned e s text nonnull there small =
      let (pre, post, whole, found, inside, before, after) = scan_stops text small in
      let nonzero : (e.mid == 0) ≡ false = ground (arith, nonnull) in
      let scans : scan 0 (addr_array e.text) ≡ some (length pre) =
        ap (λ t. scan 0 (addr_array t)) there ∙ found in
      rw (nonzero, scans) refl

  -- A process of another rank than 0, where the runtime gives the text of its address, which fits the
  -- array, and where its file can be opened, writes no line, and on a Margo instance that listens and
  -- has no provider 42 it registers one: both procedures lead to it, and it has no streams.
  pub server_main-serves :
      (e : ServerSurroundings) (s : ServerSession) (text : CString)
      → 1 ≤ e.mid
      → e.text ≡ some text
      → length text < 1024
      → e.rank ≢ 0
      → e.opened ≡ true
      → IsHeap s.process.heap
      → G.listening s.process.margo ≡ true
      → G.registered s.process.margo remote_stream_fetch (some 42) ≡ none
      → (v : ServerSession) × (p : ℕ) × (provider : Provider) × (server_main e s
          ≡ done (returned (pos 0)) v)
        × IsServed v.process p provider
        × (provider.provider_id ≡ 42)
        × (H.items provider.streams ≡ [])
        × (v.file ≡ s.file)
  unfolding write_addresses register_42
  server_main-serves e s text nonnull there small other opens h up free =
      let (v, p, provider, made, served, under, empty, valid) =
        register-IsServed s.process e.mid 42 (some args_init) h up free in
      let nonroot : (e.rank == 0) ≡ false = ground arith in
      (
        record { process = v; file = s.file },
        p,
        provider,
        scanned e s text nonnull there small
            ∙ rw (write_addresses, nonroot, opens, register_42, made) refl,
        served,
        under,
        empty,
        refl,
      )
