-- ===== src/Stream/Fetching/Window.antt =====
-- What a fetch gets while the stream is updated.
use aggregator.Base.{ℕ, ◌+◌, ◌≤◌, ◌≡◌, List, length}
use aggregator.Common.{Sample}
use aggregator.Double.{Double}
use aggregator.Stream.History.{slice}
use aggregator.Stream.Race.{System}
use aggregator.Stream.Race.Exclusion.{Inv}
use aggregator.Stream.Fetching.{
  FetchPc, comparing, counting_all, counting_asked, copying, copied, Fetching,
}

-- The samples are consecutive entries of the buffer below the index, of which none is newer than
-- entry `first` and left out.
abbrev pub IsWindow : System → ℕ → ℕ → List Sample → Type 0
IsWindow s first count xs =
    (start : ℕ) × (xs ≡ slice s.buf start (length xs))
    × (start + length xs ≤ s.index)
    × (first ≤ start + length xs)
    × (length xs ≤ count)

-- What holds of the handler by where it stands.
abbrev Tracks : ℕ → Fetching → FetchPc → Type 0
Tracks first f comparing = Unit {0}
Tracks first f counting_all = Unit {0}
Tracks first f counting_asked = f.count ≤ f.system.index
Tracks first f (copying start n) = (start + n ≤ f.system.index) × (first ≤ start + n)
Tracks first f (copied xs) = IsWindow f.system first f.count xs

module _ ⦃F : Double⦄ where
  abbrev Good : ℕ → Fetching → Type 0
  Good first f = Inv f.system × ((first ≤ f.system.index) × Tracks first f f.pc)
