-- ===== src/Tests/Views.antt =====
-- The theorem on the calls and the view of the registry, at concrete inputs.
use aggregator.Base.{◌≡◌, refl, true}
use aggregator.Common.Hash.{id_from_string_identifiers, aggregator_hash}
use aggregator.Stream.Update.{accepts}
use aggregator.Provider.Validity.Calls.{run}
use aggregator.Provider.View.{view, allowed, expected, allowed_all, expected_all}
use aggregator.Provider.View.Streams.{Meets}
use aggregator.Provider.View.Calls.{run-Meets}
use aggregator.Tests.Data.{whole, table}
use aggregator.Tests.Providers.{operations, empty_world, empty-IsValid}

-- All of the calls are allowed.
operations-allowed : allowed_all operations (view empty_world) ≡ true
unfolding allowed expected accepts id_from_string_identifiers aggregator_hash
operations-allowed = refl

run-Meets_example :
    Meets
      (run operations empty_world)
      (allowed_all operations (view empty_world))
      (expected_all operations (view empty_world))
run-Meets_example = run-Meets operations empty_world empty-IsValid
