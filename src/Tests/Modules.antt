-- ===== src/Tests/Modules.antt =====
-- The theorems on the Bedrock module and the dummy backend, at concrete inputs.
use aggregator.Base.{ℕ, ◌≡◌, ◌≢◌, refl, [], ◌∷◌, none, some, true, false, pos, arith, done, ub}
use aggregator.Common.{success}
use aggregator.Memory.{update}
use aggregator.Margo.{remote_stream_fetch, remote_list_streams}
use aggregator.Margo.Addresses.{Addresses}
use aggregator.Margo.Directory.{directory}
use aggregator.Provider.{Provider}
use aggregator.Provider.Lifecycle.{Process}
use aggregator.Provider.Lifecycle.Register.{IsServed}
use aggregator.Client.Init.{client_with}
use aggregator.Bedrock.{BedrockArgs, ModuleClient, register_provider, deregister_provider}
use aggregator.Bedrock.Providers.{register-deregister}
use aggregator.Backend.{Contexts, dummy_backend}
use aggregator.Backend.Lifetime.{IsReady, made_by, freed_by, dummy-lifetime}
use aggregator.Tests.Data.{table}
use aggregator.Tests.Lifecycles.{procedures, quiet, empty-IsHeap, before}

instance abbrev pub addresses : Addresses
addresses = directory

abbrev bedrock_args : BedrockArgs
bedrock_args = record {
  margo_instance = 1;
  provider_id = 4;
  config = 123 ∷ 125 ∷ [];
  pool = 8;
  abt_io = 9;
}

register-deregister_example :
    (v u : Process) × (p : ℕ) × (provider : Provider) × (register_provider bedrock_args before
      ≡ done (success, some p) v)
    × IsServed v p provider
    × (provider.provider_id ≡ 4)
    × (provider.mid ≡ 1)
    × (provider.pool ≡ 8)
    × (provider.abtio ≡ 9)
    × (table.items provider.streams ≡ [])
    × (deregister_provider p v ≡ ub u)
    × (procedures.registered u.margo remote_stream_fetch (some 4) ≡ none)
    × (procedures.registered u.margo remote_list_streams (some 4) ≡ none)
    × (u.providers p ≡ none)
register-deregister_example = register-deregister before bedrock_args empty-IsHeap refl refl

-- A process with a client at 1 on the Margo instance 5.
abbrev with_client : ModuleClient
with_client = record {
  process = record {
    margo = quiet;
    store = record {
      clients = update (λ c. none) 1 (some (client_with 5 (6, 7)));
      handles = [];
      fresh = 2;
    };
  };
  addresses = λ mid a. 0;
  provider_handles = λ p. none;
  fresh = 1;
}

abbrev no_contexts : Contexts
no_contexts = record { contexts = λ p. none; printed = []; fresh = 1 }

no_contexts-IsReady : IsReady no_contexts
no_contexts-IsReady = record { started = omega arith; unused = λ p le. refl }

-- A context that is opened, closed, and then destroyed.
dummy-lifetime_example :
    (c : ℕ) × (v u : Contexts) × (made_by dummy_backend true 2 no_contexts ≡ done (success, c) v)
    × (c ≢ 0)
    × (no_contexts.contexts c ≡ none)
    × (v.contexts c ≡ some (record { dummy_member = pos 0 }))
    × (freed_by dummy_backend true c v ≡ done success u)
    × ((b : ℕ) → u.contexts b ≡ no_contexts.contexts b)
    × (u.printed ≡ [])
    × IsReady u
    × (freed_by dummy_backend false c u ≡ ub u)
dummy-lifetime_example = dummy-lifetime no_contexts 2 true true false no_contexts-IsReady
