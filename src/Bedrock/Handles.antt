-- ===== src/Bedrock/Handles.antt =====
-- The provider handles that Bedrock makes for a client.
use aggregator.Base.{suc, some}
use aggregator.Memory.{update}
use aggregator.Margo.{Margo}
use aggregator.Margo.Addresses.{Addresses}
use aggregator.Client.Handles.{Client}
use aggregator.Bedrock.{ProviderHandle, ModuleClient}

module _ ⦃G : Margo⦄ ⦃A : Addresses⦄ where
  abbrev created : ModuleClient → A.Table → ProviderHandle → ModuleClient
  created s t h = record s {
    addresses = t;
    provider_handles = update s.provider_handles s.fresh (some h);
    fresh = suc s.fresh;
  }
