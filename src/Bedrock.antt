-- ===== src/Bedrock.antt =====
-- src/bedrock-module.c and include/aggregator/aggregator-provider-handle.h: the functions that
-- Bedrock calls, over the processes of a provider and of a client. What Bedrock's own arguments
-- hold is an argument.
pub mod Providers
pub mod Handles
use aggregator.Base.{
  ℕ, suc, Option, none, some, false, List, [], ◌∷◌, M, Outcome, done, ub, pure, fault, relay,
  and_then, ◌>>=◌, ◌>>◌,
}
use aggregator.Common.{ReturnCode, success, CString}
use aggregator.Memory.{update}
use aggregator.Uthash.{Uthash}
use aggregator.Margo.{Margo}
use aggregator.Margo.Addresses.{Addresses}
use aggregator.Provider.Lifecycle.{ProviderArgs, Process, provider_register, provider_destroy}
use aggregator.Client.Handles.{Client, load_client, client_finalize}
use aggregator.Client.Init.{ClientProcess, in_store, client_init}

-- What `bedrock_args_get_margo_instance` and its siblings give. The configuration is text, and the
-- ABT-IO instance is the dependency `abt_io`.
pub record BedrockArgs : Type 0 where
  pub margo_instance : ℕ
  pub provider_id : ℕ
  pub config : CString
  pub pool : ℕ
  pub abt_io : ℕ

-- The arguments that the module makes of them; what it does not set is zero.
abbrev pub aggregator_args : BedrockArgs → ProviderArgs
aggregator_args args = record {
  push_finalize_callback = false;
  token = none;
  config = some args.config;
  pool = args.pool;
  abtio = args.abt_io;
}

module _ ⦃H : Uthash⦄ ⦃G : Margo⦄ where
  unfoldable pub register_provider : BedrockArgs → M Process (ReturnCode × Option ℕ)
  register_provider args =
      provider_register args.margo_instance args.provider_id (some (aggregator_args args))

  unfoldable pub deregister_provider : ℕ → M Process ReturnCode
  deregister_provider provider = provider_destroy provider

-- The text `{}`, whatever the provider.
unfoldable pub get_provider_config : {S : Type 0} → ℕ → M S CString
get_provider_config provider = pure (123 ∷ 125 ∷ [])

-- `aggregator_provider_handle`
pub record ProviderHandle : Type 0 where
  pub mid : ℕ
  pub addr : ℕ
  pub provider_id : ℕ

-- What `calloc` leaves in one.
abbrev pub zero_handle : ProviderHandle
zero_handle = record { mid = 0; addr = 0; provider_id = 0 }

module _ ⦃G : Margo⦄ ⦃A : Addresses⦄ where
  -- A process of clients, with the addresses that it refers to, and its provider handles by address.
  pub record ModuleClient : Type 0 where
    pub process : ClientProcess
    pub addresses : A.Table
    pub provider_handles : ℕ → Option ProviderHandle
    pub fresh : ℕ

  abbrev pub in_process : {B : Type 0} → M ClientProcess B → M ModuleClient B
  in_process f s = relay (λ p. record s { process = p }) (f s.process)

  unfoldable pub init_client : ℕ → M ModuleClient (ReturnCode × ℕ)
  init_client mid = in_process (client_init mid)

  unfoldable pub finalize_client : ℕ → M ModuleClient ReturnCode
  finalize_client client = in_process (in_store (client_finalize client))

  -- `margo_addr_dup` to the member `addr` of a handle; where it fails, the member stays as it was.
  unfoldable pub duplicate_to : ℕ → ℕ → ProviderHandle → M ModuleClient ProviderHandle
  duplicate_to mid address tmp s = elim (A.addr_dup s.addresses mid address) [
    | none ↦ done tmp s
    | some r ↦ done (record tmp { addr = r.0 }) (record s { addresses = r.1 })
  ]

  unfoldable pub allocate_handle : ProviderHandle → M ModuleClient ℕ
  allocate_handle h s = done s.fresh (record s {
    provider_handles = update s.provider_handles s.fresh (some h);
    fresh = suc s.fresh;
  })

  -- The result of the duplication is not looked at, and the member `mid` is never set. The result is
  -- BEDROCK_SUCCESS, and what is stored to `*ph`.
  unfoldable pub create_provider_handle : ℕ → ℕ → ℕ → M ModuleClient ℕ
  create_provider_handle client address provider_id = do
    c ← in_process (in_store (load_client client))
    tmp ← duplicate_to c.mid address zero_handle
    allocate_handle (record tmp { provider_id = provider_id })

  unfoldable pub load_provider_handle : ℕ → M ModuleClient ProviderHandle
  load_provider_handle ph s = elim (s.provider_handles ph) [ none ↦ ub s | some h ↦ done h s ]

  -- The result of the free is not looked at either.
  unfoldable pub free_address : ℕ → ℕ → M ModuleClient (Unit {0})
  free_address mid addr s = elim (A.addr_free s.addresses mid addr) [
    | none ↦ done tt s
    | some t ↦ done tt (record s { addresses = t })
  ]

  unfoldable pub free_provider_handle : ℕ → M ModuleClient (Unit {0})
  free_provider_handle ph s =
      done tt (record s { provider_handles = update s.provider_handles ph none })

  -- BEDROCK_SUCCESS.
  unfoldable pub destroy_provider_handle : ℕ → M ModuleClient (Unit {0})
  destroy_provider_handle ph = do
    tmp ← load_provider_handle ph
    free_address tmp.mid tmp.addr
    free_provider_handle ph

-- `bedrock_module`, over the states of a server and of a client.
pub record BedrockModule (S C : Type 0) : Type 0 where
  pub register_provider : BedrockArgs → M S (ReturnCode × Option ℕ)
  pub deregister_provider : ℕ → M S ReturnCode
  pub get_provider_config : ℕ → M S CString
  pub init_client : ℕ → M C (ReturnCode × ℕ)
  pub finalize_client : ℕ → M C ReturnCode
  pub create_provider_handle : ℕ → ℕ → ℕ → M C ℕ
  pub destroy_provider_handle : ℕ → M C (Unit {0})
  pub dependencies : List CString

module _ ⦃H : Uthash⦄ ⦃G : Margo⦄ ⦃A : Addresses⦄ where
  abbrev pub aggregator_module : BedrockModule Process ModuleClient
  aggregator_module = record {
    register_provider = register_provider;
    deregister_provider = deregister_provider;
    get_provider_config = get_provider_config;
    init_client = init_client;
    finalize_client = finalize_client;
    create_provider_handle = create_provider_handle;
    destroy_provider_handle = destroy_provider_handle;
    dependencies = [];
  }
