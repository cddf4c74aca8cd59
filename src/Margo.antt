-- ===== src/Margo.antt =====
-- What the code uses of Margo's registry of remote procedures: an interface, with what its
-- documentation promises. An instance is a value; a call that changes it gives the new one.
pub mod Table
pub mod Addresses
pub mod Directory
use aggregator.Base.{ℕ, Bool, ◌≡◌, ◌≢◌, Option, none, some}

-- The names under which the code registers its procedures.
pub data Rpc : Type 0 where
  remote_stream_fetch remote_list_streams : Rpc

-- A procedure is registered under its name for a provider identifier, or for none by a client.
pub record Margo : Type 1 where
  pub Instance : Type 0
  -- margo_is_listening
  pub listening : Instance → Bool
  -- margo_registered_name and margo_provider_registered_name
  pub registered : Instance → Rpc → Option ℕ → Option ℕ
  -- MARGO_REGISTER and MARGO_REGISTER_PROVIDER
  pub register : Instance → Rpc → Option ℕ → ℕ × Instance
  -- margo_register_data and margo_registered_data
  pub set_data : Instance → ℕ → ℕ → Instance
  pub data_of : Instance → ℕ → Option ℕ
  pub deregister : Instance → ℕ → Instance
  -- margo_provider_push_finalize_callback and margo_provider_pop_finalize_callback
  pub push_callback : Instance → ℕ → Instance
  pub pop_callback : Instance → ℕ → Instance
  pub registered-register :
      (i : Instance) (n : Rpc) (k : Option ℕ)
      → registered (register i n k).1 n k ≡ some (register i n k).0
  pub registered-register_other :
      (i : Instance) (n m : Rpc) (k j : Option ℕ)
      → n ≢ m
      → registered (register i n k).1 m j ≡ registered i m j
  pub data_of-register :
      (i : Instance) (n : Rpc) (k : Option ℕ) (id p : ℕ)
      → data_of i id ≡ some p
      → data_of (register i n k).1 id ≡ some p
  pub registered-set_data :
      (i : Instance) (id p : ℕ) (n : Rpc) (k : Option ℕ)
      → registered (set_data i id p) n k ≡ registered i n k
  pub data_of-set_data : (i : Instance) (id p : ℕ) → data_of (set_data i id p) id ≡ some p
  -- the same data under another identifier leaves it as it is
  pub data_of-set_data_other :
      (i : Instance) (id other p : ℕ)
      → data_of i other ≡ some p
      → data_of (set_data i id p) other ≡ some p
  pub registered-deregister :
      (i : Instance) (id : ℕ) (n : Rpc) (k : Option ℕ)
      → registered i n k ≡ some id
      → registered (deregister i id) n k ≡ none
  pub registered-deregister_other :
      (i : Instance) (id other : ℕ) (n : Rpc) (k : Option ℕ)
      → registered i n k ≡ some other
      → id ≢ other
      → registered (deregister i id) n k ≡ some other
  pub registered-deregister_none :
      (i : Instance) (id : ℕ) (n : Rpc) (k : Option ℕ)
      → registered i n k ≡ none
      → registered (deregister i id) n k ≡ none
  pub registered-push_callback :
      (i : Instance) (p : ℕ) (n : Rpc) (k : Option ℕ)
      → registered (push_callback i p) n k ≡ registered i n k
  pub data_of-push_callback :
      (i : Instance) (p id : ℕ) → data_of (push_callback i p) id ≡ data_of i id
  pub registered-pop_callback :
      (i : Instance) (p : ℕ) (n : Rpc) (k : Option ℕ)
      → registered (pop_callback i p) n k ≡ registered i n k
