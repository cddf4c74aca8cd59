-- ===== src/Programs/Client/Run.antt =====
-- A run of the client program against a provider that has the stream it asks for.
use aggregator.Base.{List}
use aggregator.Uthash.{Uthash}
use aggregator.Margo.{Margo}
use aggregator.Margo.Addresses.{Addresses}
