-- ===== src/Lib.antt =====
-- Aggregator: a Mochi microservice that keeps streams of performance samples.
--
-- An application creates streams in a provider, in its own process, and records samples in them. A
-- stream is a counter, a timer or a gauge with a buffer of samples; the provider keeps its streams
-- in a hash table under an identifier that is computed from a namespace, a name and tags. A
-- monitoring client computes the same identifier, and lists the streams of a provider or fetches
-- the newest samples of one by a remote procedure call.
--
-- Base            lists and tests over native numbers, exclusive or, machine integers, and C code as
--                 a monad over a state with undefined behaviour (`ub`) as an outcome
-- Common          include/aggregator/aggregator-common.h: return codes, types, samples; its child
--                 Hash has aggregator_hash and aggregator_id_from_string_identifiers
-- Double          the arithmetic of C's double, a parameter
-- Memory          the heap: aggregator_stream of src/types.h, sample buffers, tag lists
-- Stream          src/client.c: aggregator_stream_update and the adjustment of a gauge, against a
--                 log of the accepted samples (History, Update, Gauge, Calls), the two dumps
--                 (Histogram), and calls that interleave (Race for updates, Adjusting for
--                 adjustments of a gauge, Fetching for updates and a fetch of src/provider.c)
-- Uthash          src/uthash.h, a copy of another project's library, as an interface; Assoc is an
--                 association list that keeps its promises
-- Margo           what the code uses of Margo's registry of procedures, and of its counted addresses
--                 (Addresses), as interfaces; Table and Directory keep their promises
-- Provider        src/provider.c and src/provider.h: creation and destruction of streams, the
--                 invariant of the heap and the table (Validity), the handlers of the two remote
--                 calls (Listing, Fetch), and registration and destruction of a provider, with
--                 the arguments of include/aggregator/aggregator-server.h (Lifecycle); View is the
--                 registry as its callers see it, with what each call should do to it
-- TagLists        src/client.c: creation and destruction of tag lists
-- Wire            src/types.h: the two requests and the two answers, and their serialization over
--                 Mercury's primitives, which are a parameter
-- Client          src/client.c: the remote calls end to end, and the reference-counted handles of
--                 src/client.h (Handles), and the client's registration of procedures (Init)
-- Admin           src/admin.c and src/admin.h: the admin object
-- Backend         include/aggregator/aggregator-backend.h and src/dummy/dummy-backend.c: the table of
--                 functions of a backend, and the dummy backend
-- Bedrock         src/bedrock-module.c and include/aggregator/aggregator-provider-handle.h: the
--                 functions that Bedrock calls, over the processes of a provider and of a client
-- Programs        bin/client.c, bin/admin.c and bin/server.c: each main as a function of its arguments
--                 and of what the runtime answers (Client, Admin, Server), and the provider
--                 identifier that is read with atoi (Arguments)
-- Tests           the interfaces with concrete functions, and the theorems at concrete inputs
--
-- A function of the source has its name here without the prefixes aggregator_ and
-- aggregator_provider_; a handler keeps its suffix _ult. An address is a number and NULL is 0.
-- Integers keep the width of the source: buffer_index and loop counters of 32 bits, counts of 64
-- bits, which wrap. A buffer has STREAM_BUFFER_SIZE entries. Every loop of the source runs over a
-- list or a number that is known before it starts, and is structural recursion; no fuel is needed.
-- Allocation succeeds, as the code assumes, except that of a fetch whose size overflows 64 bits.
--
-- What the libraries below answer (Margo, Mercury, Argobots, MPI, the file system) is an argument:
-- whether a call over the network, a transfer or an open succeeds, and what MPI leaves in memory. The
-- server program is modelled as far as the point where it waits for the end of its Margo instance.
-- Not modelled are the registration of a retrieval callback, which only prints that it is not
-- implemented, logging, and number formatting.
pub mod Base
pub mod Common
pub mod Double
pub mod Memory
pub mod Stream
pub mod Uthash
pub mod Provider
pub mod Wire
pub mod Client
pub mod Margo
pub mod Admin
pub mod Backend
pub mod Bedrock
pub mod Programs
pub mod TagLists
pub mod Tests
