-- ===== src/Backend.antt =====
-- include/aggregator/aggregator-backend.h and src/dummy/dummy-backend.c: a backend is a table of
-- functions, and the dummy backend is one. Its contexts stand in a store of their own.
pub mod Lifetime
use aggregator.Base.{
  ℕ, suc, ◌^◌, Bool, ◌&&◌, List, [], ◌∷◌, Option, none, some, ◌==◌, ltb, leb, if◌then◌else◌, ℤ, pos,
  pos_part, neg_part, ◌+ℤ◌, M, done, ub, pure, fault, and_then, ◌>>=◌, ◌>>◌,
}
use aggregator.Common.{ReturnCode, success, CString}
use aggregator.Memory.{update}

-- `aggregator_backend_impl`, over the state that its functions change. The functions that make a
-- context give the return code and what is stored to `*context`.
pub record BackendImpl (S : Type 0) : Type 0 where
  pub name : CString
  pub create_stream : ℕ → M S (ReturnCode × ℕ)
  pub open_stream : ℕ → M S (ReturnCode × ℕ)
  pub close_stream : ℕ → M S ReturnCode
  pub destroy_stream : ℕ → M S ReturnCode
  pub hello : ℕ → M S (Unit {0})
  pub sum : ℕ → ℤ → ℤ → M S ℤ

-- `dummy_context`
pub record DummyContext : Type 0 where
  pub dummy_member : ℤ

-- The contexts by address, and the lines that were printed.
pub record Contexts : Type 0 where
  pub contexts : ℕ → Option DummyContext
  pub printed : List CString
  pub fresh : ℕ

-- `calloc` of a context.
unfoldable pub calloc_context : M Contexts ℕ
calloc_context s = done s.fresh (record s {
  contexts = update s.contexts s.fresh (some (record { dummy_member = pos 0 }));
  fresh = suc s.fresh;
})

-- `free`: nothing happens to NULL, and freeing what is not allocated is undefined.
unfoldable pub free_context : ℕ → M Contexts (Unit {0})
free_context ctx s = if ctx == 0 then done tt s else elim (s.contexts ctx) [
  | none ↦ ub s
  | some c ↦ done tt (record s { contexts = update s.contexts ctx none })
]

unfoldable pub dummy_create_stream : ℕ → M Contexts (ReturnCode × ℕ)
dummy_create_stream provider = do ctx ← calloc_context; pure (success, ctx)

unfoldable pub dummy_open_stream : ℕ → M Contexts (ReturnCode × ℕ)
dummy_open_stream provider = do ctx ← calloc_context; pure (success, ctx)

unfoldable pub dummy_close_stream : ℕ → M Contexts ReturnCode
dummy_close_stream ctx = do free_context ctx; pure success

unfoldable pub dummy_destroy_stream : ℕ → M Contexts ReturnCode
dummy_destroy_stream ctx = do free_context ctx; pure success

-- "Hello World from Dummy stream"
abbrev pub greeting : CString
greeting =
    72 ∷ 101 ∷ 108 ∷ 108 ∷ 111 ∷ 32 ∷ 87 ∷ 111 ∷ 114 ∷ 108 ∷ 100 ∷ 32 ∷ 102 ∷ 114 ∷ 111 ∷ 109 ∷ 32
    ∷ 68 ∷ 117 ∷ 109 ∷ 109 ∷ 121 ∷ 32 ∷ 115 ∷ 116 ∷ 114 ∷ 101 ∷ 97 ∷ 109 ∷ []

unfoldable pub dummy_say_hello : ℕ → M Contexts (Unit {0})
dummy_say_hello ctx s = done tt (record s { printed = greeting ∷ s.printed })

abbrev pub is_int32 : ℤ → Bool
is_int32 x = ltb (pos_part x) (2 ^ 31) && leb (neg_part x) (2 ^ 31)

-- A sum that an `int32_t` cannot hold is undefined.
unfoldable pub dummy_compute_sum : ℕ → ℤ → ℤ → M Contexts ℤ
dummy_compute_sum ctx x y = if is_int32 (x +ℤ y) then pure (x +ℤ y) else fault

abbrev pub dummy_backend : BackendImpl Contexts
dummy_backend = record {
  name = 100 ∷ 117 ∷ 109 ∷ 109 ∷ 121 ∷ [];
  create_stream = dummy_create_stream;
  open_stream = dummy_open_stream;
  close_stream = dummy_close_stream;
  destroy_stream = dummy_destroy_stream;
  hello = dummy_say_hello;
  sum = dummy_compute_sum;
}

-- The function has no parameters: the provider and the table that it is called with are not read.
unfoldable pub provider_register_backend : {S T : Type 0} → ℕ → BackendImpl S → M T ReturnCode
provider_register_backend provider impl = pure success

unfoldable pub provider_register_dummy_backend : {T : Type 0} → ℕ → M T ReturnCode
unfolding provider_register_backend
provider_register_dummy_backend provider = provider_register_backend provider dummy_backend
