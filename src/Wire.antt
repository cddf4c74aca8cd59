-- ===== src/Wire.antt =====
-- The messages of src/types.h and their serialization. The primitives of Mercury's `hg_proc` are a
-- parameter: a codec for each basic type that the messages have.
pub mod Roundtrip
use aggregator.Base.{
  ℕ, zero, suc, ◌≡◌, List, [], ◌∷◌, ◌++◌, Option, none, some, map, ltb, if◌then◌else◌, length, Bool,
  true, false, M, pure, fault, ℤ,
}
use aggregator.Common.{ReturnCode, CString}

abbrev pub Bytes : Type 0
Bytes = List ℕ

-- Serialization goes on while it succeeds.
infixl 5 ◌>>=◌
abbrev ◌>>=◌ : {A B : Type 0} → Option A → (A → Option B) → Option B
none >>= f = none
some a >>= f = f a

-- Encoding can fail, and then nothing is sent; what was encoded is decoded to the same value, and
-- the bytes behind it are left.
pub record Codec (A : Type 0) : Type 0 where
  pub put : A → Option Bytes
  pub get : Bytes → Option (A × Bytes)
  pub get-put : (a : A) (bs rest : Bytes) → put a ≡ some bs → get (bs ++ rest) ≡ some (a, rest)

pub record HgProc : Type 0 where
  -- an `int32_t`, which holds a return code in both messages
  pub int32 : Codec ReturnCode
  pub int64 : Codec ℤ
  pub size : Codec ℕ
  pub string : Codec CString
  -- an `hg_bulk_t`
  pub bulk : Codec ℕ
  -- `hg_proc_memcpy` of one `aggregator_stream_id_t`
  pub stream_id : Codec ℕ

-- `list_streams_out_t`. A member that has not been set is `none`; so is `ids` when it is NULL.
pub record ListStreamsOut : Type 0 where
  pub ret : ReturnCode
  pub count : Option ℕ
  pub ids : Option (List ℕ)

abbrev is_null : Option (List ℕ) → Bool
is_null none = true
is_null (some ids) = false

abbrev or_empty : Option (List ℕ) → List ℕ
or_empty none = []
or_empty (some ids) = ids

-- `stream_fetch_out_t`
pub record StreamFetchOut : Type 0 where
  pub actual_count : Option ℤ
  pub name : Option CString
  pub ns : Option CString
  pub ret : ReturnCode

-- `stream_fetch_in_t`; `bulk` is the handle of the caller's memory.
pub record StreamFetchIn : Type 0 where
  pub stream_id : ℕ
  pub count : ℤ
  pub bulk : ℕ

-- A message that was read, without the bytes behind it.
abbrev message : {A : Type 0} → Option (A × Bytes) → Option A
message none = none
message (some r) = some r.0

module _ ⦃P : HgProc⦄ where
  -- The code that MERCURY_GEN_PROC makes for the two requests: the members in their order.
  unfoldable pub put_list_streams_in : ℕ → Option Bytes
  put_list_streams_in max_ids = P.size.put max_ids

  unfoldable pub get_list_streams_in : Bytes → Option ℕ
  get_list_streams_in bytes = message (P.size.get bytes)

  unfoldable pub put_stream_fetch_in : StreamFetchIn → Option Bytes
  put_stream_fetch_in request = do
    first ← P.stream_id.put request.stream_id
    second ← P.int64.put request.count
    third ← P.bulk.put request.bulk
    some (first ++ second ++ third)

  unfoldable pub get_stream_fetch_in : Bytes → Option StreamFetchIn
  get_stream_fetch_in bytes = do
    id ← P.stream_id.get bytes
    count ← P.int64.get id.1
    bulk ← P.bulk.get count.1
    some (record { stream_id = id.0; count = count.0; bulk = bulk.0 })

  -- `hg_proc_memcpy` of the first `count` identifiers of an array, which must have as many.
  unfoldable pub put_ids : ℕ → List ℕ → Option Bytes
  put_ids zero ids = some []
  put_ids (suc n) [] = some []
  put_ids (suc n) (id ∷ ids) = do
    first ← P.stream_id.put id
    rest ← put_ids n ids
    some (first ++ rest)

  unfoldable pub get_ids : ℕ → Bytes → Option (List ℕ × Bytes)
  get_ids zero bytes = some ([], bytes)
  get_ids (suc n) bytes = do
    first ← P.stream_id.get bytes
    rest ← get_ids n first.1
    some (first.0 ∷ rest.0, rest.1)

  -- The bytes of the first two members.
  unfoldable pub put_head : ReturnCode → ℕ → Option Bytes
  put_head ret count = do first ← P.int32.put ret; second ← P.size.put count; some (first ++ second)

  unfoldable pub get_head : Bytes → Option (ReturnCode × ℕ × Bytes)
  get_head bytes = do
    ret ← P.int32.get bytes
    count ← P.size.get ret.1
    some (ret.0, count.0, count.1)

  -- All members. The array is left out when `ids` is NULL.
  unfoldable pub put_members : ReturnCode → ℕ → Option (List ℕ) → Option Bytes
  put_members ret count none = put_head ret count
  put_members ret count (some ids) = do
    head ← put_head ret count
    tail ← put_ids count ids
    some (head ++ tail)

  -- `hg_proc_list_streams_out_t` with HG_ENCODE. It is undefined where it reads a count that was not
  -- set, or past the end of the array.
  unfoldable pub encode_list_streams_out : {S : Type 0} → ListStreamsOut → M S (Option Bytes)
  encode_list_streams_out out = elim out.count [
    | none ↦ fault
    | some count ↦
        if ltb (length (or_empty out.ids)) (if is_null out.ids then 0 else count)
        then fault
        else pure (put_members out.ret count out.ids)
  ]

  -- With HG_DECODE: the array is allocated for the count that has arrived.
  unfoldable pub decode_list_streams_out : Bytes → Option ListStreamsOut
  decode_list_streams_out bytes = do
    head ← get_head bytes
    ids ← get_ids head.1 head.2
    some (record { ret = head.0; count = some head.1; ids = some ids.0 })

  -- The code that MERCURY_GEN_PROC makes for `stream_fetch_out_t`: the members in their order.
  unfoldable pub put_stream_fetch_out : ℤ → CString → CString → ReturnCode → Option Bytes
  put_stream_fetch_out actual_count name ns ret = do
    first ← P.int64.put actual_count
    second ← P.string.put name
    third ← P.string.put ns
    fourth ← P.int32.put ret
    some (first ++ second ++ third ++ fourth)

  -- Encoding is undefined where a member was not set.
  unfoldable pub encode_stream_fetch_out : {S : Type 0} → StreamFetchOut → M S (Option Bytes)
  encode_stream_fetch_out out = elim out.actual_count [
    | none ↦ fault
    | some n ↦ elim out.name [
      | none ↦ fault
      | some name ↦ elim out.ns [
        | none ↦ fault
        | some ns ↦ pure (put_stream_fetch_out n name ns out.ret)
      ]
    ]
  ]

  unfoldable pub decode_stream_fetch_out : Bytes → Option StreamFetchOut
  decode_stream_fetch_out bytes = do
    n ← P.int64.get bytes
    name ← P.string.get n.1
    ns ← P.string.get name.1
    ret ← P.int32.get ns.1
    some (record { actual_count = some n.0; name = some name.0; ns = some ns.0; ret = ret.0 })
