-- ===== src/Tests/Data.antt =====
-- Interfaces with concrete functions, and small states.
use aggregator.Base.{
  ℕ, zero, suc, ◌+◌, ◌-◌, ◌*◌, ◌/◌, ◌≡◌, refl, List, [], ◌∷◌, ◌++◌, Option, none, some, ltb, length,
  get_elem?, ℤ, pos, negsuc, arith,
}
use aggregator.Common.{
  ReturnCode, success, err_invalid_name, err_allocation, err_invalid_args, err_invalid_provider,
  err_invalid_stream, err_invalid_value, err_invalid_backend, err_invalid_config, err_invalid_token,
  err_from_mercury, err_from_argobots, err_op_unsupported, err_op_forbidden, err_other, StreamType,
  Sample, CString, zero_sample,
}
use aggregator.Double.{Double}
use aggregator.Memory.{Stream, Heap, update}
use aggregator.Stream.History.{Holds}
use aggregator.Uthash.{Uthash}
use aggregator.Uthash.Assoc.{assoc}
use aggregator.Wire.{Bytes, Codec, HgProc}

-- Numbers in place of doubles.
instance abbrev pub whole : Double
whole = record {
  lt = ltb;
  add = λ a b. a + b;
  sub = λ a b. a - b;
  mul = λ a b. a * b;
  div = λ a b. a / b;
  of_ℕ = λ n. n;
  to_int = λ n. some (pos n);
}

instance abbrev pub table : Uthash
table = assoc

abbrev get_number : Bytes → Option (ℕ × Bytes)
get_number [] = none
get_number (n ∷ rest) = some (n, rest)

pub get-put_number :
    (n : ℕ) (bs rest : Bytes) → some (n ∷ []) ≡ some bs → get_number (bs ++ rest) ≡ some (n, rest)
get-put_number n bs rest e = let same : n ∷ [] ≡ bs = cc in rw (← same) refl

abbrev number : Codec ℕ
number = record { put = λ n. some (n ∷ []); get = get_number; get-put = get-put_number }

abbrev get_integer : Bytes → Option (ℤ × Bytes)
get_integer [] = none
get_integer (n ∷ []) = none
get_integer (zero ∷ n ∷ rest) = some (pos n, rest)
get_integer (suc k ∷ n ∷ rest) = some (negsuc n, rest)

abbrev put_integer : ℤ → Option Bytes
put_integer (pos n) = some (0 ∷ n ∷ [])
put_integer (negsuc n) = some (1 ∷ n ∷ [])

pub get-put_integer :
    (a : ℤ) (bs rest : Bytes) → put_integer a ≡ some bs → get_integer (bs ++ rest) ≡ some (a, rest)
get-put_integer (pos n) bs rest e = let same : 0 ∷ n ∷ [] ≡ bs = cc in rw (← same) refl
get-put_integer (negsuc n) bs rest e = let same : 1 ∷ n ∷ [] ≡ bs = cc in rw (← same) refl

abbrev code_number : ReturnCode → ℕ
code_number success = 0
code_number err_invalid_name = 1
code_number err_allocation = 2
code_number err_invalid_args = 3
code_number err_invalid_provider = 4
code_number err_invalid_stream = 5
code_number err_invalid_value = 6
code_number err_invalid_backend = 7
code_number err_invalid_config = 8
code_number err_invalid_token = 9
code_number err_from_mercury = 10
code_number err_from_argobots = 11
code_number err_op_unsupported = 12
code_number err_op_forbidden = 13
code_number err_other = 14

abbrev all_codes : List ReturnCode
all_codes =
    success ∷ err_invalid_name ∷ err_allocation ∷ err_invalid_args ∷ err_invalid_provider
    ∷ err_invalid_stream ∷ err_invalid_value ∷ err_invalid_backend ∷ err_invalid_config
    ∷ err_invalid_token ∷ err_from_mercury ∷ err_from_argobots ∷ err_op_unsupported
    ∷ err_op_forbidden ∷ err_other ∷ []

code_of_number : (a : ReturnCode) → get_elem? all_codes (code_number a) ≡ some a
code_of_number success = refl
code_of_number err_invalid_name = refl
code_of_number err_allocation = refl
code_of_number err_invalid_args = refl
code_of_number err_invalid_provider = refl
code_of_number err_invalid_stream = refl
code_of_number err_invalid_value = refl
code_of_number err_invalid_backend = refl
code_of_number err_invalid_config = refl
code_of_number err_invalid_token = refl
code_of_number err_from_mercury = refl
code_of_number err_from_argobots = refl
code_of_number err_op_unsupported = refl
code_of_number err_op_forbidden = refl
code_of_number err_other = refl

abbrev get_code : Bytes → Option (ReturnCode × Bytes)
get_code [] = none
get_code (n ∷ rest) = elim (get_elem? all_codes n) [ none ↦ none | some a ↦ some (a, rest) ]

pub get-put_code :
    (a : ReturnCode) (bs rest : Bytes)
    → some (code_number a ∷ []) ≡ some bs
    → get_code (bs ++ rest) ≡ some (a, rest)
get-put_code a bs rest e =
    let same : code_number a ∷ [] ≡ bs = cc in rw (← same) (rw (get_code, code_of_number a) refl)

abbrev split : ℕ → Bytes → Option (CString × Bytes)
split zero bytes = some ([], bytes)
split (suc n) [] = none
split (suc n) (b ∷ bytes) = elim (split n bytes) [
  | none ↦ none
  | some parts ↦ some (b ∷ parts.0, parts.1)
]

split-append : (str : CString) (rest : Bytes) → split (length str) (str ++ rest) ≡ some (str, rest)
split-append [] rest = refl
split-append (b ∷ str) rest = rw (split-append str rest) refl

-- The length goes before the bytes.
abbrev get_string : Bytes → Option (CString × Bytes)
get_string [] = none
get_string (n ∷ rest) = split n rest

pub get-put_string :
    (str : CString) (bs rest : Bytes)
    → some (length str ∷ str) ≡ some bs
    → get_string (bs ++ rest) ≡ some (str, rest)
get-put_string str bs rest e =
    let same : length str ∷ str ≡ bs = cc in rw (← same) (split-append str rest)

instance abbrev pub procs : HgProc
procs = record {
  bulk = number;
  int32 = record { put = λ a. some (code_number a ∷ []); get = get_code; get-put = get-put_code };
  int64 = record { put = put_integer; get = get_integer; get-put = get-put_integer };
  size = number;
  string = record {
    put = λ str. some (length str ∷ str);
    get = get_string;
    get-put = get-put_string;
  };
  stream_id = number;
}

-- A sample with a value.
abbrev pub sample : ℕ → Sample
sample val = record { time = 10; val = val; sample_id = 1 }

-- A buffer that has recorded 3 and then 5.
abbrev pub two_samples : ℕ → Sample
two_samples = update (update (λ i. zero_sample) 0 (sample 3)) 1 (sample 5)

abbrev pub stream_of : StreamType → ℕ → Stream
stream_of t n = record {
  type = t;
  buffer = 2;
  buffer_index = n;
  desc = 100 ∷ [];
  name = 110 ∷ [];
  ns = 115 ∷ [];
  taglist = 9;
  id = 7;
}

-- A stream at 1 with its buffer at 2.
abbrev pub heap_of : StreamType → ℕ → (ℕ → Sample) → Heap
heap_of t n buf = record {
  streams = update (λ p. none) 1 (some (stream_of t n));
  buffers = update (λ b. none) 2 (some buf);
  taglists = update (λ l. none) 9 (some (record { taglist = (116 ∷ []) ∷ []; num_tags = 1 }));
  fresh = 10;
}

abbrev pub two-Holds :
    (t : StreamType) → Holds (heap_of t 2 two_samples) 1 t (sample 5 ∷ sample 3 ∷ [])
two-Holds t = record {
  stream = stream_of t 2;
  buf = two_samples;
  loaded = refl;
  typed = refl;
  allocated = refl;
  recorded = refl;
  in_bounds = omega arith;
}
