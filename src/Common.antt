-- ===== src/Common.antt =====
-- include/aggregator/aggregator-common.h: return codes, stream types, samples and tag lists.
-- The hash and the identifier of a stream are in the child `Hash`.
pub mod Hash
use aggregator.Base.{ℕ, List}

-- `aggregator_return_t`
pub data ReturnCode : Type 0 where
  success err_invalid_name err_allocation err_invalid_args err_invalid_provider : ReturnCode
  err_invalid_stream err_invalid_value err_invalid_backend err_invalid_config : ReturnCode
  err_invalid_token err_from_mercury err_from_argobots err_op_unsupported : ReturnCode
  err_op_forbidden err_other : ReturnCode

-- `aggregator_stream_type_t`
pub data StreamType : Type 0 where
  counter timer gauge : StreamType

abbrev pub stream_buffer_size : ℕ
stream_buffer_size = 160_000_000

-- `aggregator_stream_sample`. A double is its 64-bit pattern.
pub record Sample : Type 0 where
  pub time : ℕ
  pub val : ℕ
  pub sample_id : ℕ

-- What `calloc` leaves in a sample: 0.0 has the pattern 0.
abbrev pub zero_sample : Sample
zero_sample = record { time = 0; val = 0; sample_id = 0 }

-- A C string is its bytes up to the terminator, which is not stored.
abbrev pub CString : Type 0
CString = List ℕ

-- `aggregator_taglist`
pub record TagList : Type 0 where
  pub taglist : List CString
  pub num_tags : ℕ
