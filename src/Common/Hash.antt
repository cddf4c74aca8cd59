-- ===== src/Common/Hash.antt =====
-- `aggregator_hash` and `aggregator_id_from_string_identifiers` of
-- include/aggregator/aggregator-common.h.
pub mod Polynomial
pub mod Identifier
use aggregator.Base.{
  ℕ, zero, suc, ◌+◌, ◌-◌, ◌*◌, ◌^◌, bit_xor, List, [], ◌∷◌, Option, none, some, u32, ltb,
  if◌then◌else◌,
}

-- `uint32_t c = *str`, where `char` is signed: a byte from 128 on is sign-extended.
pub char_to_u32 : ℕ → ℕ
char_to_u32 b = if ltb b 128 then b else b + (2 ^ 32 - 256)

-- The loop at the rest of the string; it ends at the terminator.
pub hash_loop : ℕ → List ℕ → ℕ
hash_loop hash [] = hash
hash_loop hash (b ∷ str) = hash_loop (u32 (u32 (u32 (hash * 2 ^ 5) + hash) + char_to_u32 b)) str

unfoldable pub aggregator_hash : List ℕ → ℕ
unfolding hash_loop char_to_u32
aggregator_hash str = hash_loop 5381 str

-- The loop over the tags, at `taglist + i` with `left` rounds to go; `none` is a read past the
-- end of the array.
pub xor_tags : List (List ℕ) → ℕ → ℕ → Option ℕ
xor_tags tags zero id = some id
xor_tags [] (suc left) id = none
xor_tags (tag ∷ tags) (suc left) id = xor_tags tags left (bit_xor id (aggregator_hash tag))

unfoldable pub id_from_string_identifiers : List ℕ → List ℕ → List (List ℕ) → ℕ → Option ℕ
unfolding xor_tags aggregator_hash
id_from_string_identifiers ns name taglist num_tags =
    xor_tags taglist num_tags (bit_xor (aggregator_hash ns) (aggregator_hash name))
