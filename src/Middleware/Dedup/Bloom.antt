-- ===== src/Middleware/Dedup/Bloom.antt =====
-- src/middleware/dedup/bloom.rs: a Bloom filter of fingerprints. An index behind the bytes, which
-- panics in the source, gives `none`.
use kun.Prelude.{
  ℕ, zero, suc, ◌+◌, ◌*◌, ◌/◌, ◌%◌, ◌^◌, max, Bool, true, false, String, Option, none, some, List,
  [], ◌∷◌, ◌++◌, map, get_elem?, if◌then◌else◌,
}
use Prim.Native.Nat.{bit_or}
use kun.Prelude.Bits.{has_bit, with_bit}
use kun.Request.{Request}
use kun.Middleware.Externals.{Externals}
use kun.Middleware.Dedup.{Key, url, fingerprint}
use kun.Middleware.Dedup.Memory.{or_url}
pub mod Seen

pub record Bloom (F : Type 0) : Type 0 where
  pub keys : List Key
  pub expected_items : ℕ
  pub false_positive_rate : F
  pub bit_len : ℕ
  pub hash_count : ℕ
  pub bits : List ℕ

abbrev pub zeros : ℕ → List ℕ
zeros zero = []
zeros (suc n) = 0 ∷ zeros n

-- `div_ceil(8)`.
abbrev pub byte_count : (bit_len : ℕ) → ℕ
byte_count bit_len = (bit_len + 7) / 8

unfoldable pub bit : (index : ℕ) (bits : List ℕ) → Option Bool
bit index bits = elim (get_elem? bits (index / 8)) [
  | none ↦ none
  | some byte ↦ some (has_bit (index % 8) byte)
]

unfoldable pub update_at : (f : ℕ → ℕ) (bytes : List ℕ) (i : ℕ) → Option (List ℕ)
update_at f [] i = none
update_at f (b ∷ bytes) zero = some (f b ∷ bytes)
update_at f (b ∷ bytes) (suc i) = elim (update_at f bytes i) [
  | none ↦ none
  | some rest ↦ some (b ∷ rest)
]

unfoldable pub set_bit : (index : ℕ) (bits : List ℕ) → Option (List ℕ)
set_bit index bits = update_at (with_bit (index % 8)) bits (index / 8)

-- `indexes.iter().all(|index| self.bit(*index))`.
unfoldable pub all_bits : (indexes bits : List ℕ) → Option Bool
all_bits [] bits = some true
all_bits (index ∷ indexes) bits =
    let rest : Option Bool = all_bits indexes bits in
    elim (bit index bits) [ none ↦ none | some b ↦ if b then rest else some false ]

unfoldable pub set_bits : (indexes bits : List ℕ) → Option (List ℕ)
set_bits [] bits = some bits
set_bits (index ∷ indexes) bits = elim (set_bit index bits) [
  | none ↦ none
  | some bits' ↦ set_bits indexes bits'
]

-- The offsets that are left, from one on.
abbrev pub offsets : (from left : ℕ) → List ℕ
offsets from zero = []
offsets from (suc left) = from ∷ offsets (suc from) left

module _ (x : Externals) where
  -- The second hash is made odd by `| 1`; the sums and products wrap.
  unfoldable pub bloom_indexes : (text : String) (bit_len hash_count : ℕ) → List ℕ
  bloom_indexes text bit_len hash_count =
      let first = x.default_hash 0 text in
      let hashed = x.default_hash 1 text in
      let second = bit_or hashed 1 in
      map (λ offset. (first + (offset * second) % 2 ^ 64) % 2 ^ 64 % bit_len) (offsets 0 hash_count)

  unfoldable pub clamp_false_positive_rate : x.float.F → x.float.F
  clamp_false_positive_rate rate =
      if x.float.is_finite rate
      then if x.float.lt rate (x.float.literal 1 1000000000)
        then x.float.literal 1 1000000000
        else if x.float.lt (x.float.literal 1 2) rate
        then x.float.literal 1 2
        else rate
      else x.float.literal 1 100

  -- The length of the filter and the number of its hashes.
  unfoldable pub bloom_shape : (expected_items : ℕ) (rate : x.float.F) → ℕ × ℕ
  bloom_shape expected_items rate =
      let items = x.float.of_u64 (max expected_items 1) in
      let clamped = clamp_false_positive_rate rate in
      let bit_len = x.float.ceil (
        x.float.div (x.float.neg (x.float.mul items (x.float.ln clamped)))
          (x.float.mul x.float.ln_2 x.float.ln_2)) in
      let hash_count = x.float.ceil (x.float.mul (x.float.div bit_len items) x.float.ln_2) in
      (
        x.float.to_u64 (x.float.max bit_len (x.float.of_u64 64)),
        x.float.to_u32 (x.float.max hash_count (x.float.of_u64 1)),
      )

  unfoldable pub reset_filter : Bloom x.float.F → Bloom x.float.F
  reset_filter self =
      let (bit_len, hash_count) = bloom_shape self.expected_items self.false_positive_rate in
      record self { bit_len = bit_len; hash_count = hash_count; bits = zeros (byte_count bit_len) }

  unfoldable pub default_bloom : Bloom x.float.F
  default_bloom =
      let rate = x.float.literal 1 100 in
      let (bit_len, hash_count) = bloom_shape 100000 rate in
      record {
        keys = url ∷ [];
        expected_items = 100000;
        false_positive_rate = rate;
        bit_len = bit_len;
        hash_count = hash_count;
        bits = zeros (byte_count bit_len);
      }

  unfoldable pub with_expected_items : Bloom x.float.F → ℕ → Bloom x.float.F
  with_expected_items self expected_items =
      reset_filter (record self { expected_items = max expected_items 1 })

  unfoldable pub with_false_positive_rate : Bloom x.float.F → x.float.F → Bloom x.float.F
  with_false_positive_rate self rate =
      reset_filter (record self { false_positive_rate = clamp_false_positive_rate rate })

  unfoldable pub with_keys : Bloom x.float.F → List Key → Bloom x.float.F
  with_keys self keys = record self { keys = or_url keys }

  unfoldable pub with_key : Bloom x.float.F → Key → Bloom x.float.F
  with_key self key = record self { keys = self.keys ++ key ∷ [] }

  -- The filter after the call, and whether the request is accepted.
  unfoldable pub check_and_insert_with_keys :
      Request x.float.F → List Key → Bloom x.float.F → Option (Bloom x.float.F × Bool)
  check_and_insert_with_keys r keys self =
      let indexes = bloom_indexes (fingerprint x r keys) self.bit_len self.hash_count in
      elim (all_bits indexes self.bits) [
        | none ↦ none
        | some seen ↦ if seen then some (self, false) else elim (set_bits indexes self.bits) [
          | none ↦ none
          | some bits ↦ some (record self { bits = bits }, true)
        ]
      ]

  unfoldable pub check_and_insert :
      Request x.float.F → Bloom x.float.F → Option (Bloom x.float.F × Bool)
  check_and_insert r self = check_and_insert_with_keys r self.keys self
