-- ===== src/Middleware/Dedup/Bloom/Seen.antt =====
-- src/middleware/dedup/bloom.rs: the filter forgets no fingerprint and never indexes behind its bytes.
use kun.Prelude.{
  ℕ, zero, suc, ◌+◌, ◌*◌, ◌/◌, ◌%◌, ◌^◌, ◌<◌, ◌≤◌, ◌≡◌, refl, Bool, true, false, Option, none, some,
  List, [], ◌∷◌, ◌++◌, map, length, get_elem?, All, All-imp, arith, if◌then◌else◌, ◌==◌, Bool-cases,
  Option-cases, inl, inr, ap, sym, ◌∙◌, if_false,
}
use native.Mathlib.Nat.{mod-lt}
use kun.Prelude.Bits.{has_bit, with_bit, has_bit-with_bit}
use kun.Request.{Request}
use kun.Middleware.Externals.{Externals}
use kun.Middleware.Dedup.{Key, fingerprint}
use kun.Middleware.Dedup.Bloom.{
  Bloom, bit, update_at, set_bit, all_bits, set_bits, offsets, bloom_indexes,
  check_and_insert_with_keys,
}

-- The bytes are bytes.
abbrev AreBytes : List ℕ → Type 0
AreBytes bits = All (λ b. b < 256) bits

-- An updated list has the new element at the index, and else those of the old one.
update_at-some :
    (f : ℕ → ℕ) (bytes : List ℕ) (i : ℕ)
    → ((b : ℕ) → b < 256 → f b < 256)
    → AreBytes bytes
    → i < length bytes
    → (out : List ℕ) × (update_at f bytes i ≡ some out) × (length out ≡ length bytes) × AreBytes out
unfolding update_at
update_at-some f [] i keeps small inside = absurd (omega arith)
update_at-some f (b ∷ bytes) zero keeps (here, small) inside =
    (f b ∷ bytes, refl, refl, (keeps b here, small))
update_at-some f (b ∷ bytes) (suc i) keeps (here, small) inside =
    let (out, found, same, small') = update_at-some f bytes i keeps small (omega arith) in
    (b ∷ out, rw found refl, omega (arith, same), (here, small'))

get_elem?-update_at :
    (f : ℕ → ℕ) (bytes : List ℕ) (i : ℕ) (out : List ℕ) (j : ℕ)
    → update_at f bytes i ≡ some out
    → get_elem? out j ≡ (
        if i == j
        then elim (get_elem? bytes j) [ none ↦ none | some b ↦ some (f b) ]
        else get_elem? bytes j)
unfolding update_at
get_elem?-update_at f [] i out j h = absurd (ground arith)
get_elem?-update_at f (b ∷ bytes) zero out zero h = ground arith
get_elem?-update_at f (b ∷ bytes) zero out (suc j) h = ground arith
get_elem?-update_at f (b ∷ bytes) (suc i) out zero h = ground arith
get_elem?-update_at f (b ∷ bytes) (suc i) out (suc j) h =
    elim (Option-cases (update_at f bytes i)) [
      | inl missing ↦ absurd (ground arith)
      | inr (rest, found) ↦
          let ih = get_elem?-update_at f bytes i rest j found in ground (arith, ih)
    ]

get_elem?-some :
    (bytes : List ℕ) (i : ℕ)
    → AreBytes bytes
    → i < length bytes
    → (b : ℕ) × (get_elem? bytes i ≡ some b) × (b < 256)
get_elem?-some [] i small inside = absurd (omega arith)
get_elem?-some (b ∷ bytes) zero (here, small) inside = (b, refl, here)
get_elem?-some (b ∷ bytes) (suc i) (here, small) inside = get_elem?-some bytes i small (omega arith)

bit-some :
    (index : ℕ) (bits : List ℕ)
    → AreBytes bits
    → index < 8 * length bits
    → (b : Bool) × (bit index bits ≡ some b)
unfolding bit
bit-some index bits small inside =
    let (byte, found, below) = get_elem?-some bits (index / 8) small (omega arith) in
    (has_bit (index % 8) byte, rw (found, bit) refl)

-- Setting a bit sets it, and clears none.
bit-set_bit :
    (i j : ℕ) (bits out : List ℕ)
    → AreBytes bits
    → i < 8 * length bits
    → set_bit i bits ≡ some out
    → (bit i out ≡ some true) × (bit j bits ≡ some true → bit j out ≡ some true)
unfolding bit set_bit
bit-set_bit i j bits out small inside h =
    let (byte, found, below) = get_elem?-some bits (i / 8) small (omega arith) in
    let new = get_elem?-update_at (with_bit (i % 8)) bits (i / 8) out in
    let here = new (i / 8) h in
    let there = new (j / 8) h in
    let own = has_bit-with_bit (i % 8) (i % 8) byte (omega arith) (omega arith) below in
    let other = has_bit-with_bit (i % 8) (j % 8) byte (omega arith) (omega arith) below in
    let set_here : get_elem? out (i / 8) ≡ some (with_bit (i % 8) byte) =
      ground (arith, here, found) in
    let is_set : has_bit (i % 8) (with_bit (i % 8) byte) ≡ true = ground (arith, own) in
    (
      rw (set_here, bit) (ap some is_set),
      λ set. elim (Bool-cases (i / 8 == j / 8)) [
        | inl same ↦
            let same' : i / 8 ≡ j / 8 = ground arith in
            let found' : get_elem? bits (j / 8) ≡ some byte =
              ap (get_elem? bits) (sym same') ∙ found in
            let set_there : get_elem? out (j / 8) ≡ some (with_bit (i % 8) byte) =
              ground (arith, there, found') in
            let was : has_bit (j % 8) byte ≡ true = ground (arith, found') in
            let is : has_bit (j % 8) (with_bit (i % 8) byte) ≡ true = ground (arith, other) in
            rw (set_there, bit) (ap some is)
        | inr apart ↦
            let kept : get_elem? out (j / 8) ≡ get_elem? bits (j / 8) =
              there ∙ if_false _ _ _ apart in
            rw (kept, bit) set
      ],
    )

-- The bytes reach far enough for the index.
abbrev Inside : List ℕ → ℕ → Type 0
Inside bits index = index < 8 * length bits

all_bits-some :
    (indexes bits : List ℕ)
    → AreBytes bits
    → All (Inside bits) indexes
    → (b : Bool) × (all_bits indexes bits ≡ some b)
unfolding all_bits
all_bits-some [] bits small inside = (true, refl)
all_bits-some (index ∷ indexes) bits small (here, inside) =
    let (b, found) = bit-some index bits small here in
    let (b', found') = all_bits-some indexes bits small inside in
    (if b then b' else false, ground (arith, found, found'))

set_bit-some :
    (index : ℕ) (bits : List ℕ)
    → AreBytes bits
    → Inside bits index
    → (out : List ℕ) × (set_bit index bits ≡ some out) × (length out ≡ length bits) × AreBytes out
unfolding set_bit
set_bit-some index bits small inside =
    update_at-some (with_bit (index % 8)) bits (index / 8)
      (λ b below. (has_bit-with_bit (index % 8) 0 b (omega arith) (omega arith) below).1) small
      (omega arith)

-- Setting a bit keeps the bits that are all set.
all_bits-set_bit :
    (indexes : List ℕ) (i : ℕ) (bits out : List ℕ)
    → AreBytes bits
    → Inside bits i
    → set_bit i bits ≡ some out
    → all_bits indexes bits ≡ some true
    → all_bits indexes out ≡ some true
unfolding all_bits
all_bits-set_bit [] i bits out small inside h all_set = refl
all_bits-set_bit (index ∷ indexes) i bits out small inside h all_set =
    let ih = all_bits-set_bit indexes i bits out small inside h in
    let (own, kept) = bit-set_bit i index bits out small inside h in ground (arith, ih, kept)

Inside-same :
    (bits out indexes : List ℕ)
    → length out ≡ length bits
    → All (Inside bits) indexes
    → All (Inside out) indexes
Inside-same bits out indexes same h =
    All-imp (Inside bits) (Inside out) (λ i inside. omega arith) indexes h

set_bits-some :
    (indexes bits : List ℕ)
    → AreBytes bits
    → All (Inside bits) indexes
    → (out : List ℕ) × (set_bits indexes bits ≡ some out)
      × (length out ≡ length bits)
      × AreBytes out
      × (all_bits indexes out ≡ some true)
      × ((others : List ℕ) → all_bits others bits ≡ some true → all_bits others out ≡ some true)
unfolding set_bits all_bits
set_bits-some [] bits small inside = (bits, refl, refl, small, refl, λ others all_set. all_set)
set_bits-some (index ∷ indexes) bits small (here, inside) =
    let (mid, found, same, small') = set_bit-some index bits small here in
    let (out, found', same', small'', set, kept) =
      set_bits-some indexes mid small' (Inside-same bits mid indexes same inside) in
    let one_set : all_bits (index ∷ []) mid ≡ some true =
      rw ((bit-set_bit index index bits mid small here found).0, all_bits) refl in
    let still : all_bits (index ∷ []) out ≡ some true = kept (index ∷ []) one_set in
    (
      out,
      rw (found, set_bits) found',
      omega (arith, same, same'),
      small'',
      ground (arith, still, set),
      λ others all_set.
          kept others (all_bits-set_bit others index bits mid small here found all_set),
    )

module _ (x : Externals) where
  -- Bytes for each of the bits, of which there are some.
  abbrev pub IsFilter : Bloom x.float.F → Type 0
  IsFilter self = (0 < self.bit_len) × (self.bit_len ≤ 8 * length self.bits) × AreBytes self.bits

  abbrev indexes_of : Request x.float.F → List Key → Bloom x.float.F → List ℕ
  indexes_of r keys self = bloom_indexes x (fingerprint x r keys) self.bit_len self.hash_count

  indexes-Inside :
      (first second bit_len : ℕ) (bits from : List ℕ)
      → 0 < bit_len
      → bit_len ≤ 8 * length bits
      → All
          (Inside bits)
          (map (λ offset. (first + (offset * second) % 2 ^ 64) % 2 ^ 64 % bit_len) from)
  indexes-Inside first second bit_len bits [] some_bits enough = tt
  indexes-Inside first second bit_len bits (offset ∷ from) some_bits enough = (
    omega (arith, mod-lt ((first + (offset * second) % 2 ^ 64) % 2 ^ 64) some_bits),
    indexes-Inside first second bit_len bits from some_bits enough,
  )

  -- A call on a filter succeeds and sets the bits of its fingerprint; none is cleared.
  check_sets :
      (r : Request x.float.F) (keys : List Key) (self : Bloom x.float.F)
      → IsFilter self
      → (self' : Bloom x.float.F) × (accepted : Bool) × (check_and_insert_with_keys x r keys self
          ≡ some (self', accepted))
        × IsFilter self'
        × (self'.bit_len ≡ self.bit_len)
        × (self'.hash_count ≡ self.hash_count)
        × (all_bits (indexes_of r keys self) self'.bits ≡ some true)
        × ((others : List ℕ)
            → all_bits others self.bits ≡ some true
            → all_bits others self'.bits ≡ some true)
  unfolding check_and_insert_with_keys bloom_indexes
  check_sets r keys self filter =
      let (some_bits, enough, small) = filter in
      let indexes = indexes_of r keys self in
      let inside : All (Inside self.bits) indexes =
        indexes-Inside _ _ self.bit_len self.bits (offsets 0 self.hash_count) some_bits enough in
      let (seen, found) = all_bits-some indexes self.bits small inside in
      elim (Bool-cases seen) [
        | inl was_seen ↦
            let all_set : all_bits indexes self.bits ≡ some true = found ∙ ap some was_seen in
            (
              self,
              false,
              rw (all_set, check_and_insert_with_keys) refl,
              filter,
              refl,
              refl,
              all_set,
              λ others h. h,
            )
        | inr is_new ↦
            let some_clear : all_bits indexes self.bits ≡ some false = found ∙ ap some is_new in
            let (bits, found_bits, same, small', set, kept) =
              set_bits-some indexes self.bits small inside in
            (
              record self { bits = bits },
              true,
              rw (some_clear, check_and_insert_with_keys, found_bits) refl,
              (some_bits, omega arith, small'),
              refl,
              refl,
              set,
              kept,
            )
      ]

  -- The filter after the calls, if none of them panics.
  unfoldable pub calls :
      List (Request x.float.F × List Key) → Bloom x.float.F → Option (Bloom x.float.F)
  unfolding check_and_insert_with_keys
  calls [] self = some self
  calls ((r, keys) ∷ rs) self = elim (check_and_insert_with_keys x r keys self) [
    | none ↦ none
    | some (self', accepted) ↦ calls rs self'
  ]

  -- A fingerprint whose bits are all set is refused, and stays refused.
  check_refused :
      (r : Request x.float.F) (keys : List Key) (self : Bloom x.float.F)
      → all_bits (indexes_of r keys self) self.bits ≡ some true
      → check_and_insert_with_keys x r keys self ≡ some (self, false)
  unfolding check_and_insert_with_keys
  check_refused r keys self all_set = rw (all_set, check_and_insert_with_keys) refl

  calls_keep :
      (rs : List (Request x.float.F × List Key)) (self : Bloom x.float.F)
      → IsFilter self
      → (self' : Bloom x.float.F) × (calls rs self ≡ some self')
        × (self'.bit_len ≡ self.bit_len)
        × (self'.hash_count ≡ self.hash_count)
        × ((others : List ℕ)
            → all_bits others self.bits ≡ some true
            → all_bits others self'.bits ≡ some true)
  unfolding calls
  calls_keep [] self filter = (self, refl, refl, refl, λ others h. h)
  calls_keep ((r, keys) ∷ rs) self filter =
      let (mid, accepted, called, filter', len, hashes, set, kept) =
        check_sets r keys self filter in
      let (out, done, len', hashes', kept') = calls_keep rs mid filter' in
      (
        out,
        rw (called, calls) done,
        len' ∙ len,
        hashes' ∙ hashes,
        λ others h. kept' others (kept others h),
      )

  -- The filter never lets a request through twice, and never panics: after any calls on a filter, one
  -- of which had the fingerprint of a request, the request is refused and the filter stays as it is.
  pub calls_refuse :
      (before after : List (Request x.float.F × List Key)) (r r' : Request x.float.F)
      (keys keys' : List Key) (self : Bloom x.float.F)
      → IsFilter self
      → fingerprint x r keys ≡ fingerprint x r' keys'
      → (out : Bloom x.float.F) × (calls (before ++ (r, keys) ∷ after) self ≡ some out)
        × (check_and_insert_with_keys x r' keys' out ≡ some (out, false))
  unfolding calls
  calls_refuse [] after r r' keys keys' self filter equal =
      let (mid, accepted, called, filter', len, hashes, set, kept) =
        check_sets r keys self filter in
      let (out, done, len', hashes', kept') = calls_keep after mid filter' in
      let indexes : indexes_of r' keys' out ≡ indexes_of r keys self =
        rw (sym equal, len' ∙ len, hashes' ∙ hashes) refl in
      let all_set : all_bits (indexes_of r' keys' out) out.bits ≡ some true =
        ap (λ is. all_bits is out.bits) indexes ∙ kept' (indexes_of r keys self) set in
      (out, rw (called, calls) done, check_refused r' keys' out all_set)
  calls_refuse ((q, names) ∷ before) after r r' keys keys' self filter equal =
      let (mid, accepted, called, filter', len, hashes, set, kept) =
        check_sets q names self filter in
      let (out, done, refused) = calls_refuse before after r r' keys keys' mid filter' equal in
      (out, rw (called, calls) done, refused)
