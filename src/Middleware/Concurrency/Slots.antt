-- ===== src/Middleware/Concurrency/Slots.antt =====
-- src/middleware/concurrency.rs: the states of the buckets after one of them changed.
use kun.Prelude.{
  ℕ, str_eq, ◌-◌, ◌≡◌, refl, ◌&&◌, Option-cases, inl, inr, String, [], ◌∷◌, none, some, arith,
  if◌then◌else◌, eq_iff,
}
use kun.Prelude.Map
use kun.Prelude.Map.{Map}
use kun.Middleware.Shared.{Registry, state_of, set_state}
use kun.Middleware.Concurrency.{decrement}

-- The state of a bucket after one was set.
pub state_of-set_state :
    (signature signature' key key' : String) (a : ℕ) (reg : Registry ℕ)
    → state_of 0 signature' key' (set_state signature key a reg) ≡ (
        if str_eq signature signature' && str_eq key key'
        then a
        else state_of 0 signature' key' reg)
unfolding state_of set_state Map.lookup_or
state_of-set_state signature signature' key key' a reg = ground (
  arith,
  eq_iff signature signature',
  Map.lookup-insert signature signature' (Map.insert key a (Map.lookup_or [] signature reg)) reg,
  Map.lookup-insert key key' a (Map.lookup_or [] signature reg),
)

pub remove_absent :
    {V : Type 0} (k : String) (m : Map V) → Map.lookup k m ≡ none → Map.remove k m ≡ m
unfolding Map.lookup Map.remove
remove_absent k [] h = refl
remove_absent k ((j, w) ∷ m) h = ground (arith, remove_absent k m)

pub remove-insert :
    {V : Type 0} (k : String) (v : V) (m : Map V)
    → Map.lookup k m ≡ none
    → Map.remove k (Map.insert k v m) ≡ m
unfolding Map.lookup Map.remove Map.insert
remove-insert k v [] h = ground (arith, eq_iff k k)
remove-insert k v ((j, w) ∷ m) h = ground (arith, eq_iff k k, remove-insert k v m)

-- A bucket whose state is set to its own state stays.
kept :
    (signature key signature' key' : String) (reg : Registry ℕ)
    → state_of 0 signature' key' (set_state signature key (state_of 0 signature key reg) reg)
      ≡ state_of 0 signature' key' reg
kept signature key signature' key' reg = ground (
  arith,
  eq_iff signature signature',
  eq_iff key key',
  state_of-set_state signature signature' key key' (state_of 0 signature key reg) reg,
)

missing_zero :
    (signature key signature' key' : String) (reg : Registry ℕ)
    → Map.lookup key (Map.lookup_or [] signature reg) ≡ none
    → state_of 0 signature' key' reg
      ≡ state_of 0 signature' key' reg
        - (if str_eq signature signature' && str_eq key key' then 1 else 0)
unfolding state_of Map.lookup_or
missing_zero signature key signature' key' reg h =
    ground (arith, eq_iff signature signature', eq_iff key key')

lowered :
    (signature key signature' key' : String) (n : ℕ) (reg : Registry ℕ)
    → Map.lookup key (Map.lookup_or [] signature reg) ≡ some n
    → state_of 0 signature' key' (set_state signature key (n - 1) reg)
      ≡ state_of 0 signature' key' reg
        - (if str_eq signature signature' && str_eq key key' then 1 else 0)
unfolding Map.lookup_or state_of
lowered signature key signature' key' n reg h = ground (
  arith,
  eq_iff signature signature',
  eq_iff key key',
  state_of-set_state signature signature' key key' (n - 1) reg,
)

pub decrement_state :
    (signature key signature' key' : String) (reg : Registry ℕ)
    → state_of 0 signature' key' (decrement signature key reg)
      ≡ state_of 0 signature' key' reg
        - (if str_eq signature signature' && str_eq key key' then 1 else 0)
unfolding decrement
decrement_state signature key signature' key' reg =
    elim (Option-cases (Map.lookup key (Map.lookup_or [] signature reg))) [
      | inl missing ↦
          rw (missing, decrement) (missing_zero signature key signature' key' reg missing)
      | inr (n, found) ↦ rw (found, decrement) (lowered signature key signature' key' n reg found)
    ]
