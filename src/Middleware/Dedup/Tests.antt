-- ===== src/Middleware/Dedup/Tests.antt =====
-- Runs of the deduplication (src/middleware/dedup), and the theorems at concrete requests.
use kun.Prelude.{ℕ, ◌≡◌, refl, true, false, some, [], ◌∷◌, arith, join}
use kun.Error.{ok}
use kun.Request.{Request}
use kun.Middleware.Tests.{externals, page}
use kun.Middleware.Dedup.{url, method, fingerprint, fingerprint_part}
use kun.Middleware.Dedup.Memory
use kun.Middleware.Dedup.Memory.{new_memory, after_calls, check-after_calls}
use kun.Middleware.Dedup.Bloom
use kun.Middleware.Dedup.Bloom.{Bloom}
use kun.Middleware.Dedup.Bloom.Seen.{calls, calls_refuse}

abbrev post : Request ℕ
post = record page { method = "POST" }

check-after_calls_example :
    (Memory.check_and_insert_with_keys externals post
      (url ∷ method ∷ [])
      (after_calls externals ((page, url ∷ method ∷ []) ∷ []) new_memory)).1
    ≡ ok true
unfolding fingerprint fingerprint_part join
check-after_calls_example =
    check-after_calls externals ((page, url ∷ method ∷ []) ∷ []) post (url ∷ method ∷ []) new_memory

-- Two bytes for ten bits, and three hashes.
abbrev small_filter : Bloom ℕ
small_filter = record {
  keys = url ∷ [];
  expected_items = 1;
  false_positive_rate = 0;
  bit_len = 10;
  hash_count = 3;
  bits = 0 ∷ 0 ∷ [];
}

calls_refuse_example :
    (out : Bloom ℕ) × (calls externals ((page, method ∷ []) ∷ (post, url ∷ []) ∷ []) small_filter
      ≡ some out)
    × (Bloom.check_and_insert_with_keys externals page (url ∷ []) out ≡ some (out, false))
unfolding fingerprint fingerprint_part join
calls_refuse_example =
    calls_refuse externals ((page, method ∷ []) ∷ []) [] post page (url ∷ []) (url ∷ [])
      small_filter (omega arith, omega arith, (omega arith, (omega arith, tt))) refl
