-- ===== src/Middleware/Dedup/Memory.antt =====
-- src/middleware/dedup/memory.rs: the fingerprints that were seen, each once.
use kun.Prelude.{
  ◌≡◌, refl, Bool, true, false, not, String, str_eq, eq_iff, List, [], ◌∷◌, ◌++◌, any, arith,
  Bool-cases, inl, inr, ap, sym, ◌∙◌, ◌&&◌, if◌then◌else◌,
}
use kun.Error.{Result, ok}
use kun.Request.{Request}
use kun.Middleware.Externals.{Externals}
use kun.Middleware.Dedup.{Key, url, fingerprint, Dedup}

-- `seen` is the set.
pub record Memory : Type 0 where
  pub keys : List Key
  pub seen : List String

abbrev pub new_memory : Memory
new_memory = record { keys = url ∷ []; seen = [] }

unfoldable pub with_key : Memory → Key → Memory
with_key self key = record self { keys = self.keys ++ key ∷ [] }

-- No keys are the URL.
abbrev pub or_url : List Key → List Key
or_url [] = url ∷ []
or_url (key ∷ keys) = key ∷ keys

unfoldable pub with_keys : Memory → List Key → Memory
with_keys self keys = record self { keys = or_url keys }

-- `HashSet::insert`: whether the text was not there.
unfoldable pub insert_seen : String → Memory → Memory × Bool
insert_seen text self =
    if any (λ s. str_eq s text) self.seen
    then (self, false)
    else (record self { seen = text ∷ self.seen }, true)

module _ (x : Externals) where
  unfoldable pub check_and_insert_with_keys :
      Request x.float.F → List Key → Memory → Memory × Result Bool
  check_and_insert_with_keys r keys self =
      let (self', accepted) = insert_seen (fingerprint x r keys) self in (self', ok accepted)

  unfoldable pub check_and_insert : Request x.float.F → Memory → Memory × Result Bool
  check_and_insert r self = check_and_insert_with_keys r self.keys self

  abbrev pub memory_dedup : Dedup x.float.F Memory
  memory_dedup = record {
    check_and_insert = check_and_insert;
    check_and_insert_with_keys = check_and_insert_with_keys;
  }

  -- The set after the calls.
  unfoldable pub after_calls : List (Request x.float.F × List Key) → Memory → Memory
  after_calls [] self = self
  after_calls ((r, keys) ∷ rs) self = after_calls rs (check_and_insert_with_keys r keys self).0

  seen-check_and_insert_with_keys :
      (r : Request x.float.F) (keys : List Key) (self : Memory) (text : String)
      → any (λ s. str_eq s text) (check_and_insert_with_keys r keys self).0.seen
        ≡ (if str_eq (fingerprint x r keys) text then true else any (λ s. str_eq s text) self.seen)
  unfolding check_and_insert_with_keys insert_seen
  seen-check_and_insert_with_keys r keys self text =
      let fp = fingerprint x r keys in
      elim (Bool-cases (any (λ s. str_eq s fp) self.seen)) [
        | inl seen ↦ elim (Bool-cases (str_eq fp text)) [
          | inl same ↦
              let equal : fp ≡ text = (eq_iff fp text).0 same in
              let found : any (λ s. str_eq s text) self.seen ≡ true =
                ap (λ t. any (λ s. str_eq s t) self.seen) (sym equal) ∙ seen in
              rw seen (ground (arith, found))
          | inr other ↦ rw seen (ground arith)
        ]
        | inr is_new ↦ rw is_new refl
      ]

  -- A request is accepted exactly when its fingerprint is not in the set at first and no call before
  -- had it, whatever keys the calls name; and the answer is never an error.
  pub check-after_calls :
      (before : List (Request x.float.F × List Key)) (r : Request x.float.F) (keys : List Key)
      (self : Memory)
      → (check_and_insert_with_keys r keys (after_calls before self)).1
        ≡ ok (
            not (any (λ q. str_eq (fingerprint x q.0 q.1) (fingerprint x r keys)) before)
            && not (any (λ s. str_eq s (fingerprint x r keys)) self.seen))
  unfolding after_calls check_and_insert_with_keys insert_seen
  check-after_calls [] r keys self =
      elim (Bool-cases (any (λ s. str_eq s (fingerprint x r keys)) self.seen)) [
        | inl seen ↦ rw seen refl
        | inr is_new ↦ rw is_new refl
      ]
  check-after_calls ((q, names) ∷ before) r keys self =
      rw
        (
          check-after_calls before r keys (check_and_insert_with_keys q names self).0,
          seen-check_and_insert_with_keys q names self (fingerprint x r keys),
        )
        (ground arith)
