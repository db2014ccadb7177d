-- ===== src/Robots/Rules/Groups.antt =====
-- src/robots.rs: the groups for a user agent are those that name it most specifically.
use kun.Prelude.{
  ℕ, suc, ltb, ◌==◌, max, ◌≤◌, ◌<◌, ◌≡◌, refl, String, Bool, true, false, ◌&&◌, Option, none, some,
  List, [], ◌∷◌, ◌++◌, arith, Option-cases, inl, inr, keep, All, All-append, All-imp, append-nil,
  Bool-cases, sym, ap, ◌∙◌,
}
use kun.Robots.Rules.{
  Patterns, Group, Rules, match_specificity, keep_group, matching_from, matching_groups,
}

module _ {ℓ} {A : Type ℓ} where
  keep-append : (p : A → Bool) (xs ys : List A) → keep p (xs ++ ys) ≡ keep p xs ++ keep p ys
  keep-append p [] ys = refl
  keep-append p (x ∷ xs) ys = ground (arith, keep-append p xs ys)

  keep_none : (p : A → Bool) (xs : List A) → All (λ a. p a ≡ false) xs → keep p xs ≡ []
  keep_none p [] h = refl
  keep_none p (x ∷ xs) (here, h) = rw here (keep_none p xs h)

  append_one : (xs : List A) (y : A) (ys : List A) → (xs ++ y ∷ []) ++ ys ≡ xs ++ y ∷ ys
  append_one [] y ys = refl
  append_one (x ∷ xs) y ys = ap (◌∷◌ x) (append_one xs y ys)

module _ (x : Patterns) (user_agent : String) where
  -- One more than the specificity of a group for the user agent, and 0 when it is not for it.
  unfoldable pub rank : Group x.Regex → ℕ
  rank group = elim (match_specificity x group user_agent) [ none ↦ 0 | some s ↦ suc s ]

  unfoldable pub top_rank : List (Group x.Regex) → ℕ
  top_rank [] = 0
  top_rank (group ∷ groups) = max (rank group) (top_rank groups)

  abbrev pub at_rank : ℕ → Group x.Regex → Bool
  at_rank r group = ltb 0 r && rank group == r

  -- The best specificity so far is that of the groups `found`.
  abbrev Best : ℕ → Option ℕ → Type 0
  Best b none = b ≡ 0
  Best b (some s) = b ≡ suc s

  -- What the loop keeps: the best specificity of the groups behind it, and those that have it.
  BestOf : (done : List (Group x.Regex)) (b : ℕ) → Option ℕ × List (Group x.Regex) → Type 0
  BestOf done b s = All (λ g. rank g ≤ b) done × Best b s.0 × (s.1 ≡ keep (at_rank b) done)

  keep_new :
      (done : List (Group x.Regex)) (group : Group x.Regex) (b : ℕ)
      → All (λ g. rank g ≤ b) done
      → b < rank group
      → keep (at_rank (rank group)) (done ++ group ∷ []) ≡ group ∷ []
  keep_new done group b below more =
      let none_there : All (λ g. at_rank (rank group) g ≡ false) done =
        All-imp (λ g. rank g ≤ b) (λ g. at_rank (rank group) g ≡ false) (λ g small. ground arith)
          done below in
      rw
        (
          keep-append (at_rank (rank group)) done (group ∷ []),
          keep_none (at_rank (rank group)) done none_there,
        )
        (ground arith)

  keep_same :
      (done : List (Group x.Regex)) (group : Group x.Regex) (b : ℕ)
      → 0 < b
      → rank group ≡ b
      → keep (at_rank b) (done ++ group ∷ []) ≡ keep (at_rank b) done ++ group ∷ []
  keep_same done group b more same =
      let taken : at_rank b group ≡ true = ground arith in
      rw (keep-append (at_rank b) done (group ∷ []), taken) refl

  keep_less :
      (done : List (Group x.Regex)) (group : Group x.Regex) (b : ℕ)
      → (at_rank b group ≡ false)
      → keep (at_rank b) (done ++ group ∷ []) ≡ keep (at_rank b) done
  keep_less done group b less = rw (keep-append (at_rank b) done (group ∷ []), less) (append-nil _)

  all_below :
      (done : List (Group x.Regex)) (group : Group x.Regex) (b r : ℕ)
      → All (λ g. rank g ≤ b) done
      → rank group ≡ r
      → All (λ g. rank g ≤ max b r) (done ++ group ∷ [])
  all_below done group b r below ranked =
      All-append (λ g. rank g ≤ max b r) done (group ∷ [])
        (All-imp (λ g. rank g ≤ b) (λ g. rank g ≤ max b r) (λ g small. omega arith) done below)
        (omega arith, tt)

  keep_at :
      (groups found : List (Group x.Regex)) (r r' : ℕ)
      → r ≡ r'
      → keep (at_rank r') groups ≡ found
      → found ≡ keep (at_rank r) groups
  keep_at groups found r r' same kept = sym (ap (λ n. keep (at_rank n) groups) same ∙ kept)

  keep_eq :
      (r r' : ℕ) (xs ys : List (Group x.Regex))
      → r ≡ r'
      → xs ≡ ys
      → keep (at_rank r) xs ≡ keep (at_rank r') ys
  keep_eq r r' xs ys same same' = ap (λ n. keep (at_rank n) xs) same ∙ ap (keep (at_rank r')) same'

  keep_group-BestOf :
      (done : List (Group x.Regex)) (b : ℕ) (best : Option ℕ) (found : List (Group x.Regex))
      (group : Group x.Regex) (s : ℕ)
      → BestOf done b (best, found)
      → rank group ≡ suc s
      → BestOf (done ++ group ∷ []) (max b (suc s)) (keep_group x group s best found)
  unfolding BestOf keep_group
  keep_group-BestOf done b none found group s (below, known, kept) ranked = (
    all_below done group b (suc s) below ranked,
    omega arith,
    keep_at _ _ (max b (suc s)) (rank group) (omega arith)
        (keep_new done group b below (omega arith)),
  )
  keep_group-BestOf done b (some current) found group s (below, known, kept) ranked =
      elim (Bool-cases (ltb current s)) [
        | inl more ↦
            let higher : current < s = ground arith in
            rw more (
              all_below done group b (suc s) below ranked,
              omega arith,
              keep_at _ _ (max b (suc s)) (rank group) (omega arith)
                  (keep_new done group b below (omega arith)),
            )
        | inr not_more ↦ elim (Bool-cases (s == current)) [
          | inl same ↦
              let equal : s ≡ current = ground arith in
              rw (not_more, same)
                (
                  all_below done group b (suc s) below ranked,
                  omega arith,
                  keep_at _ _ (max b (suc s)) b (omega arith) (
                      keep_same done group b (omega arith) (omega arith)
                      ∙ ap (λ gs. gs ++ group ∷ []) (sym kept)),
                )
          | inr less ↦
              let lower : s < current = ground arith in
              rw (not_more, less)
                (
                  all_below done group b (suc s) below ranked,
                  omega arith,
                  keep_at _ _ (max b (suc s)) b (omega arith)
                      (keep_less done group b (ground arith) ∙ sym kept),
                )
        ]
      ]

  matching_from_best :
      (groups done : List (Group x.Regex)) (b : ℕ) (s : Option ℕ × List (Group x.Regex))
      → BestOf done b s
      → matching_from x groups user_agent s
        ≡ keep (at_rank (max b (top_rank groups))) (done ++ groups)
  unfolding matching_from top_rank BestOf rank
  matching_from_best [] done b s (below, known, kept) =
      kept
      ∙ (ap (keep (at_rank b)) (sym (append-nil done))
          ∙ ap (λ n. keep (at_rank n) (done ++ [])) (omega arith))
  matching_from_best (group ∷ groups) done b s h =
      let all_groups = append_one done group groups in
      elim (Option-cases (match_specificity x group user_agent)) [
        | inl missed ↦
            let unranked : rank group ≡ 0 = rw (missed, rank) refl in
            let (below, known, kept) = h in
            let kept' = kept ∙ sym (keep_less done group b (rw unranked (ground arith))) in
            let below' = All-append (λ g. rank g ≤ b) done (group ∷ []) below (omega arith, tt) in
            let ih = matching_from_best groups (done ++ group ∷ []) b s (below', known, kept') in
            let top : max b (top_rank groups) ≡ max b (max (rank group) (top_rank groups)) =
              omega arith in
            rw (missed, matching_from) (ih ∙ keep_eq _ _ _ _ top all_groups)
        | inr (specificity, matched) ↦
            let ranked : rank group ≡ suc specificity = rw (matched, rank) refl in
            let ih =
              matching_from_best groups (done ++ group ∷ []) (max b (suc specificity)) _
                (keep_group-BestOf done b s.0 s.1 group specificity h ranked) in
            let top : max (max b (suc specificity)) (top_rank groups)
                ≡ max b (max (rank group) (top_rank groups)) =
              omega arith in
            rw (matched, matching_from) (ih ∙ keep_eq _ _ _ _ top all_groups)
      ]

  -- The groups for a user agent are those of the highest rank, in their order; there are none when the
  -- highest rank is 0.
  pub matching_groups_top :
      (rules : Rules x.Regex)
      → matching_groups x rules user_agent ≡ keep (at_rank (top_rank rules.groups)) rules.groups
  unfolding matching_groups BestOf
  matching_groups_top rules =
      matching_from_best rules.groups [] 0 (none, []) (tt, refl, refl)
      ∙ ap (λ n. keep (at_rank n) rules.groups) (omega arith)
