-- ===== src/Router/Weights.antt =====
-- The weighted selection (`selectWeightedBackend` of internal/proxy/router.go), for weights that are
-- not negative and whose sum an int32 holds: the API allows 0 to 100 for a weight.
use kortex.Common.{
  suc, zero, In, inl, inr, Bool-cases, ltb, refl, ℕ, ◌+◌, ◌^◌, ◌≤◌, ◌<◌, ◌≡◌, some, List, [], ◌∷◌,
  ◌++◌, arith, All, ◌∙◌, ap,
}
use kortex.Common.Int.{pos, pos_part, neg_part, wrap32, wrap32_of_lt, ◌+ℤ◌}
use kortex.Api.{BackendRef}
use kortex.Router.{drawn, select_weighted_backend, weight_of, total_from, pick_from}

-- The weight that a backend has in the selection.
abbrev pub share : BackendRef → ℕ
share b = pos_part (weight_of b)

abbrev pub shares : List BackendRef → ℕ
shares [] = 0
shares (b ∷ bs) = share b + shares bs

abbrev pub IsWeighted : BackendRef → Type 0
IsWeighted b = neg_part b.weight ≡ 0

weight_of_lem : (b : BackendRef) → IsWeighted b → weight_of b ≡ pos (share b)
unfolding weight_of
weight_of_lem b h = ground arith

add_pos : (c d : ℕ) → pos c +ℤ pos d ≡ pos (c + d)
unfolding ◌+ℤ◌
add_pos c d = ground arith

pub add_share :
    (c : ℕ) (b : BackendRef)
    → IsWeighted b
    → c + share b < 2 ^ 31
    → wrap32 (pos c +ℤ weight_of b) ≡ pos (c + share b)
add_share c b hb h =
    ap (λ k. wrap32 (pos c +ℤ k)) (weight_of_lem b hb)
    ∙ ap wrap32 (add_pos c (share b))
    ∙ wrap32_of_lt (c + share b) h

pub total_from_lem :
    (c : ℕ) (bs : List BackendRef)
    → All IsWeighted bs
    → c + shares bs < 2 ^ 31
    → total_from (pos c) bs ≡ pos (c + shares bs)
unfolding total_from
total_from_lem c [] hs h = ap pos (omega arith)
total_from_lem c (b ∷ bs) hs h =
    ap (λ k. total_from k bs) (add_share c b hs.0 (omega arith))
    ∙ total_from_lem (c + share b) bs hs.1 (omega arith)
    ∙ ap pos (omega arith)

-- The loop picks the backend in whose part of the total the target falls.
pub pick_from_lem :
    (target c : ℕ) (before : List BackendRef) (b : BackendRef) (after : List BackendRef)
    → All IsWeighted (before ++ b ∷ after)
    → c + shares (before ++ b ∷ after) < 2 ^ 31
    → c + shares before ≤ target
    → target < c + shares before + share b
    → pick_from target (pos c) (before ++ b ∷ after) ≡ some b
unfolding pick_from
pick_from_lem target c [] b after hs h lo hi = ground (arith, add_share c b hs.0 (omega arith))
pick_from_lem target c (a ∷ before) b after hs h lo hi = ground (
  arith,
  add_share c a hs.0 (omega arith),
  pick_from_lem target (c + share a) before b after hs.1 (omega arith) (omega arith) (omega arith),
)

drawn_lem :
    (int31n : ℕ → ℕ) (first b : BackendRef) (bs : List BackendRef) (n : ℕ)
    → 0 < n
    → pick_from (int31n n) (pos 0) bs ≡ some b
    → drawn int31n first bs (pos n) ≡ some b
unfolding drawn
drawn_lem int31n first b bs zero h e = absurd (omega (arith, h))
drawn_lem int31n first b bs (suc n) h e = rw e

selected_of_pick :
    (int31n : ℕ → ℕ) (a c : BackendRef) (bs : List BackendRef) (b : BackendRef)
    → All IsWeighted (a ∷ c ∷ bs)
    → shares (a ∷ c ∷ bs) < 2 ^ 31
    → 0 < shares (a ∷ c ∷ bs)
    → pick_from (int31n (shares (a ∷ c ∷ bs))) (pos 0) (a ∷ c ∷ bs) ≡ some b
    → select_weighted_backend int31n (a ∷ c ∷ bs) ≡ some b
unfolding select_weighted_backend
selected_of_pick int31n a c bs b hs h positive e =
    ap (drawn int31n a (a ∷ c ∷ bs))
      (total_from_lem 0 (a ∷ c ∷ bs) hs (omega arith) ∙ ap pos (omega arith))
    ∙ drawn_lem int31n a b (a ∷ c ∷ bs) (shares (a ∷ c ∷ bs)) positive e

share_positive : (b : BackendRef) → IsWeighted b → 0 < share b
unfolding weight_of
share_positive b h = ground arith

-- Where no weight is negative and an int32 holds their sum, a draw in the part of the total that
-- belongs to a backend selects it: from the sum of the weights before it up to that sum with its
-- own, where a weight of zero counts as 100.
pub select_weighted_backend-share :
    (int31n : ℕ → ℕ) (before : List BackendRef) (b : BackendRef) (after : List BackendRef)
    → All IsWeighted (before ++ b ∷ after)
    → shares (before ++ b ∷ after) < 2 ^ 31
    → shares before ≤ int31n (shares (before ++ b ∷ after))
    → int31n (shares (before ++ b ∷ after)) < shares before + share b
    → select_weighted_backend int31n (before ++ b ∷ after) ≡ some b
unfolding select_weighted_backend
select_weighted_backend-share int31n [] b [] hs h lo hi = refl
select_weighted_backend-share int31n [] b (c ∷ after) hs h lo hi =
    selected_of_pick int31n b c after b hs h (omega arith)
      (pick_from_lem _ 0 [] b (c ∷ after) hs (omega arith) (omega arith) (omega arith))
select_weighted_backend-share int31n (a ∷ []) b after hs h lo hi =
    selected_of_pick int31n a b after b hs h (omega arith)
      (pick_from_lem _ 0 (a ∷ []) b after hs (omega arith) (omega arith) (omega arith))
select_weighted_backend-share int31n (a ∷ c ∷ before) b after hs h lo hi =
    selected_of_pick int31n a c (before ++ b ∷ after) b hs h (omega (arith, share_positive a hs.0))
      (pick_from_lem _ 0 (a ∷ c ∷ before) b after hs (omega arith) (omega arith) (omega arith))

-- Below the total, the loop ends at a backend of the list.
pick_from-In :
    (target c : ℕ) (bs : List BackendRef)
    → All IsWeighted bs
    → c + shares bs < 2 ^ 31
    → c ≤ target
    → target < c + shares bs
    → (b : BackendRef) × (pick_from target (pos c) bs ≡ some b) × In b bs
unfolding pick_from
pick_from-In target c [] hs h lo hi = absurd (omega (arith, lo, hi))
pick_from-In target c (a ∷ bs) hs h lo hi = elim (Bool-cases (ltb target (c + share a))) [
  | inl now ↦ (a, ground (arith, add_share c a hs.0 (omega arith)), inl refl)
  | inr later ↦
      let (b, e, at) =
        pick_from-In target (c + share a) bs hs.1 (omega arith) (ground arith) (omega arith) in
      (b, ground (arith, add_share c a hs.0 (omega arith)), inr at)
]

-- Of a list that is not empty, where no weight is negative and an int32 holds their sum, one of its
-- backends is selected, whatever is drawn below the total, and the selection does not panic.
pub select_weighted_backend-In :
    (int31n : ℕ → ℕ) (a : BackendRef) (bs : List BackendRef)
    → ((n : ℕ) → 0 < n → int31n n < n)
    → All IsWeighted (a ∷ bs)
    → shares (a ∷ bs) < 2 ^ 31
    → (b : BackendRef) × (select_weighted_backend int31n (a ∷ bs) ≡ some b) × In b (a ∷ bs)
unfolding select_weighted_backend
select_weighted_backend-In int31n a [] below hs h = (a, refl, inl refl)
select_weighted_backend-In int31n a (c ∷ bs) below hs h =
    let total = shares (a ∷ c ∷ bs) in
    let positive : 0 < total = omega (arith, share_positive a hs.0) in
    let (b, e, at) =
      pick_from-In (int31n total) 0 (a ∷ c ∷ bs) hs (omega arith) (omega arith)
        (omega (arith, below total positive)) in
    (b, selected_of_pick int31n a c bs b hs h positive e, at)
