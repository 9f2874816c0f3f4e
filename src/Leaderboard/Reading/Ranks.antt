-- ===== src/Leaderboard/Reading/Ranks.antt =====
-- What a leaderboard shows: how many entries, in which order, under which ranks.
use quiz.Prelude.{
  ℕ, suc, zero, ◌+◌, ◌≤◌, ◌≡◌, ◌⊎◌, refl, sym, ap, ◌∙◌, subst, arith, inl, inr, false, ◌||◌, Option,
  none, some, List, [], ◌∷◌, map, Text, Map, ℤ, pos, negsuc, ◌-ℤ◌, ◌≤ℤ◌, ltb_ℤ, leb_ℤ, length,
  Bool-cases, Option-cases,
}
use quiz.Scoring.Float.{Float64}
use quiz.Leaderboard.{Service, leaderboard_key, meta_key}
use quiz.Leaderboard.Reading.{
  Replies, IsBounded, Entry, LeaderboardEntry, limit_of, entry_of, collect, with_entry, top,
  to_ws_entries,
}

-- The first list is left of the second when some members are passed over.
abbrev pub IsLeft : List (ℕ × ℤ) → List (ℕ × ℤ) → Type 0
IsLeft [] members = Unit
IsLeft (x ∷ xs) [] = ⊥
IsLeft (x ∷ xs) (y ∷ members) = ((x ≡ y) × IsLeft xs members) ⊎ IsLeft (x ∷ xs) members

IsLeft-skip :
    (xs : List (ℕ × ℤ)) (y : ℕ × ℤ) (members : List (ℕ × ℤ))
    → IsLeft xs members
    → IsLeft xs (y ∷ members)
IsLeft-skip [] y members k = tt
IsLeft-skip (x ∷ xs) y members k = inr k

pub IsLeft-length : (xs members : List (ℕ × ℤ)) → IsLeft xs members → length xs ≤ length members
IsLeft-length [] members k = omega arith
IsLeft-length (x ∷ xs) [] k = absurd k
IsLeft-length (x ∷ xs) (y ∷ members) (inl (e, k)) = omega (arith, IsLeft-length xs members k)
IsLeft-length (x ∷ xs) (y ∷ members) (inr k) = omega (arith, IsLeft-length (x ∷ xs) members k)

-- The ranks go up by one from `i`.
abbrev pub IsRanked : {F : Type 0} → ℕ → List (LeaderboardEntry F) → Type 0
IsRanked i [] = Unit
IsRanked i (e ∷ entries) = (e.rank ≡ i) × IsRanked (i + 1) entries

pub one_less : (n : ℕ) → pos (suc n) -ℤ pos 1 ≡ pos n
unfolding ◌-ℤ◌
one_less n = ground arith

positive : (z : ℤ) → leb_ℤ z (pos 0) ≡ false → (n : ℕ) × (z ≡ pos (suc n))
positive (pos zero) h = absurd (ground arith)
positive (pos (suc n)) h = (n, refl)
positive (negsuc n) h = absurd (ground arith)

pub limit_of-positive :
    (s : Service) (limit : ℤ)
    → leb_ℤ s.top_n (pos 0) ≡ false
    → (n : ℕ) × (limit_of s limit ≡ pos (suc n))
      × (pos (suc n) ≤ℤ s.top_n)
      × (leb_ℤ limit (pos 0) ≡ false → pos (suc n) ≤ℤ limit)
unfolding limit_of
limit_of-positive s limit h = elim (Bool-cases (leb_ℤ limit (pos 0) || ltb_ℤ s.top_n limit)) [
  | inl cut ↦
      let (n, e) = positive s.top_n h in
      (n, rw cut e, ground (arith, e), λ above. ground (arith, e))
  | inr kept ↦
      let (n, e) = positive limit (ground arith) in
      (n, rw kept e, ground (arith, e), λ above. ground (arith, e))
]

module _ (fl : Float64) (user_text : ℕ → Text) (replies : Replies) where
  open fl use {F}

  abbrev pub place : Entry F → ℕ × ℤ
  place e = (e.user_id, e.score)

  entry_of-place :
      (u : ℕ) (score : ℤ) (fields : Map Text Text)
      → place (entry_of fl user_text replies u score fields) ≡ (u, score)
  unfolding entry_of
  entry_of-place u score [] = refl
  entry_of-place u score (f ∷ fields) = refl

  with_entry-IsLeft :
      (u : ℕ) (score : ℤ) (o : Option (Map Text Text)) (rest : List (Entry F))
      (members : List (ℕ × ℤ))
      → IsLeft (map place rest) members
      → IsLeft (map place (with_entry fl user_text replies u score o rest)) ((u, score) ∷ members)
  with_entry-IsLeft u score none rest members k = IsLeft-skip (map place rest) (u, score) members k
  with_entry-IsLeft u score (some fields) rest members k = inl (entry_of-place u score fields, k)

  pub collect-IsLeft :
      (key : ℕ → Text) (members : List (ℕ × ℤ))
      → IsLeft (map place (collect fl user_text replies key members)) members
  unfolding collect
  collect-IsLeft key [] = tt
  collect-IsLeft key ((u, score) ∷ members) =
      with_entry-IsLeft u score (replies.h_get_all (key u))
        (collect fl user_text replies key members) members (collect-IsLeft key members)

  pub to_ws_entries-IsRanked :
      (i : ℕ) (entries : List (Entry F))
      → IsRanked (i + 1) (to_ws_entries fl user_text replies i entries)
  unfolding to_ws_entries
  to_ws_entries-IsRanked i [] = tt
  to_ws_entries-IsRanked i (e ∷ entries) = (refl, to_ws_entries-IsRanked (i + 1) entries)

  pub length-map : (entries : List (Entry F)) → length (map place entries) ≡ length entries
  length-map [] = refl
  length-map (e ∷ entries) = ap suc (length-map entries)

  -- `Top` shows at most `topN` entries, and at most `limit` if that is positive, in the order and with
  -- the scores of the members that Redis returns; ranked for the clients they count up from 1, also
  -- where a member whose hash could not be read has been passed over.
  pub top-IsRanked :
      (s : Service) (window : Text) (limit : ℤ) (entries : List (Entry F))
      → IsBounded replies
      → leb_ℤ s.top_n (pos 0) ≡ false
      → top fl user_text replies s window limit ≡ some entries
      → (pos (length entries) ≤ℤ s.top_n)
        × (leb_ℤ limit (pos 0) ≡ false → pos (length entries) ≤ℤ limit)
        × ((members : List (ℕ × ℤ)) × (replies.z_rev_range
                (leaderboard_key s window)
                (limit_of s limit -ℤ pos 1)
              ≡ some members)
            × IsLeft (map place entries) members)
        × IsRanked 1 (to_ws_entries fl user_text replies 0 entries)
  unfolding top
  top-IsRanked s window limit entries bounded has_top h =
      let stop = limit_of s limit -ℤ pos 1 in
      let (n, is_limit, under_top, under_limit) = limit_of-positive s limit has_top in
      elim (Option-cases (replies.z_rev_range (leaderboard_key s window) stop)) [
        | inl broken ↦ absurd (ground (arith, broken))
        | inr (members, e) ↦
            let same : collect fl user_text replies (meta_key user_text s window) members
                ≡ entries =
              ground (arith, e) in
            let left : IsLeft (map place entries) members =
              subst (λ (es : List (Entry F)). IsLeft (map place es) members) same
                (collect-IsLeft (meta_key user_text s window) members) in
            let few : length entries ≤ n + 1 = omega (
              arith,
              length-map entries,
              IsLeft-length (map place entries) members left,
              bounded (leaderboard_key s window) n members (
                  ap (replies.z_rev_range (leaderboard_key s window))
                    (sym (ap (λ (z : ℤ). z -ℤ pos 1) is_limit ∙ one_less n))
                  ∙ e),
            ) in
            (
              ground (arith, few, under_top),
              λ above. ground (arith, few, under_limit above),
              (members, e, left),
              to_ws_entries-IsRanked 0 entries,
            )
      ]
