-- ===== src/Leaderboard/Http/Bounds.antt =====
-- How many entries a response of internal/leaderboard/http.go shows, and under which ranks.
use quiz.Prelude.{
  ℕ, suc, ◌+◌, ◌≤◌, ◌≡◌, refl, sym, ap, ◌∙◌, subst, arith, inl, inr, Bool, true, false, not,
  if◌then◌else◌, ◌||◌, Option, none, some, List, [], ◌∷◌, ◌==◌, text_eq, Text, codes, ℤ, pos,
  pos_part, ◌-ℤ◌, ◌≤ℤ◌, leb_ℤ, length, map, length-take, has_prefix, trim_prefix, trim_slash,
  Bool-cases, Option-cases,
}
use quiz.Scoring.Float.{Float64}
use quiz.Leaderboard.{
  Service, leaderboard_key, meta_key, private_room_leaderboard_key, private_room_meta_key,
}
use quiz.Leaderboard.Reading.{
  Replies, IsBounded, Entry, LeaderboardEntry, limit_of, collect, collect_all, top,
  get_private_room_leaderboard, to_ws_entries,
}
use quiz.Leaderboard.Reading.Ranks.{
  IsRanked, IsLeft-length, one_less, limit_of-positive, collect-IsLeft, length-map,
  to_ws_entries-IsRanked, place,
}
use quiz.Leaderboard.Http.{
  Request, Response, Snapshots, method_not_allowed, unknown_window, room_code_required,
  fetch_failed, window_board, room_board, redis, snapshot, is_valid_window, limit_param, first_row,
  snapshot_fallback, shown_entries, live_entries, or_snapshot, room_response, room_entries,
  handle_get_private_room, handle_get,
}

abbrev pub IsLimit : ℤ → Type 0
IsLimit limit = (leb_ℤ limit (pos 0) ≡ false) × (limit ≤ℤ pos 100)

limit_param-IsLimit : (raw : Text) → IsLimit (limit_param raw)
unfolding limit_param
limit_param-IsLimit raw = ground arith

-- What a request gets, with at most `limit` entries of a leaderboard. Entries that are not from a
-- snapshot are ranked from 1.
abbrev pub IsAnswer : {F : Type 0} → ℤ → Bool → Response F → Type 0
IsAnswer limit is_get method_not_allowed = is_get ≡ false
IsAnswer limit is_get unknown_window = is_get ≡ true
IsAnswer limit is_get room_code_required = is_get ≡ true
IsAnswer limit is_get fetch_failed = is_get ≡ true
IsAnswer limit is_get (window_board window entries redis) =
    (is_get ≡ true)
    × (is_valid_window window ≡ true)
    × (pos (length entries) ≤ℤ limit)
    × IsRanked 1 entries
IsAnswer limit is_get (window_board window entries snapshot) =
    (is_get ≡ true) × (is_valid_window window ≡ true) × (pos (length entries) ≤ℤ limit)
IsAnswer limit is_get (room_board room_code entries) =
    (is_get ≡ true) × (pos (length entries) ≤ℤ limit) × IsRanked 1 entries

abbrev HasTop : Option Service → Type 0
HasTop none = Unit
HasTop (some s) = leb_ℤ s.top_n (pos 0) ≡ false

module _ (fl : Float64) (user_text : ℕ → Text) (replies : Replies)
    (bounded : IsBounded replies) where
  open fl use {F}

  length-to_ws_entries :
      (i : ℕ) (entries : List (Entry F))
      → length (to_ws_entries fl user_text replies i entries) ≡ length entries
  unfolding to_ws_entries
  length-to_ws_entries i [] = refl
  length-to_ws_entries i (e ∷ entries) = ap suc (length-to_ws_entries (i + 1) entries)

  -- The entries of a board, whichever its keys are.
  board_few :
      (s : Service) (limit : ℤ) (board : Text) (key : ℕ → Text)
      → leb_ℤ s.top_n (pos 0) ≡ false
      → leb_ℤ limit (pos 0) ≡ false
      → pos (
          length (
            shown_entries fl user_text replies (
              collect_all fl user_text replies key
                (replies.z_rev_range board (limit_of s limit -ℤ pos 1)))))
        ≤ℤ limit
  board_few s limit board key has_top above =
      let stop = limit_of s limit -ℤ pos 1 in
      let (n, is_limit, under_top, under_limit) = limit_of-positive s limit has_top in
      elim (Option-cases (replies.z_rev_range board stop)) [
        | inl broken ↦ rw broken (ground (arith, above))
        | inr (members, e) ↦
            let entries = collect fl user_text replies key members in
            let few : length entries ≤ n + 1 = omega (
              arith,
              length-map fl user_text replies entries,
              IsLeft-length (map (place fl user_text replies) entries) members
                  (collect-IsLeft fl user_text replies key members),
              bounded board n members (
                  ap (replies.z_rev_range board)
                    (sym (ap (λ (z : ℤ). z -ℤ pos 1) is_limit ∙ one_less n))
                  ∙ e),
            ) in
            rw e (ground (arith, few, length-to_ws_entries 0 entries, under_limit above))
      ]

  shown-IsRanked : (o : Option (List (Entry F))) → IsRanked 1 (shown_entries fl user_text replies o)
  shown-IsRanked none = tt
  shown-IsRanked (some entries) = to_ws_entries-IsRanked fl user_text replies 0 entries

  row-few :
      {P : Type 0} (q : Snapshots F P) (limit : ℤ)
      → leb_ℤ limit (pos 0) ≡ false
      → (rows : Option (List P))
      → pos (length (first_row fl user_text replies q limit rows)) ≤ℤ limit
  row-few q limit above none = ground (arith, above)
  row-few q limit above (some []) = ground (arith, above)
  row-few q limit above (some (row ∷ rows)) = elim (Option-cases (q.unmarshal row)) [
    | inl e ↦ rw e (ground (arith, above))
    | inr (entries, e) ↦ rw e (ground (arith, above, length-take (pos_part limit) entries))
  ]

  snapshot-few :
      {P : Type 0} (q : Option (Snapshots F P)) (window : Text) (limit : ℤ)
      → IsLimit limit
      → pos (length (snapshot_fallback fl user_text replies q window limit)) ≤ℤ limit
  unfolding snapshot_fallback
  snapshot-few none window limit (above, h) = ground (arith, above)
  snapshot-few (some q) window limit (above, h) =
      row-few q limit above (q.list_recent_snapshots window 1)

  shown-IsAnswer :
      {P : Type 0} (q : Option (Snapshots F P)) (window : Text) (limit : ℤ)
      (entries : List (LeaderboardEntry F))
      → IsLimit limit
      → is_valid_window window ≡ true
      → pos (length entries) ≤ℤ limit
      → IsRanked 1 entries
      → IsAnswer limit true (or_snapshot fl user_text replies q window limit entries)
  shown-IsAnswer q window limit [] is_limit valid few ranked =
      (refl, valid, snapshot-few q window limit is_limit)
  shown-IsAnswer q window limit (e ∷ entries) is_limit valid few ranked = (refl, valid, few, ranked)

  live-few :
      (svc : Option Service) (window : Text) (limit : ℤ)
      → HasTop svc
      → IsLimit limit
      → (pos (length (live_entries fl user_text replies svc window limit)) ≤ℤ limit)
        × IsRanked 1 (live_entries fl user_text replies svc window limit)
  unfolding top
  live-few none window limit has_top (above, h) = (ground (arith, above), tt)
  live-few (some s) window limit has_top (above, h) = (
    board_few s limit (leaderboard_key s window) (meta_key user_text s window) has_top above,
    shown-IsRanked (top fl user_text replies s window limit),
  )

  room-IsAnswer :
      (svc : Option Service) (room_code : Text) (limit : ℤ)
      → HasTop svc
      → IsLimit limit
      → IsAnswer limit true (room_entries fl user_text replies svc room_code limit)
  unfolding get_private_room_leaderboard
  room-IsAnswer none room_code limit has_top (above, h) = (refl, ground (arith, above), tt)
  room-IsAnswer (some s) room_code limit has_top (above, h) =
      responded (get_private_room_leaderboard fl user_text replies s room_code limit) (
        board_few s limit (private_room_leaderboard_key s room_code)
          (private_room_meta_key user_text s room_code) has_top above)
    where
      responded :
          (o : Option (List (Entry F)))
          → pos (length (shown_entries fl user_text replies o)) ≤ℤ limit
          → IsAnswer limit true (room_response fl user_text replies room_code o)
      responded none few = refl
      responded (some entries) few = (refl, few, shown-IsRanked (some entries))

  guarded :
      (limit : ℤ) (b : Bool) (answer : Response F)
      → (b ≡ true → IsAnswer limit true answer)
      → IsAnswer limit b (if not b then method_not_allowed else answer)
  guarded limit false answer k = refl
  guarded limit true answer k = k refl

  handle_get_private_room-IsAnswer :
      (svc : Option Service) (r : Request)
      → HasTop svc
      → IsAnswer (limit_param r.limit) r.is_get (handle_get_private_room fl user_text replies svc r)
  unfolding handle_get_private_room
  handle_get_private_room-IsAnswer svc r has_top =
      let room_code = trim_slash (trim_prefix r.path (codes "/v1/leaderboards/private/")) in
      let limit = limit_param r.limit in
      guarded limit r.is_get
        (if room_code == []
          then room_code_required
          else room_entries fl user_text replies svc room_code limit)
        (λ get. elim (Bool-cases (room_code == [])) [
          | inl e ↦ rw e refl
          | inr e ↦ rw e (room-IsAnswer svc room_code limit has_top (limit_param-IsLimit r.limit))
        ])

  -- Whatever is asked: a method other than GET is refused, a board is shown only for one of the four
  -- windows or for a room, it has at most as many entries as the limit of the query, which is
  -- between 1 and 100 whatever its text, and its entries are ranked from 1 unless they are those of a
  -- snapshot. The service, if there is one, has a positive `topN`, and Redis returns no more members
  -- than it is asked for.
  pub handle_get-IsAnswer :
      {P : Type 0} (svc : Option Service) (q : Option (Snapshots F P)) (r : Request)
      → HasTop svc
      → IsLimit (limit_param r.limit)
        × IsAnswer (limit_param r.limit) r.is_get (handle_get fl user_text replies svc q r)
  unfolding handle_get
  handle_get-IsAnswer svc q r has_top =
      let path = trim_slash (trim_prefix r.path (codes "/v1/leaderboards/")) in
      let limit = limit_param r.limit in
      let is_limit = limit_param-IsLimit r.limit in
      (
        is_limit,
        guarded limit r.is_get
            (if has_prefix path (codes "private/")
              then handle_get_private_room fl user_text replies svc r
              else if path == [] || not (is_valid_window path)
              then unknown_window
              else or_snapshot fl user_text replies q path limit
                  (live_entries fl user_text replies svc path limit))
            (λ get. elim (Bool-cases (has_prefix path (codes "private/"))) [
              | inl e ↦ rw e (
                  subst
                    (λ (b : Bool).
                      IsAnswer limit b (handle_get_private_room fl user_text replies svc r))
                    get (handle_get_private_room-IsAnswer svc r has_top))
              | inr e ↦ elim (Bool-cases (path == [] || not (is_valid_window path))) [
                | inl f ↦ rw (e, f) refl
                | inr f ↦
                    let (few, ranked) = live-few svc path limit has_top is_limit in
                    rw (e, f)
                      (shown-IsAnswer q path limit
                        (live_entries fl user_text replies svc path limit) is_limit
                        (ground (arith, f)) few ranked)
              ]
            ]),
      )
