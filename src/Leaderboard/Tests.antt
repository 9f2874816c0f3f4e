-- ===== src/Leaderboard/Tests.antt =====
-- The leaderboards of internal/leaderboard/service.go on small inputs.
use quiz.Prelude.{
  length, ℕ, ◌≡◌, refl, true, false, ◌&&◌, [], ◌∷◌, ◌++◌, Text, text_beq, codes, pos, contains,
  is_empty, if◌then◌else◌, ◌==◌, text_eq, Distinct,
}
use quiz.Leaderboard.{
  Service, ServiceOptions, RecordRequest, new_service, leaderboard_key,
  private_room_leaderboard_key, private_room_meta_key, record_result, record_private_room_result,
  entry_commands, expire, seven_days,
}
use quiz.Leaderboard.Recording.{z_totals, record_result_lem}

abbrev options : ServiceOptions
options = record {
  top_n = pos 0;
  pubsub_channel = [];
  windows = codes "daily" ∷ codes "all_time" ∷ [];
  entry_ttl = pos 9;
  redis_key_prefix = codes "lb";
  snapshot_top_limit = pos 0;
}

abbrev service : Service
service = record {
  top_n = pos 50;
  pubsub_channel = codes "lb:updates";
  windows = codes "daily" ∷ codes "all_time" ∷ [];
  entry_ttl = pos 9;
  prefix = codes "lb";
  snapshot_top_lim = pos 100;
}

made : new_service options ≡ service
unfolding new_service text_beq
made = refl

abbrev user_text : ℕ → Text
user_text n = n ∷ []

abbrev result : RecordRequest
result = record {
  user_id = 3;
  username = codes "u";
  score = pos 250;
  correct_count = 2;
  question_count = 3;
  won = true;
  match_id = 8;
  windows = [];
  eligible = true;
}

windows-Distinct : Distinct (if is_empty result.windows then service.windows else result.windows)
unfolding text_beq
windows-Distinct = (refl, (refl, tt))

record_result_lem_example :
    (z_totals
        (leaderboard_key service (codes "daily"))
        (user_text 3)
        (record_result user_text service result (λ x. false)).1
      ≡ (if result.eligible
            && (contains
                  (codes "daily")
                  (if is_empty result.windows then service.windows else result.windows)
                && (user_text result.user_id == user_text 3))
          then result.score
          else pos 0))
    × (length (record_result user_text service result (λ x. false)).1 ≡ (
        if result.eligible
        then length (if is_empty result.windows then service.windows else result.windows)
        else 0))
record_result_lem_example =
    record_result_lem user_text service result (codes "daily") (user_text 3) windows-Distinct

-- The keys of a private room expire after seven days.
private_room :
    let z_key = private_room_leaderboard_key service (codes "100023") in
    let m_key = private_room_meta_key user_text service (codes "100023") 3 in
    record_private_room_result user_text service (codes "100023") result
    ≡ (entry_commands user_text z_key m_key result
        ++ (expire z_key seven_days ∷ expire m_key seven_days ∷ []))
      ∷ []
unfolding record_private_room_result private_room_meta_key
private_room = refl
