-- ===== src/Queue/Tests.antt =====
-- The queue of internal/match/queue/manager.go on small inputs.
use mathlib.Core.List.{Mem}
use mathlib.Core.List.Perm
use quiz.Prelude.{
  ℕ, ◌≡◌, ◌≢◌, ◌*◌, refl, true, false, none, some, List, [], ◌∷◌, Text, text_beq, codes, insert,
  erase, pos, nat_eq,
}
use quiz.Queue.{
  WaitingPlayer, Waiting, Manager, MatchPair, MatchmakingRequest, normalize_category, is_compatible,
  to_player, enqueue, should_offer_bot, second,
}
use quiz.Queue.Search.{IsOrder, enqueue_pairs}
use quiz.Queue.Settled.{Call, enqueues, dequeues}

abbrev request : ℕ → Text → MatchmakingRequest
request user category = record {
  user_id = user;
  username = codes "u";
  is_guest = false;
  preferred_category = category;
  preferred_difficulty = [];
  bot_ok = true;
}

abbrev player : ℕ → ℕ → Text → ℕ → WaitingPlayer
player user token category now = record {
  user_id = user;
  username = codes "u";
  is_guest = false;
  preferred_category = category;
  preferred_difficulty = [];
  bot_ok = true;
  queued_at = now;
  queue_token = token;
}

-- A player of the default category and a player of sports wait.
abbrev two_waiting : Manager
two_waiting = record {
  waiting = (10, player 1 10 [] 5) ∷ (11, player 2 11 (codes "sports") 6) ∷ [];
  bot_wait_sec = pos 10;
}

abbrev only_sports : Waiting
only_sports = (11, player 2 11 (codes "sports") 6) ∷ []

abbrev visit : Waiting → Waiting
visit w = w

visit-IsOrder : IsOrder visit
visit-IsOrder m = Perm.refl m

abbrev pair_of_general : MatchPair
pair_of_general = record {
  player1 = to_player (request 3 (codes "general")) 12 7;
  player2 = player 1 10 [] 5;
}

paired :
    enqueue visit 12 7 (request 3 (codes "general")) two_waiting
    ≡ (12, some pair_of_general, record two_waiting { waiting = erase 10 two_waiting.waiting })
unfolding enqueue is_compatible normalize_category text_beq
paired = refl

enqueue_pairs_example :
    (t : ℕ) × (pair_of_general.player1 ≡ to_player (request 3 (codes "general")) 12 7)
    × Mem (t, pair_of_general.player2) two_waiting.waiting
    × (pair_of_general.player2.user_id ≢ (request 3 (codes "general")).user_id)
    × (normalize_category (request 3 (codes "general")).preferred_category
        ≡ normalize_category pair_of_general.player2.preferred_category)
    × (◌≡◌ {A = Manager}
        (record two_waiting { waiting = erase 10 two_waiting.waiting })
        (record two_waiting { waiting = erase t two_waiting.waiting }))
enqueue_pairs_example =
    enqueue_pairs visit 12 7 (request 3 (codes "general")) two_waiting
      (record two_waiting { waiting = erase 10 two_waiting.waiting }) pair_of_general visit-IsOrder
      paired

waits : enqueue visit 12 7 (request 3 (codes "art")) two_waiting ≡ (
  12,
  none,
  record two_waiting { waiting = insert 12 (player 3 12 (codes "art") 7) two_waiting.waiting },
)
unfolding enqueue is_compatible normalize_category text_beq
waits = refl

abbrev three_calls : List Call
three_calls =
    enqueues visit 10 5 (request 1 [])
    ∷ enqueues visit 11 6 (request 2 (codes "sports"))
    ∷ dequeues 10
    ∷ []

-- The ten seconds count from the time of queueing.
offers : (should_offer_bot (11 * second) 10 two_waiting) ≡ true
unfolding should_offer_bot
offers = refl

too_early : (should_offer_bot (9 * second) 10 two_waiting) ≡ false
unfolding should_offer_bot
too_early = refl
