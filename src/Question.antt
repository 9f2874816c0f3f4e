-- ===== src/Question.antt =====
-- internal/question/types.go and the duplicate and history checks of internal/question/service.go.
-- Go strings are byte lists, UUIDs are numbers with `uuid.Nil` as 0. Redis is not part of the
-- repository: what it replies is an argument.
pub mod Gather
pub mod Pack
use quiz.Prelude.{
  ℕ, suc, ◌+◌, Bool, true, false, not, ◌&&◌, ◌||◌, Option, none, some, List, [], ◌∷◌, ◌++◌, map,
  if◌then◌else◌, ◌==◌, nat_eq, text_eq, Text, codes, contains, is_empty,
}

pub record Question : Type 0 where
  pub id : Text
  pub prompt : Text
  pub options : List Text
  pub answer : Text
  pub source : Text
  pub token : Text

-- A row of the table of questions, with its UUID as a number.
pub record Row : Type 0 where
  pub question_id : ℕ
  pub prompt : Text
  pub options : List Text
  pub correct_answer : Text
  pub source : Text

-- `signToken`: with no key the identifier itself; `hmac_hex` is the hex digest of HMAC-SHA256.
unfoldable pub sign_token : (Text → Text → Text) → Text → Text → Text
sign_token hmac_hex key question_id = if is_empty key then question_id else hmac_hex key question_id

-- `toDomain`; `user_text` is `uuid.UUID.String`.
unfoldable pub to_domain : (ℕ → Text) → (Text → Text → Text) → Text → Row → Question
unfolding sign_token
to_domain uuid_text hmac_hex key row =
    let id = uuid_text row.question_id in
    record {
      id = id;
      prompt = row.prompt;
      options = row.options;
      answer = row.correct_answer;
      source = row.source;
      token = sign_token hmac_hex key id;
    }

-- The loop of `checkWithinMatchDuplicates`; `seen` holds the keys of the map, latest first.
pub unique_ids : List Text → List Text → List Text × Bool
unique_ids seen [] = ([], false)
unique_ids seen (id ∷ ids) =
    let known = contains id seen in
    let (unique, found) = unique_ids (if known then seen else id ∷ seen) ids in
    if known then (unique, true) else (id ∷ unique, found)

unfoldable pub check_within_match_duplicates : List Text → List Text × Bool
unfolding unique_ids
check_within_match_duplicates ids = unique_ids [] ids

abbrev pub ids_of : List Question → List Text
ids_of = map λ q. q.id

-- The questions whose identifier is a key of the map.
pub keep_ids : List Text → List Question → List Question
keep_ids kept [] = []
keep_ids kept (q ∷ qs) =
    let rest = keep_ids kept qs in if contains q.id kept then q ∷ rest else rest

-- What Redis replies about the histories of the players.
pub record HistoryReplies : Type 0 where
  pub connected : Bool
  -- `SIsMember` of one identifier; `none` for an error.
  pub is_member : ℕ → Text → Option Bool
  -- Whether the pipeline over these identifiers is executed without error.
  pub pipeline : List Text → Bool
  -- The values of its commands.
  pub seen : ℕ → Text → Bool

-- The loop of `checkUserQuestionHistory`.
pub user_unseen : HistoryReplies → ℕ → List Text → List Text × ℕ
user_unseen h user_id [] = ([], 0)
user_unseen h user_id (id ∷ ids) =
    let (unseen, duplicates) = user_unseen h user_id ids in
    elim (h.is_member user_id id) [
      | none ↦ (id ∷ unseen, duplicates)
      | some true ↦ (unseen, duplicates + 1)
      | some false ↦ (id ∷ unseen, duplicates)
    ]

pub check_user_question_history : HistoryReplies → ℕ → List Text → List Text × ℕ
unfolding user_unseen
check_user_question_history h user_id ids =
    if not h.connected || user_id == 0 then (ids, 0) else user_unseen h user_id ids

-- What `checkBothPlayersHistory` returns.
pub record BothUnseen : Type 0 where
  pub unseen_by_both : List Text
  pub dup1_count : ℕ
  pub dup2_count : ℕ

-- The loop over the results of its pipeline.
pub both_unseen : HistoryReplies → ℕ → ℕ → List Text → BothUnseen
both_unseen h player1 player2 [] = record { unseen_by_both = []; dup1_count = 0; dup2_count = 0 }
both_unseen h player1 player2 (id ∷ ids) =
    let rest = both_unseen h player1 player2 ids in
    let seen1 = h.seen player1 id in
    let seen2 = h.seen player2 id in
    record {
      unseen_by_both =
          if not seen1 && not seen2 then id ∷ rest.unseen_by_both else rest.unseen_by_both;
      dup1_count = if seen1 then rest.dup1_count + 1 else rest.dup1_count;
      dup2_count = if seen2 then rest.dup2_count + 1 else rest.dup2_count;
    }

abbrev all_unseen : List Text → BothUnseen
all_unseen ids = record { unseen_by_both = ids; dup1_count = 0; dup2_count = 0 }

unfoldable pub check_both_players_history : HistoryReplies → ℕ → ℕ → List Text → BothUnseen
unfolding both_unseen
check_both_players_history h player1 player2 ids =
    if not h.connected || (player1 == 0 || player2 == 0)
    then all_unseen ids
    else if is_empty ids
    then all_unseen []
    else if not (h.pipeline ids)
    then all_unseen ids
    else both_unseen h player1 player2 ids

-- The commands of `AddUserQuestionHistory`: the set to which the identifiers are added, and for how
-- many seconds it lives.
pub data HistoryCommand : Type 0 where
  s_add : Text → List Text → HistoryCommand
  expire : Text → ℕ → HistoryCommand

pub data HistoryError : Type 0 where
  add_history set_ttl : HistoryError

-- `added` and `timed` tell whether the two commands succeed.
pub add_user_question_history :
    Bool → (ℕ → Text) → ℕ → List Text → Bool → Bool → Option HistoryError × List HistoryCommand
add_user_question_history connected uuid_text user_id ids added timed =
    let key = codes "user:questions:" ++ uuid_text user_id in
    if not connected || (user_id == 0 || is_empty ids)
    then (none, [])
    else if not added
    then (some add_history, s_add key ids ∷ [])
    else ((if timed then none else some set_ttl), s_add key ids ∷ expire key 864_000 ∷ [])
