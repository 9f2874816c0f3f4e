-- ===== src/Handler/Refusals.antt =====
-- The messages that are refused before they reach the queue, a room or a match.
use quiz.Prelude.{ℕ, ◌≡◌, refl, ap, ◌∙◌, arith, true, false, Option, none, some, Result, ok, err}
use quiz.Scoring.{ScoringConfig}
use quiz.Scoring.Float.{Float64}
use quiz.Hub.{Hub, HubError, send_to_user}
use quiz.Hub.Members.{is_member}
use quiz.Hub.Rosters.{is_member-send_to_user}
use quiz.Handler.Types.{
  Server, Message, join_queue, cancel_queue, join_private, leave_match_of, accept_bot_fill,
  ready_state, submits, request_progress, unknown, ErrorCode, unknown_message_type, invalid_payload,
  invalid_queue_token, invalid_match_id, feature_not_available, error_message, Sender, Env, Handled,
  of_hub,
}
use quiz.Handler.{
  send, send_error, handle_cancel_queue, handle_leave_match, handle_join_queue, handle_join_private,
  handle_submit_answer, handle_message, with_uuid,
}

-- The error of a text that is no UUID.
abbrev unless_parsed : Option ℕ → ErrorCode → Option ErrorCode
unless_parsed none code = some code
unless_parsed (some id) code = none

-- Which messages are refused as they stand, and with which code.
abbrev refusal : {F : Type 0} → Env F → Message → Option ErrorCode
refusal env (join_queue none) = some invalid_payload
refusal env (cancel_queue none) = some invalid_payload
refusal env (cancel_queue (some text)) = unless_parsed (env.parse_uuid text) invalid_queue_token
refusal env (join_private none) = some invalid_payload
refusal env (leave_match_of none) = some invalid_payload
refusal env (leave_match_of (some text)) = unless_parsed (env.parse_uuid text) invalid_match_id
refusal env accept_bot_fill = some feature_not_available
refusal env ready_state = some feature_not_available
refusal env (submits none) = some invalid_payload
refusal env (submits (some req)) = unless_parsed (env.parse_uuid req.match_id) invalid_match_id
refusal env (request_progress false) = some invalid_payload
refusal env (unknown type) = some unknown_message_type
refusal env _ = none

the_code :
    (given code : ErrorCode) → ◌≡◌ {A = Option ErrorCode} (some given) (some code) → given ≡ code
the_code given code h = ground arith

module _ {F : Type 0} (env : Env F) where
  bad_uuid :
      (u : ℕ) (code given : ErrorCode) (s : Server) (o : Option ℕ) (go : ℕ → Handled)
      → unless_parsed o given ≡ some code
      → with_uuid env u given s o go ≡ send_error env u code s
  bad_uuid u code given s none go h =
      let same : given ≡ code = ground arith in ap (λ (c : ErrorCode). send_error env u c s) same
  bad_uuid u code given s (some id) go h = absurd (cc)

  told :
      (s : Server) (p : Result HubError (Unit {0}) × Hub)
      → ((of_hub s p).1.queue ≡ s.queue)
        × ((of_hub s p).1.rooms ≡ s.rooms)
        × ((of_hub s p).1.hub ≡ p.1)
  told s (ok u, h) = (refl, refl, refl)
  told s (err e, h) = (refl, refl, refl)

  send_error-leaves :
      (u : ℕ) (code : ErrorCode) (s : Server)
      → ((send_error env u code s).1.queue ≡ s.queue)
        × ((send_error env u code s).1.rooms ≡ s.rooms)
        × ((m v : ℕ) → is_member m v (send_error env u code s).1.hub ≡ is_member m v s.hub)
  unfolding send_error send
  send_error-leaves u code s =
      let msg = env.encode (error_message code) in
      let (queue, rooms, hub) = told s (send_to_user u msg s.hub) in
      (queue, rooms, λ m v. ap (is_member m v) hub ∙ is_member-send_to_user m v u msg s.hub)

module _ (fl : Float64) (cfg : ScoringConfig fl.F) (env : Env fl.F) where
  refused-error :
      (sender : Sender) (msg : Message) (s : Server) (code : ErrorCode)
      → refusal env msg ≡ some code
      → handle_message fl cfg env sender msg s ≡ send_error env sender.user_id code s
  unfolding handle_message handle_join_queue handle_cancel_queue handle_leave_match
      handle_join_private handle_submit_answer
  refused-error sender (join_queue none) s code h =
      ap (λ (c : ErrorCode). send_error env sender.user_id c s) (the_code invalid_payload code h)
  refused-error sender (join_queue (some req)) s code h = absurd (cc)
  refused-error sender (cancel_queue none) s code h =
      ap (λ (c : ErrorCode). send_error env sender.user_id c s) (the_code invalid_payload code h)
  refused-error sender (cancel_queue (some text)) s code h =
      bad_uuid env sender.user_id code _ s (env.parse_uuid text) _ h
  refused-error sender (join_private none) s code h =
      ap (λ (c : ErrorCode). send_error env sender.user_id c s) (the_code invalid_payload code h)
  refused-error sender (join_private (some text)) s code h = absurd (cc)
  refused-error sender (leave_match_of none) s code h =
      ap (λ (c : ErrorCode). send_error env sender.user_id c s) (the_code invalid_payload code h)
  refused-error sender (leave_match_of (some text)) s code h =
      bad_uuid env sender.user_id code _ s (env.parse_uuid text) _ h
  refused-error sender accept_bot_fill s code h =
      ap (λ (c : ErrorCode). send_error env sender.user_id c s)
        (the_code feature_not_available code h)
  refused-error sender ready_state s code h =
      ap (λ (c : ErrorCode). send_error env sender.user_id c s)
        (the_code feature_not_available code h)
  refused-error sender (submits none) s code h =
      ap (λ (c : ErrorCode). send_error env sender.user_id c s) (the_code invalid_payload code h)
  refused-error sender (submits (some req)) s code h =
      bad_uuid env sender.user_id code _ s (env.parse_uuid req.match_id) _ h
  refused-error sender (request_progress true) s code h = absurd (cc)
  refused-error sender (request_progress false) s code h =
      ap (λ (c : ErrorCode). send_error env sender.user_id c s) (the_code invalid_payload code h)
  refused-error sender (unknown type) s code h =
      ap (λ (c : ErrorCode). send_error env sender.user_id c s)
        (the_code unknown_message_type code h)

  -- A message with an unknown type, an unreadable payload or UUID, or a feature that is missing has
  -- one effect, that its sender is sent the error with the code for it: the queue, the rooms and the
  -- members of every match stay as they were.
  pub handle_message_refused :
      (sender : Sender) (msg : Message) (s : Server) (code : ErrorCode)
      → refusal env msg ≡ some code
      → let after = handle_message fl cfg env sender msg s in
        (after ≡ send_error env sender.user_id code s)
        × (after.1.queue ≡ s.queue)
        × (after.1.rooms ≡ s.rooms)
        × ((m v : ℕ) → is_member m v after.1.hub ≡ is_member m v s.hub)
  handle_message_refused sender msg s code h =
      let same = refused-error sender msg s code h in
      let (queue, rooms, members) = send_error-leaves env sender.user_id code s in
      (
        same,
        ap (λ (r : Handled). r.1.queue) same ∙ queue,
        ap (λ (r : Handled). r.1.rooms) same ∙ rooms,
        λ m v. ap (λ (r : Handled). is_member m v r.1.hub) same ∙ members m v,
      )
