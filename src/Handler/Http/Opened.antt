-- ===== src/Handler/Http/Opened.antt =====
-- A room that was opened over HTTP is found over HTTP.
use quiz.Prelude.{
  trim_prefix, trim_slash, ℕ, ◌≤◌, ◌≡◌, ◌≢◌, ◌⊎◌, ◌==◌, ℤ, leb_ℤ, int_beq_iff, refl, sym, ap, ◌∙◌,
  arith, inl, inr, true, false, Option, none, some, List, [], ◌∷◌, ◌++◌, All, Text, codes, pos,
  Result, ok, err, Bool-cases, nat_eq, text_eq, text_beq_iff, int_eq, lookup, beq_self,
}
use quiz.Account.Tokens.{Claims}
use quiz.Room.{PrivateRoom, RoomError, Rooms, create_room, get_room, new_room}
use quiz.Room.Code.{IsDigits}
use quiz.Room.Joining.{create_room_lem, create_room-IsDigits}
use quiz.Handler.Http.{
  CreateRoomRequest, Field, RoomResponse, created, found, validate_create_room_request,
  room_to_response, room_request, respond_created, create_valid, http_create_room, all_digits,
  http_get_room,
}

digits-kept :
    (s : Text) → All (λ c. (48 ≤ c) × (c ≤ 57)) s → (trim_slash s ≡ s) × (all_digits s ≡ true)
unfolding trim_slash all_digits
digits-kept [] h = (refl, refl)
digits-kept (c ∷ []) h = ground arith
digits-kept (c ∷ d ∷ s) (h, hs) =
    let (kept, digits) = digits-kept (d ∷ s) hs in
    (ap (λ (t : Text). c ∷ t) kept, ground (arith, digits))

got :
    (code : Text) (rooms : Rooms) (room : PrivateRoom)
    → lookup code rooms ≡ some room
    → get_room code rooms ≡ ok room
unfolding get_room
got code rooms room there = rw there refl

stored :
    (draws : List ℕ) (now : ℕ) (claims : Claims) (req : CreateRoomRequest) (rooms rooms' : Rooms)
    (code : Text) (room : PrivateRoom)
    → create_room draws now (room_request claims req) rooms ≡ some (ok (code, room), rooms')
    → (lookup code rooms ≡ none) × (lookup code rooms' ≡ some room)
stored draws now claims req rooms rooms' code room h =
    elim (create_room_lem draws now (room_request claims req) rooms rooms' (ok (code, room)) h) [
      | inl (guest, _, _) ↦ absurd (ground arith)
      | inr (fresh, _, same, absent, new) ↦
          let is_code : code ≡ fresh = ground arith in
          let is_room : room ≡ new_room fresh now (room_request claims req) = ground arith in
          (
            ap (λ (c : Text). lookup c rooms) is_code ∙ absent,
            ap (λ (c : Text). lookup c rooms') is_code
                ∙ ground (arith, new fresh, is_room, beq_self fresh),
          )
    ]

get_found :
    (code : Text) (rooms : Rooms) (room : PrivateRoom)
    → IsDigits code
    → lookup code rooms ≡ some room
    → http_get_room true (codes "/v1/rooms/" ++ code) rooms ≡ found (room_to_response code room)
unfolding http_get_room trim_prefix
get_found code rooms room (six, digits) there =
    let (kept, good) = digits-kept code digits in
    rw (kept, six, good, got code rooms room there) refl

responded :
    (r : Option (Result RoomError (Text × PrivateRoom) × Rooms)) (resp : RoomResponse)
    (rooms' : Rooms)
    → respond_created r ≡ some (created resp, rooms')
    → (code : Text) × (room : PrivateRoom) × (r ≡ some (ok (code, room), rooms'))
      × (resp ≡ room_to_response code room)
responded none resp rooms' h = absurd (cc)
responded (some (err e, rooms)) resp rooms' h = absurd (ground arith)
responded (some (ok (code, room), rooms)) resp rooms' h =
    let same : rooms ≡ rooms' = ground arith in
    let shown : room_to_response code room ≡ resp = ground arith in
    (code, room, ap (λ (x : Rooms). some (ok (code, room), x)) same, sym shown)

abbrev pub IsQuestionCount : ℤ → Type 0
IsQuestionCount n = (n ≡ pos 5) ⊎ (n ≡ pos 10) ⊎ (n ≡ pos 15)

valid :
    (req : CreateRoomRequest)
    → validate_create_room_request req ≡ none
    → (req.match_name ≢ [])
      × (req.max_players ≡ pos 2)
      × IsQuestionCount req.question_count
      × (leb_ℤ req.per_question_seconds (pos 0) ≡ false)
unfolding validate_create_room_request
valid req h = (
  ground (arith, text_beq_iff req.match_name []),
  ground (arith, int_eq.beq_iff req.max_players (pos 2)),
  elim (Bool-cases (req.question_count == pos 5)) [
    | inl five ↦ inl ((int_beq_iff req.question_count (pos 5)).0 five)
    | inr no_five ↦ elim (Bool-cases (req.question_count == pos 10)) [
      | inl ten ↦ inr (inl ((int_beq_iff req.question_count (pos 10)).0 ten))
      | inr no_ten ↦ inr (inr ((int_beq_iff req.question_count (pos 15)).0 (ground arith)))
    ]
  ],
  ground arith,
)

checked :
    (draws : List ℕ) (now : ℕ) (claims : Claims) (req : CreateRoomRequest) (rooms rooms' : Rooms)
    (resp : RoomResponse) (o : Option Field)
    → create_valid draws now claims req rooms o ≡ some (created resp, rooms')
    → (o ≡ none)
      × (respond_created (create_room draws now (room_request claims req) rooms)
          ≡ some (created resp, rooms'))
checked draws now claims req rooms rooms' resp none h = (refl, h)
checked draws now claims req rooms rooms' resp (some field) h = absurd (ground arith)

-- The response 201 comes only for a registered user and a request with a name, two players, 5, 10
-- or 15 questions and a positive number of seconds; the room has a code that named none before, and a request for that code then answers 200
-- with the same response.
pub http_get_room-http_create_room :
    (draws : List ℕ) (now : ℕ) (claims : Claims) (req : CreateRoomRequest) (rooms rooms' : Rooms)
    (resp : RoomResponse)
    → http_create_room draws now true (some claims) (some req) rooms ≡ some (created resp, rooms')
    → (claims.is_guest ≡ false)
      × (req.match_name ≢ [])
      × (req.max_players ≡ pos 2)
      × IsQuestionCount req.question_count
      × (leb_ℤ req.per_question_seconds (pos 0) ≡ false)
      × (lookup resp.room_code rooms ≡ none)
      × (http_get_room true (codes "/v1/rooms/" ++ resp.room_code) rooms' ≡ found resp)
unfolding http_create_room room_to_response
http_get_room-http_create_room draws now claims req rooms rooms' resp h =
    elim (Bool-cases claims.is_guest) [
      | inl guest ↦ absurd (ground arith)
      | inr member ↦
          let (fine, made) =
            checked draws now claims req rooms rooms' resp (validate_create_room_request req)
              (ground arith) in
          let (code, room, opened, shown) =
            responded (create_room draws now (room_request claims req) rooms) resp rooms' made in
          let (named, two, count, seconds) = valid req fine in
          let (absent, there) = stored draws now claims req rooms rooms' code room opened in
          let six =
            create_room-IsDigits draws now (room_request claims req) rooms rooms' code room
              opened in
          let same : resp.room_code ≡ code = ap (λ (r : RoomResponse). r.room_code) shown in
          (
            member,
            named,
            two,
            count,
            seconds,
            ap (λ (c : Text). lookup c rooms) same ∙ absent,
            ap (λ (c : Text). http_get_room true (codes "/v1/rooms/" ++ c) rooms') same
                ∙ get_found code rooms' room six there
                ∙ ap (λ (r : RoomResponse). found r) (sym shown),
          )
    ]
