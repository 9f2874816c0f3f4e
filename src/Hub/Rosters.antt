-- ===== src/Hub/Rosters.antt =====
-- Who is in a match after the calls that the handlers make: messages change no match, and whoever
-- has been joined is in it.
use quiz.Prelude.{
  ℕ, ◌≡◌, refl, ◌∙◌, arith, inl, inr, true, List, [], ◌∷◌, nat_eq, beq_self, lookup, Option-cases,
}
use quiz.Hub.{Hub, match_users, join_match, send_at, send_to_user, broadcast, broadcast_to_match}
use quiz.Hub.Members.{HasDistinctUsers, is_member, join_match_lem}

send_to_user-matches : (u msg : ℕ) (h : Hub) → (send_to_user u msg h).1.matches ≡ h.matches
unfolding send_to_user send_at
send_to_user-matches u msg h = elim (Option-cases (lookup u h.connections)) [
  | inl e ↦ ground (arith, e)
  | inr (a, e) ↦ ground (arith, e)
]

broadcast-matches : (us : List ℕ) (msg : ℕ) (h : Hub) → (broadcast us msg h).1.matches ≡ h.matches
unfolding broadcast
broadcast-matches [] msg h = refl
broadcast-matches (u ∷ us) msg h =
    broadcast-matches us msg (send_to_user u msg h).1 ∙ send_to_user-matches u msg h

same_matches : (g h : Hub) → g.matches ≡ h.matches → (m u : ℕ) → is_member m u g ≡ is_member m u h
unfolding match_users
same_matches g h e m u = rw (e, match_users) refl

-- Messages change no membership.
pub is_member-send_to_user :
    (m v u msg : ℕ) (h : Hub) → is_member m v (send_to_user u msg h).1 ≡ is_member m v h
is_member-send_to_user m v u msg h =
    same_matches (send_to_user u msg h).1 h (send_to_user-matches u msg h) m v

pub is_member-broadcast_to_match :
    (m v match_id msg : ℕ) (h : Hub)
    → is_member m v (broadcast_to_match match_id msg h).1 ≡ is_member m v h
unfolding broadcast_to_match
is_member-broadcast_to_match m v match_id msg h =
    same_matches (broadcast (match_users match_id h) msg h).1 h
      (broadcast-matches (match_users match_id h) msg h) m v

-- Whoever is joined is a member, and who was one stays one.
pub is_member-join_match :
    (m u : ℕ) (h : Hub)
    → HasDistinctUsers h.matches
    → HasDistinctUsers (join_match m u h).matches
      × (is_member m u (join_match m u h) ≡ true)
      × ((v : ℕ) → is_member m v h ≡ true → is_member m v (join_match m u h) ≡ true)
is_member-join_match m u h d =
    let (kept, members) = join_match_lem m u h d in
    (
      kept,
      ground (arith, members m u, beq_self m, beq_self u),
      λ v old. ground (arith, members m v, old),
    )
