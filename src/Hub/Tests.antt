-- ===== src/Hub/Tests.antt =====
-- The hub of pkg/http/ws/hub.go on small inputs.
use quiz.Prelude.{◌≡◌, refl, arith, true, false, none, some, [], ◌∷◌, err, if◌then◌else◌, nat_eq}
use quiz.Hub.{
  Hub, new_hub, new_connection, conn_send, register_connection, unregister_connection, match_users,
  join_match, send_to_user, broadcast_to_match, broadcast_all, get_connection, connection_not_found,
  connection_closed,
}
use quiz.Hub.Members.{HasDistinctUsers}
use quiz.Hub.Connections.{IsHub}
use quiz.Hub.Delivery.{reaches, broadcast_to_match_lem, reconnect_drops}
use quiz.Hub.History.{IsValid, Reach, here, next, registers, joins, sends, Reach-IsValid}

-- Two users with connections, both in match 5; user 3 is in the match without a connection.
abbrev two_users : Hub
two_users = record {
  connections = (1, 10) ∷ (2, 20) ∷ [];
  matches = (5, 1 ∷ 2 ∷ 3 ∷ []) ∷ [];
  heap = λ a. record { send_ch = []; closed = false };
}

two_users-IsHub : IsHub two_users
two_users-IsHub = record {
  opened = (refl, (refl, tt));
  separate = (refl, (refl, tt));
  bounded = λ a. omega arith;
}

two_users-HasDistinctUsers : HasDistinctUsers two_users.matches
two_users-HasDistinctUsers = ((refl, (refl, (refl, tt))), tt)

members-Distinct : match_users 5 two_users ≡ 1 ∷ 2 ∷ 3 ∷ []
unfolding match_users
members-Distinct = refl

broadcast_to_match_lem_example :
    let after = (broadcast_to_match 5 99 two_users).1 in
    (after.connections ≡ two_users.connections)
    × (after.heap 20 ≡ (
        if reaches (match_users 5 two_users) two_users.connections 20
        then (conn_send (two_users.heap 20) 99).1
        else two_users.heap 20))
broadcast_to_match_lem_example =
    broadcast_to_match_lem 5 99 two_users 20 two_users-IsHub
      (rw members-Distinct (refl, (refl, (refl, tt))))

-- The message is queued for both, and the missing connection is the first error.
broadcasts :
    broadcast_to_match 5 99 two_users
    ≡ (err connection_not_found, (broadcast_to_match 5 99 two_users).1)
unfolding broadcast_to_match
broadcasts = refl

delivered : (((broadcast_to_match 5 99 two_users).1.heap 20).send_ch) ≡ 99 ∷ []
unfolding broadcast_to_match
delivered = refl

delivered_all : (((broadcast_all two_users.connections 99 two_users).1.heap 10).send_ch) ≡ 99 ∷ []
unfolding broadcast_all
delivered_all = refl

refuses : (conn_send (record { send_ch = []; closed = true }) 1).0 ≡ err connection_closed
unfolding conn_send
refuses = refl

reconnect_drops_example :
    let h' = register_connection 7 71 (register_connection 7 70 two_users) in
    (get_connection 7 h' ≡ some 71)
    × (get_connection 7 (unregister_connection 7 h') ≡ none)
    × (((unregister_connection 7 h').heap 71).closed ≡ true)
reconnect_drops_example = reconnect_drops 7 70 71 two_users

abbrev used_hub : Hub
used_hub = (send_to_user 1 99 (join_match 5 1 (register_connection 1 10 new_hub))).1

used_hub-Reach : Reach new_hub used_hub
unfolding new_hub new_connection
used_hub-Reach = next (next (next here (registers 1 10 (refl, refl))) (joins 5 1)) (sends 1 99)

Reach-IsValid_example : IsValid used_hub
Reach-IsValid_example = Reach-IsValid used_hub-Reach
