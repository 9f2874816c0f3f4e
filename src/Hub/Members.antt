-- ===== src/Hub/Members.antt =====
-- Who is in a match: `JoinMatch`, `LeaveMatch` and the clean-up of `UnregisterConnection`.
use quiz.Prelude.{
  ℕ, ◌≡◌, refl, Bool, false, ◌&&◌, ◌||◌, not, none, some, List, [], ◌∷◌, ◌++◌, arith, ◌==◌, nat_eq,
  All, Map, lookup, lookup-All, lookup-insert, insert, insert-All, contains, Distinct, Option-cases,
  Bool-cases, inl, inr, if◌then◌else◌,
}
use quiz.Hub.{
  Hub, match_users, join_match, leave_match, remove_first, remove_from_all, unregister_connection,
}

-- Every match lists a user at most once.
abbrev pub HasDistinctUsers : Map ℕ (List ℕ) → Type 0
HasDistinctUsers matches = All (λ e. Distinct e.1) matches

contains-append : (v u : ℕ) (us : List ℕ) → contains v (us ++ u ∷ []) ≡ contains v us || (u == v)
contains-append v u [] = ground arith
contains-append v u (x ∷ us) = ground (arith, contains-append v u us)

Distinct-append :
    (u : ℕ) (us : List ℕ) → Distinct us → contains u us ≡ false → Distinct (us ++ u ∷ [])
Distinct-append u [] d h = (refl, tt)
Distinct-append u (x ∷ us) d h =
    (ground (arith, contains-append x u us), Distinct-append u us d.1 (ground arith))

contains-remove_first :
    (v u : ℕ) (us : List ℕ)
    → Distinct us
    → contains v (remove_first u us) ≡ contains v us && not (u == v)
unfolding remove_first
contains-remove_first v u [] d = refl
contains-remove_first v u (x ∷ us) d = ground (arith, contains-remove_first v u us d.1)

remove_first-Distinct : (u : ℕ) (us : List ℕ) → Distinct us → Distinct (remove_first u us)
unfolding remove_first
remove_first-Distinct u [] d = tt
remove_first-Distinct u (x ∷ us) d =
    ground (arith, remove_first-Distinct u us d.1, contains-remove_first x u us d.1)

pub match_users-Distinct :
    (match_id : ℕ) (h : Hub) → HasDistinctUsers h.matches → Distinct (match_users match_id h)
unfolding match_users
match_users-Distinct match_id h d = elim (Option-cases (lookup match_id h.matches)) [
  | inl e ↦ rw (e, match_users) tt
  | inr (users, e) ↦
      rw (e, match_users) (lookup-All (λ p. Distinct p.1) match_id h.matches users d e)
]

-- Whether a user is in a match.
abbrev pub is_member : ℕ → ℕ → Hub → Bool
is_member match_id user_id h = contains user_id (match_users match_id h)

match_users-insert :
    (match_id m : ℕ) (users : List ℕ) (h : Hub)
    → match_users m (record h { matches = insert match_id users h.matches })
      ≡ (if match_id == m then users else match_users m h)
unfolding match_users
match_users-insert match_id m users h = ground (arith, lookup-insert match_id m users h.matches)

-- If no match lists a user twice, `JoinMatch` makes the user a member of the match, changes no
-- other membership, and keeps every match free of duplicates.
pub join_match_lem :
    (match_id user_id : ℕ) (h : Hub)
    → HasDistinctUsers h.matches
    → HasDistinctUsers (join_match match_id user_id h).matches
      × ((m v : ℕ)
          → is_member m v (join_match match_id user_id h)
            ≡ (is_member m v h || ((match_id == m) && (user_id == v))))
unfolding join_match
join_match_lem match_id user_id h d =
    let users = match_users match_id h in
    let longer = users ++ user_id ∷ [] in
    elim (Bool-cases (contains user_id users)) [
      | inl old ↦ (rw old d, λ m v. ground arith)
      | inr new ↦ (
        rw new (
            insert-All (λ p. Distinct p.1) match_id longer h.matches d
              (Distinct-append user_id users (match_users-Distinct match_id h d) new)),
        λ m v.
            ground (arith, match_users-insert match_id m longer h, contains-append v user_id users),
      )
    ]

-- If no match lists a user twice, `LeaveMatch` takes the user out of the match, changes no other
-- membership, and keeps every match free of duplicates.
pub leave_match_lem :
    (match_id user_id : ℕ) (h : Hub)
    → HasDistinctUsers h.matches
    → HasDistinctUsers (leave_match match_id user_id h).matches
      × ((m v : ℕ)
          → is_member m v (leave_match match_id user_id h)
            ≡ (is_member m v h && not ((match_id == m) && (user_id == v))))
unfolding leave_match
leave_match_lem match_id user_id h d =
    let users = match_users match_id h in
    let fewer = remove_first user_id users in
    let apart = match_users-Distinct match_id h d in
    elim (Bool-cases (contains user_id users)) [
      | inl old ↦ (
        rw old (
            insert-All (λ p. Distinct p.1) match_id fewer h.matches d
              (remove_first-Distinct user_id users apart)),
        λ m v. ground (
          arith,
          match_users-insert match_id m fewer h,
          contains-remove_first v user_id users apart,
        ),
      )
      | inr absent ↦ (rw absent d, λ m v. ground arith)
    ]

remove_from_all-Distinct :
    (u : ℕ) (m : Map ℕ (List ℕ)) → HasDistinctUsers m → HasDistinctUsers (remove_from_all u m)
unfolding remove_from_all
remove_from_all-Distinct u [] d = tt
remove_from_all-Distinct u ((i, users) ∷ m) d =
    (remove_first-Distinct u users d.0, remove_from_all-Distinct u m d.1)

lookup-remove_from_all :
    (u i : ℕ) (m : Map ℕ (List ℕ))
    → lookup i (remove_from_all u m)
      ≡ (elim (lookup i m) [ none ↦ none | some users ↦ some (remove_first u users) ])
unfolding remove_from_all
lookup-remove_from_all u i [] = refl
lookup-remove_from_all u i ((k, users) ∷ m) = ground (arith, lookup-remove_from_all u i m)

-- If no match lists a user twice, `UnregisterConnection` takes the user out of every match, changes
-- no membership of another, and keeps every match free of duplicates.
pub unregister_connection_matches :
    (user_id : ℕ) (h : Hub)
    → HasDistinctUsers h.matches
    → HasDistinctUsers (unregister_connection user_id h).matches
      × ((m v : ℕ)
          → is_member m v (unregister_connection user_id h)
            ≡ (is_member m v h && not (user_id == v)))
unfolding unregister_connection match_users
unregister_connection_matches user_id h d = (
  remove_from_all-Distinct user_id h.matches d,
  λ m v. elim (Option-cases (lookup m h.matches)) [
    | inl e ↦ ground (arith, lookup-remove_from_all user_id m h.matches)
    | inr (users, e) ↦ ground (
      arith,
      lookup-remove_from_all user_id m h.matches,
      contains-remove_first v user_id users (lookup-All (λ p. Distinct p.1) m h.matches users d e),
    )
  ],
)
