-- ===== src/Hub/Connections.antt =====
-- The connections of a hub: none of them is closed, no two users share one, no queue overflows.
use native.Mathlib.Nat.{le_trans}
use quiz.Prelude.{
  ℕ, ◌≤◌, ◌≡◌, refl, ap, false, List, [], ◌∷◌, arith, nat_eq, Map, lookup, erase, contains,
  Distinct, Option-cases, erase-All, nat_beq_iff, inl, inr, length, length-append,
}
use quiz.Hub.{
  Hub, Connection, queue_capacity, conn_send, conn_close, conn_next, write, register_connection,
  unregister_connection, drop_connection, send_at,
}
use quiz.Hub.Addresses.{
  addresses, AllOpen, lookup-contains, insert-separate, erase-separate, write-AllOpen,
  insert-AllOpen, insert-AllOpen_new, erased-address,
}

pub record IsHub (h : Hub) : Type 0 where
  pub opened : AllOpen h.heap h.connections
  pub separate : Distinct (addresses h.connections)
  pub bounded : (a : ℕ) → length (h.heap a).send_ch ≤ queue_capacity

write-bounded :
    (heap : ℕ → Connection) (a : ℕ) (c : Connection)
    → length c.send_ch ≤ queue_capacity
    → ((b : ℕ) → length (heap b).send_ch ≤ queue_capacity)
    → (b : ℕ) → length (write heap a c b).send_ch ≤ queue_capacity
write-bounded heap a c h all b = ground (arith, all b)

conn_close-send_ch : (c : Connection) → (conn_close c).send_ch ≡ c.send_ch
unfolding conn_close
conn_close-send_ch c = ground arith

-- A connection that no user has: what `NewConnection` returns.
abbrev pub IsFresh : ℕ → Hub → Type 0
IsFresh conn h = (contains conn (addresses h.connections) ≡ false) × ((h.heap conn).closed ≡ false)

close-bounded :
    (h : Hub) (a : ℕ)
    → IsHub h
    → (b : ℕ) → length (write h.heap a (conn_close (h.heap a)) b).send_ch ≤ queue_capacity
close-bounded h a v =
    write-bounded h.heap a (conn_close (h.heap a))
      (rw (conn_close-send_ch (h.heap a)) (v.bounded a)) v.bounded

pub register_connection-IsHub :
    (user_id conn : ℕ) (h : Hub)
    → IsFresh conn h
    → IsHub h
    → IsHub (register_connection user_id conn h)
unfolding register_connection
register_connection-IsHub user_id conn h fresh v =
    elim (Option-cases (lookup user_id h.connections)) [
      | inl new ↦
          rw (new, register_connection)
            (record {
              opened = insert-AllOpen_new h.heap user_id conn h.connections fresh.1 v.opened;
              separate = insert-separate user_id conn h.connections fresh.0 v.separate;
              bounded = v.bounded;
            })
      | inr (old, e) ↦
          rw (e, register_connection)
            (record {
              opened =
                  insert-AllOpen h.heap user_id old conn (conn_close (h.heap old)) h.connections e
                    v.separate (ground (arith, lookup-contains user_id old h.connections)) fresh.1
                    v.opened;
              separate = insert-separate user_id conn h.connections fresh.0 v.separate;
              bounded = close-bounded h old v;
            })
    ]

drop_connection-IsHub : (user_id : ℕ) (h : Hub) → IsHub h → IsHub (drop_connection user_id h)
unfolding drop_connection
drop_connection-IsHub user_id h v = elim (Option-cases (lookup user_id h.connections)) [
  | inl none_yet ↦ rw (none_yet, drop_connection) v
  | inr (conn, e) ↦
      rw (e, drop_connection)
        (record {
          opened =
              write-AllOpen h.heap conn (conn_close (h.heap conn)) (erase user_id h.connections)
                (erased-address user_id conn h.connections e v.separate)
                (erase-All (λ p. (h.heap p.1).closed ≡ false) user_id h.connections v.opened);
          separate = erase-separate user_id h.connections v.separate;
          bounded = close-bounded h conn v;
        })
]

pub unregister_connection-IsHub :
    (user_id : ℕ) (h : Hub) → IsHub h → IsHub (unregister_connection user_id h)
unfolding unregister_connection
unregister_connection-IsHub user_id h v =
    let w = drop_connection-IsHub user_id h v in
    record { opened = w.opened; separate = w.separate; bounded = w.bounded }

conn_send-bounded :
    (c : Connection) (msg : ℕ)
    → length c.send_ch ≤ queue_capacity
    → length (conn_send c msg).1.send_ch ≤ queue_capacity
unfolding conn_send
conn_send-bounded c msg h = ground (arith, length-append c.send_ch (msg ∷ []))

conn_send-closed : (c : Connection) (msg : ℕ) → (conn_send c msg).1.closed ≡ c.closed
unfolding conn_send
conn_send-closed c msg = ground arith

write_same-AllOpen :
    (heap : ℕ → Connection) (a : ℕ) (c : Connection) (m : Map ℕ ℕ)
    → c.closed ≡ (heap a).closed
    → AllOpen heap m
    → AllOpen (write heap a c) m
write_same-AllOpen heap a c [] e o = tt
write_same-AllOpen heap a c ((j, w) ∷ m) e o = (
  ground (arith, nat_beq_iff a w, ap (λ b. (heap b).closed)),
  write_same-AllOpen heap a c m e o.1,
)

pub send_at-IsHub : (a msg : ℕ) (h : Hub) → IsHub h → IsHub (send_at a msg h).1
unfolding send_at
send_at-IsHub a msg h v = record {
  opened =
      write_same-AllOpen h.heap a (conn_send (h.heap a) msg).1 h.connections
        (conn_send-closed (h.heap a) msg) v.opened;
  separate = v.separate;
  bounded =
      write-bounded h.heap a (conn_send (h.heap a) msg).1
        (conn_send-bounded (h.heap a) msg (v.bounded a)) v.bounded;
}

conn_next-closed : (c : Connection) → (conn_next c).1.closed ≡ c.closed
unfolding conn_next
conn_next-closed c = ground arith

conn_next-shorter : (c : Connection) → length (conn_next c).1.send_ch ≤ length c.send_ch
unfolding conn_next
conn_next-shorter c = go c c.send_ch refl
  where
    go :
        (d : Connection) (l : List ℕ)
        → d.send_ch ≡ l
        → length (conn_next d).1.send_ch ≤ length d.send_ch
    go d [] e = ground arith
    go d (x ∷ xs) e = ground arith

pub conn_next-IsHub :
    (a : ℕ) (h : Hub)
    → IsHub h
    → IsHub (record h { heap = write h.heap a (conn_next (h.heap a)).1 })
conn_next-IsHub a h v = record {
  opened =
      write_same-AllOpen h.heap a (conn_next (h.heap a)).1 h.connections
        (conn_next-closed (h.heap a)) v.opened;
  separate = v.separate;
  bounded =
      write-bounded h.heap a (conn_next (h.heap a)).1
        (le_trans (conn_next-shorter (h.heap a)) (v.bounded a)) v.bounded;
}
