-- ===== src/Udp/Tracker/Served.antt =====
-- Every datagram is served: no panic, at most one answer, a sound database.
use trakx.Common.{
  ℕ, zero, suc, ◌-◌, ◌*◌, ◌/◌, ◌≤◌, ◌≡◌, refl, subst, false, length, length-drop, length-take_of_le,
  take, drop, leb, ltb, ◌==◌, Bool-cases, Option-cases, inl, inr, arith, le→leb,
}
use trakx.Common.Bytes.{Bytes, of_be}
use trakx.Common.Outcome.{
  Result, ok, err, panic, ◌>>=◌, read, read_be, split_result, is_ok, is_err, is_panic,
}
use trakx.Storage.Types.{addr_from_slice}
use trakx.Stats.{incr64}
use trakx.Udp.ConnDb.{AddrPort}
use trakx.Udp.Protocol.Types.{action_connect, action_announce, action_scrape, action_heartbeat}
use trakx.Udp.Protocol.Connect.{Connect}
use trakx.Udp.Protocol.Connect
use trakx.Udp.Protocol.Announce.{Announce}
use trakx.Udp.Protocol.Announce
use trakx.Udp.Protocol.Scrape
use trakx.Udp.Tracker.Handlers.{Config, Env, UdpTracker}
use trakx.Udp.Tracker.Process.{
  Remote, addr_port, count_request, zero_announce, action_of, txid_of, process_connect,
  process_announce, process_scrape, is_refused, process, serve,
}
use trakx.Storage.Sound.{IsSound, recounted}
use trakx.Udp.Tracker.Kept.{
  IsServed, server_error-IsSound, refuse-IsServed, connect-IsServed, announce-IsServed,
  scrape-IsServed,
}

read_long : (n : ℕ) (b : Bytes) → n ≤ length b → read n b ≡ ok (take n b, drop n b)
unfolding read
read_long n b h = rw (le→leb n (length b) h)

read_be_long : (n : ℕ) (b : Bytes) → n ≤ length b → read_be n b ≡ ok (of_be (take n b), drop n b)
unfolding read_be
read_be_long n b h = rw (read_long n b h)

-- A connect of at least 16 bytes is read.
pub unmarshall-connect_long :
    (d : Bytes)
    → 16 ≤ length d
    → Connect.unmarshall d
      ≡ ok (record {
        protocol_id = of_be (take 8 (take 16 d));
        action = of_be (take 4 (drop 8 (take 16 d)));
        transaction_id = of_be (take 4 (drop 4 (drop 8 (take 16 d))));
      })
unfolding Connect.unmarshall
unmarshall-connect_long d h =
    let b = take 16 d in
    let n = length-take_of_le 16 d h in
    let n1 = length-drop 8 b in
    let n2 = length-drop 4 (drop 8 b) in
    rw (read_long 16 d h) (
      rw (read_be_long 8 b (omega (arith, n))) (
        rw (read_be_long 4 (drop 8 b) (omega (arith, n, n1)))
          (rw (read_be_long 4 (drop 4 (drop 8 b)) (omega (arith, n, n1, n2))))))

-- Reading never panics.
abbrev IsCalm : {A : Type 0} → Result A → Type 0
IsCalm panic = ⊥
IsCalm _ = Unit

read-IsCalm : (n : ℕ) (b : Bytes) → IsCalm (read n b)
unfolding read
read-IsCalm n b = elim (Bool-cases (leb n (length b))) [ inl e ↦ rw e tt | inr e ↦ rw e tt ]

bind-IsCalm :
    {A B : Type 0} (r : Result A) (f : A → Result B)
    → IsCalm r
    → ((a : A) → IsCalm (f a))
    → IsCalm (r >>= f)
bind-IsCalm (ok a) f h k = k a
bind-IsCalm (err e) f h k = tt
bind-IsCalm panic f h k = h

read_be-IsCalm : (n : ℕ) (b : Bytes) → IsCalm (read_be n b)
unfolding read_be
read_be-IsCalm n b = bind-IsCalm (read n b) _ (read-IsCalm n b) (λ a. tt)

then_read :
    {B : Type 0} (n : ℕ) (b : Bytes) (f : Bytes × Bytes → Result B)
    → ((a c : Bytes) → IsCalm (f (a, c)))
    → IsCalm (read n b >>= f)
then_read n b f k = bind-IsCalm (read n b) f (read-IsCalm n b) (λ (a, c). k a c)

then_read_be :
    {B : Type 0} (n : ℕ) (b : Bytes) (f : ℕ × Bytes → Result B)
    → ((a : ℕ) (c : Bytes) → IsCalm (f (a, c)))
    → IsCalm (read_be n b >>= f)
then_read_be n b f k = bind-IsCalm (read_be n b) f (read_be-IsCalm n b) (λ (a, c). k a c)

decode-IsCalm : (b : Bytes) → IsCalm (Announce.decode b)
unfolding Announce.decode
decode-IsCalm b = then_read_be 8 b _ λ x1 b1. then_read_be 4 b1 _ λ x2 b2.
    then_read_be 4 b2 _ λ x3 b3. then_read 20 b3 _ λ x4 b4. then_read 20 b4 _ λ x5 b5.
      then_read_be 8 b5 _ λ x6 b6. then_read_be 8 b6 _ λ x7 b7. then_read_be 8 b7 _ λ x8 b8.
        then_read_be 4 b8 _ λ x9 b9. then_read_be 4 b9 _ λ x10 b10.
          then_read_be 4 b10 _
            λ x11 b11. then_read_be 4 b11 _ λ x12 b12. then_read_be 2 b12 _ λ x13 b13. tt

unmarshall_announce-IsCalm : (a : Announce) (b : Bytes) → IsCalm (Announce.unmarshall a b)
unfolding Announce.unmarshall
unmarshall_announce-IsCalm a b =
    let calm = then_read 98 b (λ r. Announce.decode r.0) (λ x y. decode-IsCalm x) in
    elim (split_result (read 98 b >>= λ r. Announce.decode r.0)) [
      | is_ok x e ↦ rw (e, Announce.unmarshall) tt
      | is_err x e ↦ rw (e, Announce.unmarshall) tt
      | is_panic e ↦ absurd (subst IsCalm e calm)
    ]

decode_hashes-IsCalm : (n : ℕ) (b : Bytes) → IsCalm (Scrape.decode_hashes n b)
unfolding Scrape.decode_hashes
decode_hashes-IsCalm zero b = tt
decode_hashes-IsCalm (suc n) b = then_read 20 b _ λ hash rest.
    bind-IsCalm (Scrape.decode_hashes n rest) _ (decode_hashes-IsCalm n rest) (λ hs. tt)

unmarshall_scrape-IsCalm : (b : Bytes) → IsCalm (Scrape.unmarshall b)
unfolding Scrape.unmarshall Scrape.decode
unmarshall_scrape-IsCalm b =
    let n = (length b - 16) / 20 in
    then_read_be 8 b _ λ x1 b1. then_read_be 4 b1 _ λ x2 b2. then_read_be 4 b2 _ λ x3 b3.
      then_read (20 * n) b3 _
        λ x4 b4. bind-IsCalm (Scrape.decode_hashes n x4) _ (decode_hashes-IsCalm n x4) (λ hs. tt)

count_request-IsSound :
    (remote : Remote) (txid : ℕ) (u : UdpTracker)
    → IsSound u.peerdb
    → IsSound (count_request remote txid u).peerdb
unfolding count_request
count_request-IsSound remote txid u s =
    let s' =
      recounted u.peerdb (record (u.peerdb.stats) { hits = incr64 u.peerdb.stats.hits }) refl refl
        refl s in
    elim (Option-cases (addr_from_slice remote.ip)) [
      | inl e ↦ rw (e, count_request) (server_error-IsSound txid _ s')
      | inr (a, e) ↦ rw (e, count_request) s'
    ]

module _ (config : Config) (env : Env) (room4 : 6 ≤ length env.peers4.array)
    (room6 : 18 ≤ length env.peers6.array) where
  process_announce-IsServed :
      (d : Bytes) (addr : AddrPort) (u : UdpTracker)
      → IsSound u.peerdb
      → IsServed 1 (process_announce false config env d addr u)
  unfolding process_announce
  process_announce-IsServed d addr u s = elim (Bool-cases (ltb (length d) 98)) [
    | inl e ↦ rw e (refuse-IsServed _ (txid_of d) u s)
    | inr e ↦ rw e (elim (split_result (Announce.unmarshall zero_announce d)) [
      | is_ok a f ↦ rw f (announce-IsServed config env room4 room6 a addr u s)
      | is_err x f ↦ rw f (unfold IsServed in (server_error-IsSound (txid_of d) u s, omega arith))
      | is_panic f ↦ absurd (subst IsCalm f (unmarshall_announce-IsCalm zero_announce d))
    ])
  ]

  process_scrape-IsServed :
      (d : Bytes) (u : UdpTracker)
      → IsSound u.peerdb
      → IsServed 1 (process_scrape false config env d u)
  unfolding process_scrape
  process_scrape-IsServed d u s = elim (split_result (Scrape.unmarshall d)) [
    | is_ok sc f ↦ rw (f, process_scrape) (scrape-IsServed sc u s)
    | is_err x f ↦
        rw (f, process_scrape)
          (unfold IsServed in (server_error-IsSound (txid_of d) u s, omega arith))
    | is_panic f ↦ absurd (subst IsCalm f (unmarshall_scrape-IsCalm d))
  ]

  process_connect-IsServed :
      (d : Bytes) (addr : AddrPort) (u : UdpTracker)
      → 16 ≤ length d
      → IsSound u.peerdb
      → IsServed 1 (process_connect false config env d addr u)
  unfolding process_connect
  process_connect-IsServed d addr u h s =
      rw (unmarshall-connect_long d h, process_connect) (connect-IsServed env _ addr u s)

  process-IsServed :
      (d : Bytes) (remote : Remote) (u : UdpTracker)
      → 16 ≤ length d
      → IsSound u.peerdb
      → IsServed 1 (process false config env d remote u)
  unfolding process
  process-IsServed d remote u0 h s0 =
      let addr = addr_port remote in
      let u = count_request remote (txid_of d) u0 in
      let s = count_request-IsSound remote (txid_of d) u0 s0 in
      elim (Bool-cases (ltb action_heartbeat (action_of d))) [
        | inl e ↦ rw e (refuse-IsServed _ (txid_of d) u s)
        | inr e1 ↦ rw e1 (elim (Bool-cases (action_of d == action_heartbeat)) [
          | inl e ↦ rw e (unfold IsServed in (s, omega arith))
          | inr e2 ↦ rw e2 (elim (Bool-cases (action_of d == action_connect)) [
            | inl e ↦ rw e (process_connect-IsServed d addr u h s)
            | inr e3 ↦ rw e3 (elim (Bool-cases (is_refused false config env d addr u)) [
              | inl e ↦ rw e (refuse-IsServed _ (txid_of d) u s)
              | inr e4 ↦ rw e4 (elim (Bool-cases (action_of d == action_announce)) [
                | inl e ↦ rw e (process_announce-IsServed d addr u s)
                | inr e5 ↦ rw e5 (elim (Bool-cases (action_of d == action_scrape)) [
                  | inl e ↦ rw e (process_scrape-IsServed d u s)
                  | inr e ↦ rw e (unfold IsServed in (s, omega arith))
                ])
              ])
            ])
          ])
        ])
      ]

  -- Whatever datagram comes from wherever, it is served with no panic and at most one answer, and
  -- leaves the database valid and in step with the global counters. This holds in the build without
  -- the tag `fast`, if the database was so before and the buffers that the pools hand out have room
  -- for one peer.
  pub serve-IsServed :
      (d : Bytes) (remote : Remote) (u : UdpTracker)
      → IsSound u.peerdb
      → IsServed 1 (serve false config env d remote u)
  unfolding serve
  serve-IsServed d remote u s = elim (Bool-cases (ltb 15 (length d))) [
    | inl e ↦ rw e (process-IsServed d remote u (ground arith) s)
    | inr e ↦ rw e (unfold IsServed in (s, omega arith))
  ]
