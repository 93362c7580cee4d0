-- ===== src/Udp/Tracker/Loop.antt =====
-- The loop of a goroutine of `Serve` in tracker/udp/udptracker.go, over what the socket gives.
use trakx.Common.{ℕ, ◌+◌, ◌≤◌, Bool, false, List, [], ◌∷◌, ◌++◌, length, length-append, All, arith}
use trakx.Common.Bytes.{Bytes}
use trakx.Common.Outcome.{Result, ok, err, panic, ◌>>=◌}
use trakx.Storage.Sound.{IsSound}
use trakx.Udp.Tracker.Handlers.{Config, Env, UdpTracker}
use trakx.Udp.Tracker.Process.{Remote, serve}
use trakx.Udp.Tracker.Kept.{IsServed}
use trakx.Udp.Tracker.Served.{serve-IsServed}

-- What `ReadFromUDP` returns: the socket is closed, another error, or a datagram.
pub data Received : Type 0 where
  closed : Received
  failed : Received
  datagram : (env : Env) → (d : Bytes) → (remote : Remote) → Received

module _ (fast : Bool) (config : Config) where
  -- What is sent, in order. The list may end before the socket is closed: then the goroutine waits.
  unfoldable pub loop : List Received → UdpTracker → Result (UdpTracker × List Bytes)
  loop [] u = ok (u, [])
  loop (closed ∷ rest) u = ok (u, [])
  loop (failed ∷ rest) u = loop rest u
  loop (datagram env d remote ∷ rest) u = do
    (u', sent) ← serve fast config env d remote u
    (u'', others) ← loop rest u'
    ok (u'', sent ++ others)

-- The datagrams that come before the socket is closed.
abbrev pub read_count : List Received → ℕ
read_count [] = 0
read_count (closed ∷ rest) = 0
read_count (failed ∷ rest) = read_count rest
read_count (datagram env d remote ∷ rest) = read_count rest + 1

-- The buffers that the pools hand out have room for one peer.
unfoldable pub HasRoom : Received → Type 0
HasRoom (datagram env d remote) = (6 ≤ length env.peers4.array) × (18 ≤ length env.peers6.array)
HasRoom closed = Unit
HasRoom failed = Unit

more-IsServed :
    (n : ℕ) (sent : List Bytes) (r : Result (UdpTracker × List Bytes))
    → length sent ≤ 1
    → IsServed n r
    → IsServed (n + 1) (do (u, others) ← r; ok (u, sent ++ others))
unfolding IsServed
more-IsServed n sent (ok (u, others)) h (sound, l) =
    (sound, omega (arith, h, l, length-append sent others))
more-IsServed n sent (err e) h k = elim k [ ]
more-IsServed n sent panic h k = elim k [ ]

then-IsServed :
    (n : ℕ) (r : Result (UdpTracker × List Bytes))
    (f : UdpTracker → Result (UdpTracker × List Bytes))
    → IsServed 1 r
    → ((u : UdpTracker) → IsSound u.peerdb → IsServed n (f u))
    → IsServed (n + 1) (do (u, sent) ← r; (u', others) ← f u; ok (u', sent ++ others))
unfolding IsServed
then-IsServed n (ok (u, sent)) f (sound, h) k = more-IsServed n sent (f u) h (k u sound)
then-IsServed n (err e) f h k = elim h [ ]
then-IsServed n panic f h k = elim h [ ]

-- Whatever datagrams come from wherever, with errors of the socket between them, a goroutine
-- serves them with no panic and sends at most as many answers as datagrams came before the socket was
-- closed, and leaves the database valid and in step with the global counters. This holds in the build without
-- the tag `fast`, if the database was so before and the buffers that the pools hand out have room
-- for one peer.
pub loop-IsServed :
    (config : Config) (rest : List Received) (u : UdpTracker)
    → All HasRoom rest
    → IsSound u.peerdb
    → IsServed (read_count rest) (loop false config rest u)
unfolding loop HasRoom
loop-IsServed config [] u r h = unfold IsServed in (h, omega arith)
loop-IsServed config (closed ∷ rest) u r h = unfold IsServed in (h, omega arith)
loop-IsServed config (failed ∷ rest) u (r, rs) h = loop-IsServed config rest u rs h
loop-IsServed config (datagram env d remote ∷ rest) u ((room4, room6), rs) h =
    then-IsServed (read_count rest) _ (loop false config rest)
      (serve-IsServed config env room4 room6 d remote u h)
      (λ u' sound. loop-IsServed config rest u' rs sound)
