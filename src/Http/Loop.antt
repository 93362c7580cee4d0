-- ===== src/Http/Loop.antt =====
-- The loop of `work` in tracker/http/worker.go, over what the listener and the connections give.
use trakx.Common.{
  ℕ, ◌+◌, ◌≤◌, ◌<◌, ◌≡◌, refl, Bool, false, List, [], ◌∷◌, ◌++◌, length, length-append, drop, All,
  arith,
}
use trakx.Common.Bytes.{Bytes}
use trakx.Common.Outcome.{Result, ok, err, panic, ◌>>=◌}
use trakx.Stats.{incr64}
use trakx.Storage.Memory.{Store}
use trakx.Storage.Sound.{IsSound, recounted}
use trakx.Http.Announce.{Config, Env}
use trakx.Http.Reply.{count_stats}
use trakx.Http.Served.{IsAnswered, work-IsAnswered}
use trakx.Http.Worker.{Outside, work}

-- What `Accept` returns, and then `Read`: the listener is closed, another error, a connection
-- that cannot be read, or one that is. `left` is what the buffer held before this `Read`, which earlier
-- requests have put there and changed in place; `bytes` are what `Read` has put into it.
pub data Accepted : Type 0 where
  closed failed unread : Accepted
  received : (env : Env) → (left bytes : Bytes) → (host : Bytes) → Accepted

-- The buffer of a worker: what is read goes over what is there.
abbrev pub overwrite : Bytes → Bytes → Bytes
overwrite bytes left = bytes ++ drop (length bytes) left

module _ (out : Outside) (fast : Bool) (config : Config) (file_cache : List (Bytes × Bytes)) where
  -- What is written to each connection that was read. The list may end before the listener is closed: then the
  -- worker waits.
  unfoldable pub loop : List Accepted → Store → Result (Store × List (List Bytes))
  loop [] s = ok (s, [])
  loop (closed ∷ rest) s = ok (s, [])
  loop (failed ∷ rest) s =
      loop rest (count_stats (λ st. record st { server_errors = incr64 st.server_errors }) s)
  loop (unread ∷ rest) s = loop rest s
  loop (received env left bytes host ∷ rest) s = do
    (s', written) ← work out fast config env file_cache (overwrite bytes left) (length bytes) host s
    (s'', others) ← loop rest s'
    ok (s'', written ∷ others)

-- The connections that are read before the listener is closed.
abbrev pub read_count : List Accepted → ℕ
read_count [] = 0
read_count (closed ∷ rest) = 0
read_count (failed ∷ rest) = read_count rest
read_count (unread ∷ rest) = read_count rest
read_count (received env left bytes host ∷ rest) = read_count rest + 1

-- The buffers that the pools hand out have room for one peer.
unfoldable pub HasRoom : Accepted → Type 0
HasRoom (received env left bytes host) =
    (6 ≤ length env.peers4.array) × (18 ≤ length env.peers6.array)
HasRoom closed = Unit
HasRoom failed = Unit
HasRoom unread = Unit

-- A run ends with no panic, a sound database, and an answer to each of `n` connections.
unfoldable pub IsServing : ℕ → Result (Store × List (List Bytes)) → Type 0
IsServing n (ok (s, outs)) =
    IsSound s × (length outs ≡ n) × All (λ written. 0 < length written) outs
IsServing n (err e) = ⊥
IsServing n panic = ⊥

more-IsServing :
    (n : ℕ) (written : List Bytes) (r : Result (Store × List (List Bytes)))
    → 0 < length written
    → IsServing n r
    → IsServing (n + 1) (do (s', others) ← r; ok (s', written ∷ others))
unfolding IsServing
more-IsServing n written (ok (s', others)) h (sound, l, all) = (sound, omega (arith, l), (h, all))
more-IsServing n written (err e) h k = elim k [ ]
more-IsServing n written panic h k = elim k [ ]

then-IsServing :
    (n : ℕ) (r : Result (Store × List Bytes)) (f : Store → Result (Store × List (List Bytes)))
    → IsAnswered r
    → ((s : Store) → IsSound s → IsServing n (f s))
    → IsServing (n + 1) (do (s, written) ← r; (s', others) ← f s; ok (s', written ∷ others))
unfolding IsAnswered
then-IsServing n (ok (s, written)) f (sound, h) k = more-IsServing n written (f s) h (k s sound)
then-IsServing n (err e) f h k = elim h [ ]
then-IsServing n panic f h k = elim h [ ]

module _ (out : Outside) (config : Config) (file_cache : List (Bytes × Bytes)) where
  -- Whatever connections a worker accepts, whatever they send, and whichever of them cannot be read, it
  -- does not panic, writes an answer to each connection that it reads before the listener is
  -- closed, and leaves the database valid and in step with the global counters. This holds in the
  -- builds without the tags `fast` and `heroku`, if the database was so before and the buffers that the
  -- pools hand out have room for one peer, and whatever the buffer held before a request was read.
  pub loop-IsServing :
      (rest : List Accepted) (s : Store)
      → All HasRoom rest
      → IsSound s
      → IsServing (read_count rest) (loop out false config file_cache rest s)
  unfolding loop HasRoom
  loop-IsServing [] s r h = unfold IsServing in (h, refl, tt)
  loop-IsServing (closed ∷ rest) s r h = unfold IsServing in (h, refl, tt)
  loop-IsServing (failed ∷ rest) s (r, rs) h =
      loop-IsServing rest _ rs (recounted s _ refl refl refl h)
  loop-IsServing (unread ∷ rest) s (r, rs) h = loop-IsServing rest s rs h
  loop-IsServing (received env left bytes host ∷ rest) s ((room4, room6), rs) h =
      then-IsServing (read_count rest) _ (loop out false config file_cache rest)
        (work-IsAnswered out config env file_cache room4 room6 (overwrite bytes left) (length bytes)
          host s (omega (arith, length-append bytes (drop (length bytes) left))) h)
        (λ s' sound. loop-IsServing rest s' rs sound)
