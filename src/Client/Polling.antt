-- ===== src/Client/Polling.antt =====
-- How often `get` of `ServerKvClient` (server/kv.rs) polls.
use hubert_rust.Base.{ℕ, ◌+◌, ◌-◌, ◌/◌, ◌≤◌, ◌<◌, ◌≡◌, refl, Option, some, arith, ◌++◌}
use hubert_rust.Base.Lists.{Bytes, text}
use hubert_rust.Base.Io.{Result, ok, err}
use hubert_rust.Base.Poll.{again, poll_total}
use hubert_rust.Error.{Error}
use hubert_rust.Gordian.{Gordian}
use hubert_rust.Time.{from_secs, from_millis}
use hubert_rust.Client.{Http, HttpResponse, get, get_pass, get_answer, default_timeout}

-- The clock does not run backwards in a request, and a sleep takes the time that was asked for.
pub record IsTimed (H : Http) : Type 0 where
  pub post_passes : (url body : Bytes) (w : H.World) → H.now w ≤ H.now (H.post url body w).1
  pub sleep_passes : (nanos : ℕ) (w : H.World) → H.now w + nanos ≤ H.now (H.sleep nanos w)

module _ (G : Gordian) (H : Http) (base_url : Bytes) where
  open G use {Arid, arid_ur, Envelope}
  open H use {World, post, now, sleep}

  get_answer-again :
      (deadline : ℕ) (response : HttpResponse) (w w' : World)
      → get_answer G H deadline response w ≡ again w'
      → (now w < deadline) × (w' ≡ w)
  unfolding get_answer
  get_answer-again deadline response w w' h = ground arith

  get_pass-again :
      (k : Arid) (deadline : ℕ) (w w' : World)
      → get_pass G H base_url k deadline w ≡ again w'
      → (now w' < deadline) × (w' ≡ (post (base_url ++ text "/get") (arid_ur k) w).1)
  unfolding get_pass
  get_pass-again k deadline w w' h = answered (post (base_url ++ text "/get") (arid_ur k) w).0 refl
    where
      answered :
          (r : Result HttpResponse Bytes)
          → (post (base_url ++ text "/get") (arid_ur k) w).0 ≡ r
          → (now w' < deadline) × (w' ≡ (post (base_url ++ text "/get") (arid_ur k) w).1)
      answered (err e) q = ground arith
      answered (ok response) q =
          let sent = (post (base_url ++ text "/get") (arid_ur k) w).1 in
          ground (arith, get_answer-again deadline response sent w')

  -- The seconds that are left until the deadline.
  abbrev pub left : ℕ → World → ℕ
  left deadline w = (deadline - now w + 999_999_999) / from_millis 1000

  left-falls :
      IsTimed H
      → (k : Arid) (deadline : ℕ) (w w' : World) → get_pass G H base_url k deadline w ≡ again w'
      → left deadline (sleep (from_millis 1000) w') < left deadline w
  left-falls T k deadline w w' h =
      let (early, same) = get_pass-again k deadline w w' h in
      let passed : now w ≤ now w' =
        rw same (T.post_passes (base_url ++ text "/get") (arid_ur k) w) in
      omega (arith, T.sleep_passes (from_millis 1000) w')

  -- With a request for each second of the timeout and one more, `get` returns, whatever the server
  -- answers.
  pub client_get_total :
      IsTimed H
      → (fuel : ℕ) (k : Arid) (timeout : Option ℕ) (w : World) → default_timeout timeout < fuel
      → (r : Result (Option Envelope) Error) × (w' : World) × (get G H fuel base_url k timeout w
          ≡ some (r, w'))
  unfolding get
  client_get_total T fuel k timeout w enough =
      poll_total _ _ (left (now w + from_secs (default_timeout timeout)))
        (left-falls T k (now w + from_secs (default_timeout timeout))) fuel w (omega arith)
