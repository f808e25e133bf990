-- ===== src/Client/Waiting.antt =====
-- A `get` of `ServerKvClient` (server/kv.rs) that starts before the envelope is there.
use hubert_rust.Base.{
  ℕ, zero, suc, ◌+◌, ◌≡◌, refl, ◌∙◌, Option, none, some, ◌++◌, ◌<◌, ◌≤◌, arith, ltb, Bool-cases,
  inl, inr, if◌then◌else◌,
}
use hubert_rust.Base.Lists.{Bytes, text}
use hubert_rust.Base.Io.{Result, ok}
use hubert_rust.Base.Poll.{again, poll, poll_done, poll_again}
use hubert_rust.Error.{Error}
use hubert_rust.Gordian.{Gordian, IsLawful}
use hubert_rust.Time.{from_secs, from_millis}
use hubert_rust.Sqlite.Statements.{Database}
use hubert_rust.Server
use hubert_rust.Server.{into_response}
use hubert_rust.Client.{Http, get, get_pass, get_answer, default_timeout}
use hubert_rust.Client.Bodies.{get_reply}
use hubert_rust.Client.Connected.{IsConnected, http_of, get_pass_connected, get_pass_found}
use hubert_rust.Client.Polling.{IsTimed, left}

module _ (G : Gordian) (Q : Database) (H : Http) (L : IsLawful G) (base_url : Bytes)
    (C : IsConnected G Q H base_url) where
  open G use {Arid, arid_ur, Envelope}
  open H use {World, post, now, sleep}
  open C use {server}

  abbrev pub asked : Arid → World → World
  asked k w = (post (base_url ++ text "/get") (arid_ur k) w).1

  -- The world after `n` requests and the sleep after each.
  abbrev pub waited : Arid → ℕ → World → World
  waited k zero w = w
  waited k (suc n) w = sleep (from_millis 1000) (asked k (waited k n w))

  -- The envelope `e` is at `k` from the time `T` on, and nothing before, whenever the client asks;
  -- and no request takes longer than `d`.
  pub record Arrives (k : Arid) (e : Envelope) (T d : ℕ) (w : World) : Type 0 where
    pub found :
        (n : ℕ)
        → (Server.get G Q k (server (waited k n w))).0
          ≡ (if ltb (now (waited k n w)) T then none else some e)
    pub prompt : (n : ℕ) → now (asked k (waited k n w)) ≤ now (waited k n w) + d

  get_answer-not_found :
      (deadline : ℕ) (w : World)
      → now w < deadline
      → get_answer G H deadline (http_of (into_response (get_reply G Q H L none))) w ≡ again w
  unfolding get_answer into_response
  get_answer-not_found deadline w early = ground arith

  get_pass_early :
      (deadline : ℕ) (k : Arid) (w : World)
      → (Server.get G Q k (server w)).0 ≡ none
      → now (asked k w) < deadline
      → get_pass G H base_url k deadline w ≡ again (asked k w)
  get_pass_early deadline k w nothing early =
      get_pass_connected G Q H L base_url C deadline k w
      ∙ rw nothing (get_answer-not_found deadline (asked k w) early)

  module _ (T : IsTimed H) (k : Arid) (e : Envelope) (since d : ℕ) (w : World)
      (A : Arrives k e since d w) (deadline : ℕ) where
    abbrev loop : ℕ → World → Option (Result (Option Envelope) Error × World)
    loop = poll (get_pass G H base_url k deadline) (sleep (from_millis 1000))

    left-waited :
        (n : ℕ)
        → now (waited k n w) < deadline
        → left G H base_url deadline (waited k (suc n) w)
          < left G H base_url deadline (waited k n w)
    left-waited n early = omega (
      arith,
      T.post_passes (base_url ++ text "/get") (arid_ur k) (waited k n w),
      T.sleep_passes (from_millis 1000) (asked k (waited k n w)),
    )

    loop_finds :
        since + d ≤ deadline
        → (fuel n : ℕ) → left G H base_url deadline (waited k n w) < fuel
        → (w' : World) × (loop fuel (waited k n w) ≡ some (ok (some e), w'))
    loop_finds soon zero n enough = absurd (omega arith)
    loop_finds soon (suc fuel) n enough = elim (Bool-cases (ltb (now (waited k n w)) since)) [
      | inl early ↦
          let before : now (waited k n w) < since = ground arith in
          let first =
            get_pass_early deadline k (waited k n w) (rw (A.found n, early) refl)
              (omega (arith, A.prompt n)) in
          let (w', q) = loop_finds soon fuel (suc n) (omega (arith, left-waited n (omega arith))) in
          (w', poll_again _ _ fuel (waited k n w) first ∙ q)
      | inr late ↦ (
        asked k (waited k n w),
        poll_done _ _ fuel (waited k n w) (
            get_pass_found G Q H L base_url C deadline k e (waited k n w)
              (rw (A.found n, late) refl)),
      )
    ]

  -- `get` waits for the envelope: where it arrives on the server from a time `T` on, early enough for a
  -- request that starts before `T` to be answered before the timeout, `get` returns it, with a
  -- request for each second of the timeout and one more.
  pub client_get_waits :
      IsTimed H
      → (fuel : ℕ) (k : Arid) (e : Envelope) (timeout : Option ℕ) (T d : ℕ) (w : World)
      → Arrives k e T d w
      → T + d ≤ now w + from_secs (default_timeout timeout)
      → default_timeout timeout < fuel
      → (w' : World) × (get G H fuel base_url k timeout w ≡ some (ok (some e), w'))
  unfolding get
  client_get_waits clock fuel k e timeout T d w A soon enough =
      loop_finds clock k e T d w A (now w + from_secs (default_timeout timeout)) soon fuel 0
        (omega arith)
