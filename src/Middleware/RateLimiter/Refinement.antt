-- ===== src/Middleware/RateLimiter/Refinement.antt =====
-- middleware/rate_limiter.py `_check_sliding_window`: the sorted set on the server, from which old
-- requests are removed, against a log of all allowed requests that forgets nothing.
use commandclaw_gateway.Prelude.{
  ℕ, ◌<◌, ◌≤◌, String, ◌≡◌, refl, sym, ap, ◌∙◌, subst, inl, inr, Bool, true, false, List, [], ◌∷◌,
  ◌++◌, ltb, leb, arith, if◌then◌else◌, Bool-cases, All,
}
use commandclaw_gateway.Redis.{Redis, IsLawful}
use commandclaw_gateway.Middleware.Limits.{drop_old, check_sliding_window}
use commandclaw_gateway.Middleware.RateLimiter.Window.{held-drop_old}
use commandclaw_gateway.Middleware.RateLimiter.Recent.{
  Arrival, recent, Later, Other, AllOther, recent-append, recent-keep, length-keep-recent,
  length-recent, keep-Other, All-keep, All-between, All-map, All-both,
}

-- The specification: a request is allowed if fewer than `limit` allowed ones are younger than the
-- window.
unfoldable pub ideal : ℕ → ℕ → List Arrival → List Arrival → List Bool
ideal limit window [] log = []
ideal limit window (r ∷ rs) log =
    if ltb (recent window r.1 log) limit
    then true ∷ ideal limit window rs (r ∷ log)
    else false ∷ ideal limit window rs log

module _ (R : Redis) (key : String) (limit window : ℕ) where
  -- The code, on one request after the other.
  unfoldable pub decisions : List Arrival → R.State → List Bool
  unfolding check_sliding_window
  decisions [] s = []
  decisions (r ∷ rs) s =
      let (allowed, count, s') = check_sliding_window R key limit window r.1 r.0 s in
      allowed ∷ decisions rs s'

  -- The set counts like the log from `now` on, and holds none of the requests to come.
  record Tracks (now : ℕ) (rs : List Arrival) (s : R.State) (log : List Arrival) : Type 0 where
    counts :
        (later : ℕ) → now ≤ later → recent window later (R.zrange key s) ≡ recent window later log
    unseen : All (λ r. All (Other r) (R.zrange key s)) rs

  module _ (L : IsLawful R) (pos : 0 < window) where
    recent-drop_old :
        (now later : ℕ) (s : R.State)
        → now ≤ later
        → recent window later (R.zrange key (drop_old R key window now s))
          ≡ recent window later (R.zrange key s)
    recent-drop_old now later s on =
        rw (held-drop_old R L key window now s) (elim (Bool-cases (ltb now window)) [
          | inl early ↦ rw early refl
          | inr late ↦ rw late (recent-keep window now later (R.zrange key s) (ground arith) on)
        ])

    zcard-drop_old :
        (now : ℕ) (s : R.State)
        → R.zcard key (drop_old R key window now s) ≡ recent window now (R.zrange key s)
    zcard-drop_old now s =
        rw (L.zcard_lem key (drop_old R key window now s), held-drop_old R L key window now s)
          (elim (Bool-cases (ltb now window)) [
            | inl early ↦ rw early (length-recent window now (R.zrange key s) (ground arith))
            | inr late ↦ rw late (length-keep-recent window now (R.zrange key s) (ground arith))
          ])

    All-drop_old :
        (P : Arrival → Type 0) (now : ℕ) (s : R.State)
        → All P (R.zrange key s)
        → All P (R.zrange key (drop_old R key window now s))
    All-drop_old P now s h =
        rw (held-drop_old R L key window now s) (elim (Bool-cases (ltb now window)) [
          | inl early ↦ rw early h
          | inr late ↦ rw late (All-keep P _ (R.zrange key s) h)
        ])

    -- The set after a new request.
    added : Arrival → R.State → R.State
    added r s = R.pexpire key window (R.zadd key r.1 r.0 s)

    zrange-added :
        (r : Arrival) (s : R.State)
        → All (Other r) (R.zrange key s)
        → (before after : List Arrival) × (R.zrange key s ≡ before ++ after)
          × (R.zrange key (added r s) ≡ before ++ r ∷ after)
    unfolding added
    zrange-added r s fresh =
        let (before, after, old, new) = L.zrange-zadd key r.0 r.1 s in
        (
          before,
          after,
          sym (keep-Other r (R.zrange key s) fresh) ∙ old,
          L.zrange-pexpire key window (R.zadd key r.1 r.0 s) pos ∙ new,
        )

    recent-added :
        (later : ℕ) (r : Arrival) (s : R.State)
        → All (Other r) (R.zrange key s)
        → recent window later (R.zrange key (added r s)) ≡ recent window later (r ∷ R.zrange key s)
    recent-added later r s fresh =
        let (before, after, old, new) = zrange-added r s fresh in
        rw
          (
            new,
            old,
            recent-append window later before (r ∷ after),
            recent-append window later before after,
          )
          (ground arith)

    All-added :
        (P : Arrival → Type 0) (r : Arrival) (s : R.State)
        → All (Other r) (R.zrange key s)
        → P r
        → All P (R.zrange key s)
        → All P (R.zrange key (added r s))
    All-added P r s fresh h hs =
        let (before, after, old, new) = zrange-added r s fresh in
        subst (All P) (sym new) (All-between P before after r h (subst (All P) old hs))

    Tracks-refused :
        (now : ℕ) (r : Arrival) (rs : List Arrival) (s : R.State) (log : List Arrival)
        → now ≤ r.1
        → Tracks now (r ∷ rs) s log
        → Tracks r.1 rs (drop_old R key window r.1 s) log
    Tracks-refused now r rs s log on t = record {
      counts = λ later h. recent-drop_old r.1 later s h ∙ t.counts later (omega arith);
      unseen = All-map _ _ (λ q h. All-drop_old (Other q) r.1 s h) rs t.unseen.1;
    }

    Tracks-allowed :
        (now : ℕ) (r : Arrival) (rs : List Arrival) (s : R.State) (log : List Arrival)
        → now ≤ r.1
        → All (λ q. Other q r) rs
        → Tracks now (r ∷ rs) s log
        → Tracks r.1 rs (added r (drop_old R key window r.1 s)) (r ∷ log)
    Tracks-allowed now r rs s log on distinct t =
        let old = drop_old R key window r.1 s in
        let fresh = All-drop_old (Other r) r.1 s t.unseen.0 in
        record {
          counts = λ later h.
              recent-added later r old fresh
              ∙ rw (recent-drop_old r.1 later s h, t.counts later (omega arith)) refl;
          unseen =
              All-map _ _
                (λ q h. All-added (Other q) r old fresh h.0 (All-drop_old (Other q) r.1 s h.1)) rs
                (All-both (λ q. Other q r) (λ q. All (Other q) (R.zrange key s)) rs distinct
                  t.unseen.1);
        }

    decisions-Tracks :
        (rs : List Arrival) (now : ℕ) (s : R.State) (log : List Arrival)
        → Later now rs
        → AllOther rs
        → Tracks now rs s log
        → decisions rs s ≡ ideal limit window rs log
    unfolding decisions ideal check_sliding_window added
    decisions-Tracks [] now s log times ids t = refl
    decisions-Tracks (r ∷ rs) now s log (on, times) (distinct, ids) t =
        let old = drop_old R key window r.1 s in
        let count : R.zcard key old ≡ recent window r.1 log =
          zcard-drop_old r.1 s ∙ t.counts r.1 on in
        elim (Bool-cases (leb limit (R.zcard key old))) [
          | inl full ↦
              let refused : ltb (recent window r.1 log) limit ≡ false = ground arith in
              rw (full, refused)
                (ap (λ ds. false ∷ ds)
                  (decisions-Tracks rs r.1 old log times ids (Tracks-refused now r rs s log on t)))
          | inr room ↦
              let allowed : ltb (recent window r.1 log) limit ≡ true = ground arith in
              rw (room, allowed)
                (ap (λ ds. true ∷ ds)
                  (decisions-Tracks rs r.1 (added r old) (r ∷ log) times ids
                    (Tracks-allowed now r rs s log on distinct t)))
        ]

    unseen-empty :
        (rs : List Arrival) (s : R.State)
        → R.zrange key s ≡ []
        → All (λ r. All (Other r) (R.zrange key s)) rs
    unseen-empty [] s nothing = tt
    unseen-empty (r ∷ rs) s nothing =
        (subst (All (Other r)) (sym nothing) tt, unseen-empty rs s nothing)

    -- From an empty set, requests with different ids whose times do not go back are decided as the
    -- specification decides them: by a log of all allowed requests, from which none is removed.
    pub decisions-ideal :
        (rs : List Arrival) (s : R.State)
        → R.zrange key s ≡ []
        → Later 0 rs
        → AllOther rs
        → decisions rs s ≡ ideal limit window rs []
    decisions-ideal rs s nothing times ids = decisions-Tracks rs 0 s [] times ids (record {
      counts = λ later h. ap (recent window later) nothing;
      unseen = unseen-empty rs s nothing;
    })
