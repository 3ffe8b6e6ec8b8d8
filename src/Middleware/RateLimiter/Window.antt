-- ===== src/Middleware/RateLimiter/Window.antt =====
-- middleware/rate_limiter.py `_check_sliding_window`: how many requests a window holds.
use commandclaw_gateway.Prelude.{
  ℕ, ◌+◌, ◌-◌, ◌<◌, ◌≤◌, String, ◌≡◌, refl, sym, ap, ◌∙◌, ◌↔◌, inl, inr, Bool, true, false, not,
  List, [], ◌∷◌, ◌++◌, ◌==◌, ltb, leb, arith, if◌then◌else◌, keep, length, Bool-cases,
}
use commandclaw_gateway.Redis.{Redis, IsLawful}
use commandclaw_gateway.Middleware.Limits.{drop_old, check_sliding_window}

length-keep {ℓ} : {A : Type ℓ} (p : A → Bool) (xs : List A) → length (keep p xs) ≤ length xs
unfolding keep
length-keep p [] = omega arith
length-keep p (x ∷ xs) = ground (arith, length-keep p xs)

length-append {ℓ} : {A : Type ℓ} (xs ys : List A) → length (xs ++ ys) ≡ length xs + length ys
length-append [] ys = omega arith
length-append (x ∷ xs) ys = omega (arith, length-append xs ys)

module _ (R : Redis) (L : IsLawful R) (key : String) where
  -- The requests that a sliding window holds.
  abbrev pub held : R.State → List (String × ℕ)
  held s = R.zrange key s

  -- Those whose time is not yet `window_ms` ago.
  abbrev pub young : ℕ → ℕ → R.State → List (String × ℕ)
  young window_ms now_ms s =
      if ltb now_ms window_ms then held s else keep (λ p. ltb (now_ms - window_ms) p.1) (held s)

  pub held-drop_old :
      (window_ms now_ms : ℕ) (s : R.State)
      → held (drop_old R key window_ms now_ms s) ≡ young window_ms now_ms s
  unfolding drop_old
  held-drop_old window_ms now_ms s = elim (Bool-cases (ltb now_ms window_ms)) [
    | inl early ↦ rw early
    | inr late ↦ rw late (L.zrange-zremrangebyscore key (now_ms - window_ms) s)
  ]

  length-young :
      (window_ms now_ms : ℕ) (s : R.State) → length (young window_ms now_ms s) ≤ length (held s)
  length-young window_ms now_ms s = elim (Bool-cases (ltb now_ms window_ms)) [
    | inl early ↦ rw early (omega arith)
    | inr late ↦ rw late (length-keep _ (held s))
  ]

  length-zadd :
      (m : String) (x : ℕ) (s : R.State) → length (held (R.zadd key x m s)) ≤ length (held s) + 1
  length-zadd m x s =
      let (before, after, old, new) = L.zrange-zadd key m x s in
      rw new (
        omega (
          arith,
          length-append before ((m, x) ∷ after),
          length-append before after,
          ap length old,
          length-keep (λ (p : String × ℕ). not (p.0 == m)) (held s),
        ))

  -- A request is allowed exactly if fewer than `limit` requests are younger than the window. An
  -- allowed one leaves at most `limit` in the window, and a refused one leaves the young ones.
  pub check_sliding_window_lem :
      (limit window_ms now_ms : ℕ) (member : String) (s : R.State)
      → 0 < window_ms
      → let out = check_sliding_window R key limit window_ms now_ms member s in
        ((out.0 ≡ true) ↔ (length (young window_ms now_ms s) < limit))
        × (out.0 ≡ true → length (held out.2) ≤ limit)
        × (out.0 ≡ false → held out.2 ≡ young window_ms now_ms s)
  unfolding check_sliding_window
  check_sliding_window_lem limit window_ms now_ms member s pos =
      let old = drop_old R key window_ms now_ms s in
      let count : R.zcard key old ≡ length (young window_ms now_ms s) =
        L.zcard_lem key old ∙ ap length (held-drop_old window_ms now_ms s) in
      let few : length (young window_ms now_ms s) ≡ length (held old) =
        ap length (sym (held-drop_old window_ms now_ms s)) in
      elim (Bool-cases (leb limit (R.zcard key old))) [
        | inl full ↦
            rw (full, check_sliding_window)
              ((λ e. cc, λ below. ground arith), λ e. cc, λ _. held-drop_old window_ms now_ms s)
        | inr room ↦
            rw (room, check_sliding_window)
              (
                (λ _. ground arith, λ _. refl),
                λ _.
                    rw (L.zrange-pexpire key window_ms (R.zadd key now_ms member old) pos)
                      (ground (arith, length-zadd member now_ms old)),
                λ e. cc,
              )
      ]
