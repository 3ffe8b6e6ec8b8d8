-- ===== src/Middleware/CostTracker/Logged.antt =====
-- middleware/cost_tracker.py `record_spend`: the logs and the charge of a request.
use text.Mathlib.TextLemmas.{append_cancel_left}
use commandclaw_gateway.Prelude.{
  ℕ, suc, ◌≤◌, String, ◌≡◌, ◌≢◌, refl, ap, ◌∙◌, subst, sym, true, false, List, ◌∷◌, ◌==◌, length,
  take, length-take, eq-false_of_ne,
}
use commandclaw_gateway.Floats.{Floats}
use commandclaw_gateway.Redis.{Redis, IsLawful}
use commandclaw_gateway.Schemas.{IdentityContext}
use commandclaw_gateway.Routing.Strategies.{Pricing}
use commandclaw_gateway.Middleware.CostTracker.{
  SpendLog, SpendContext, last_kept, log_key, cost_of_request, log_of, charged, append_log,
  record_spend,
}

module _ (F : Floats) (R : Redis) (L : IsLawful R) (dump : SpendLog F.Float → String)
    (table : List (String × Pricing F.Float)) where
  lrange-append_log :
      (key entry : String) (s : R.State)
      → R.lrange key (append_log F R dump table key entry s)
        ≡ take (suc last_kept) (entry ∷ R.lrange key s)
  unfolding append_log
  lrange-append_log key entry s =
      L.lrange-ltrim key last_kept (R.lpush key entry s)
      ∙ ap (take (suc last_kept)) (L.lrange-lpush key entry s)

  lrange-append_log_other :
      (key j entry : String) (s : R.State)
      → (key == j) ≡ false
      → R.lrange j (append_log F R dump table key entry s) ≡ R.lrange j s
  unfolding append_log
  lrange-append_log_other key j entry s other =
      (L.ltrim_frame key last_kept (R.lpush key entry s) j other).lrange
      ∙ (L.lpush_frame key entry s j other).lrange

  log_key-ne : (id : String) → id ≢ "all" → (log_key "all" == log_key id) ≡ false
  log_key-ne id h =
      eq-false_of_ne (log_key "all") (log_key id)
        (λ e. h (sym (append_cancel_left "gateway:spend_logs:" "all" id e)))

  -- Once a request's spend is recorded, the log of its key begins with the record and has at most
  -- 10,000 entries; and a request answered from the cache has cost 0.
  pub record_spend-logged :
      (identity : IdentityContext F.Float) (c : SpendContext F.Float)
      (input_tokens output_tokens : ℕ) (s : R.State)
      → identity.key_id ≢ "all"
      → let out = record_spend F R dump table identity c input_tokens output_tokens s in
        ((older : List String) × (R.lrange (log_key identity.key_id) out.1 ≡ dump out.0 ∷ older))
        × (length (R.lrange (log_key identity.key_id) out.1) ≤ 10000)
        × (c.cache_hit ≡ true → out.0.cost_usd ≡ F.zero)
  unfolding record_spend
  record_spend-logged identity c input_tokens output_tokens s ours =
      let log = log_of F R dump table identity c input_tokens output_tokens in
      let s1 = charged F R dump table identity log.cost_usd s in
      let s2 = append_log F R dump table (log_key identity.key_id) (dump log) s1 in
      let list =
        lrange-append_log_other (log_key "all") (log_key identity.key_id) (dump log) s2
          (log_key-ne identity.key_id ours)
        ∙ lrange-append_log (log_key identity.key_id) (dump log) s1 in
      (
        (take last_kept (R.lrange (log_key identity.key_id) s1), list),
        subst (λ l. length l ≤ 10000) (sym list)
            (length-take 10000 (dump log ∷ R.lrange (log_key identity.key_id) s1)),
        λ hit. unfold log_of cost_of_request in rw hit refl,
      )
