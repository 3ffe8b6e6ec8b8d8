-- ===== src/Auth/Gate/Genuine.antt =====
-- auth/middleware.py `dispatch`: what an admitted request has passed.
use commandclaw_gateway.Prelude.{
  eq_iff, ◌⊎◌, String, ◌≡◌, ◌≢◌, refl, ap, ◌∙◌, subst, true, false, Option, none, some, ◌==◌,
  if◌then◌else◌, contains, Bool-cases, inl, inr, ok, ◌>>=◌, >>=-eq-ok, ne_of_eq-false,
  eq-false_of_ne,
}
use commandclaw_gateway.Floats.{Floats}
use commandclaw_gateway.Redis.{Redis, IsLawful}
use commandclaw_gateway.Schemas.{IdentityContext}
use commandclaw_gateway.Auth.Rbac.{check_rbac}
use commandclaw_gateway.Auth.VirtualKeys.{Codec, hash_entry, validate_key}
use commandclaw_gateway.Auth.KeyChanges.{block_key}
use commandclaw_gateway.Auth.KeyChanges.Revoked.{IsProper, block_key-invalid}
use commandclaw_gateway.Auth.Gate.{
  public_paths, HttpRequest, extract_key, route_path, admitted, invalid_key, Settings, master,
  or_virtual, authenticate, needs_role, by_verdict, authorize, dispatch,
}

module _ (F : Floats) (C : Codec F) (R : Redis) (c : Settings F C R) where
  -- Where an identity comes from: the master key, a token, or a virtual key that is valid.
  abbrev pub IsGenuine : String → F.Float → R.State → IdentityContext F.Float → Type 0
  IsGenuine raw_key now s identity =
      ((raw_key ≡ c.gateway_master_key) × (identity ≡ master F C R))
      ⊎ (c.validate_jwt raw_key ≡ ok (some identity))
      ⊎ (validate_key F C R raw_key now s ≡ ok (some identity))

  or_virtual-eq :
      (raw_key : String) (now : F.Float) (s : R.State) (o : Option (IdentityContext F.Float))
      (identity : IdentityContext F.Float)
      → or_virtual F C R raw_key now s o ≡ ok (some identity)
      → (o ≡ some identity) ⊎ (validate_key F C R raw_key now s ≡ ok (some identity))
  unfolding or_virtual
  or_virtual-eq raw_key now s none identity h = inr h
  or_virtual-eq raw_key now s (some i) identity h = inl (cc)

  authenticate-IsGenuine :
      (raw_key : String) (now : F.Float) (s : R.State) (identity : IdentityContext F.Float)
      → authenticate F C R c raw_key now s ≡ ok (some identity)
      → IsGenuine raw_key now s identity
  unfolding authenticate
  authenticate-IsGenuine raw_key now s identity h =
      elim (Bool-cases (raw_key == c.gateway_master_key)) [
        | inl is_master ↦
            inl ((eq_iff raw_key c.gateway_master_key).0 is_master, cc (rw is_master at h))
        | inr other ↦ inr (virtual (rw other at h))
      ]
    where
      virtual :
          (if c.auth_strategy == "jwt"
              then c.validate_jwt raw_key >>= or_virtual F C R raw_key now s
              else validate_key F C R raw_key now s)
            ≡ ok (some identity)
          → (c.validate_jwt raw_key ≡ ok (some identity))
            ⊎ (validate_key F C R raw_key now s ≡ ok (some identity))
      virtual k = elim (Bool-cases (c.auth_strategy == "jwt")) [
        | inl jwt ↦
            let (o, token, k') = >>=-eq-ok (c.validate_jwt raw_key) _ (rw jwt at k) in
            elim (or_virtual-eq raw_key now s o identity k') [
              | inl e ↦ inl (token ∙ ap ok e)
              | inr valid ↦ inr valid
            ]
        | inr without ↦ inr (rw without at k)
      ]

  by_verdict-eq :
      (identity i : IdentityContext F.Float) (v : Option String)
      → by_verdict F C R identity v ≡ admitted i
      → (v ≡ none) × (identity ≡ i)
  unfolding by_verdict
  by_verdict-eq identity i none h = (refl, cc)
  by_verdict-eq identity i (some reason) h = cc

  authorize-eq :
      (method path : String) (o : Option (IdentityContext F.Float)) (i : IdentityContext F.Float)
      → authorize F C R method path o ≡ admitted i
      → (o ≡ some i) × (needs_role F C R method path ≡ true → check_rbac i method path ≡ none)
  unfolding authorize
  authorize-eq method path none i h = cc
  authorize-eq method path (some identity) i h = elim (Bool-cases (needs_role F C R method path)) [
    | inl needed ↦
        let (v, same) =
          by_verdict-eq identity i (check_rbac identity method path) (rw needed at h) in
        (ap some same, λ _. subst (λ j. check_rbac j method path ≡ none) same v)
    | inr free ↦ let same : identity ≡ i = cc (rw free at h) in (ap some same, λ needed. cc)
  ]

  -- A request that reaches a handler with an identity names a key; the identity is the master's, a
  -- token's or that of a virtual key that is valid; and for a change on an administrative path the
  -- check of roles has let it pass.
  pub dispatch-IsGenuine :
      (q : HttpRequest) (now : F.Float) (s : R.State) (i : IdentityContext F.Float)
      → dispatch F C R c q now s ≡ ok (admitted i)
      → (extract_key q ≢ "")
        × IsGenuine (extract_key q) now s i
        × (needs_role F C R q.method (route_path q) ≡ true
            → check_rbac i q.method (route_path q) ≡ none)
  unfolding dispatch
  dispatch-IsGenuine q now s i h = elim (Bool-cases (contains public_paths (route_path q))) [
    | inl public ↦ cc (rw public at h)
    | inr closed ↦ elim (Bool-cases (extract_key q == "")) [
      | inl missing ↦ cc (rw missing at (rw closed at h))
      | inr named ↦
          let (o, known, h') =
            >>=-eq-ok (authenticate F C R c (extract_key q) now s) _
              (rw named at (rw closed at h)) in
          let (found, allowed) = authorize-eq q.method (route_path q) o i (cc h') in
          (
            ne_of_eq-false (extract_key q) "" named,
            authenticate-IsGenuine (extract_key q) now s i (known ∙ ap ok found),
            allowed,
          )
    ]
  ]

  -- With virtual keys as the only strategy, a request to a path that is not public is answered with
  -- status 401 once its key is blocked, unless it is the master key.
  pub dispatch-blocked :
      (L : IsLawful R) (q : HttpRequest) (key_id : String) (now : F.Float) (s : R.State)
      → c.auth_strategy ≢ "jwt"
      → contains public_paths (route_path q) ≡ false
      → extract_key q ≢ ""
      → extract_key q ≢ c.gateway_master_key
      → IsProper key_id
      → R.get (hash_entry (C.hash_key (extract_key q))) s ≡ some key_id
      → dispatch F C R c q now (block_key R key_id s).1 ≡ ok invalid_key
  unfolding dispatch authenticate authorize
  dispatch-blocked L q key_id now s keys closed named other proper points =
      rw
        (
          closed,
          eq-false_of_ne (extract_key q) "" named,
          eq-false_of_ne (extract_key q) c.gateway_master_key other,
          eq-false_of_ne c.auth_strategy "jwt" keys,
          block_key-invalid F C R L (extract_key q) key_id now s proper points,
        )
        refl
