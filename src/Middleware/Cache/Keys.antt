-- ===== src/Middleware/Cache/Keys.antt =====
-- middleware/cache.py `build_cache_key`: which requests share a cached response.
use Prim.Native.String.{count}
use text.Mathlib.TextLemmas.{append_assoc, append_cancel_left, append_inj, length-append}
use commandclaw_gateway.Prelude.{
  String, ◌≡◌, ◌≢◌, refl, ap, ◌∙◌, sym, Option, none, some, List, ◌<>◌, arith, eq-false_of_ne,
}
use commandclaw_gateway.Middleware.Cache.{Json, hash_val, build_cache_key}

module _ (J : Json) where
  -- The key of a request of a team, in the scope of teams.
  abbrev pub team_key : List (String × J.Value) → String → Option String → String
  team_key request team key_id = build_cache_key J request none "team" (some team) key_id

  team_key-eq :
      (request : List (String × J.Value)) (team : String) (key_id : Option String)
      → team ≢ ""
      → team_key request team key_id
        ≡ "gateway:cache:team:" <> (team <> (":" <> hash_val J request))
  unfolding build_cache_key
  team_key-eq request team key_id named = rw (eq-false_of_ne team "" named) refl

  tail_injective :
      (t u h k : String) → count h ≡ count k → t <> (":" <> h) ≡ u <> (":" <> k) → (t ≡ u) × (h ≡ k)
  tail_injective t u h k same e =
      let lengths = ap count e in
      let (left, right) = append_inj e (
        omega (
          arith,
          lengths,
          same,
          length-append t (":" <> h),
          length-append u (":" <> k),
          length-append ":" h,
          length-append ":" k,
        )) in
      (left, append_cancel_left ":" h k right)

  -- In the scope of teams and without a namespace, requests share a key only within one team, and
  -- only if their relevant fields have the same hash; hashes are taken to be of one length.
  pub build_cache_key-team :
      (r q : List (String × J.Value)) (team other : String) (key_id other_id : Option String)
      → ((x y : String) → count (J.sha256 x) ≡ count (J.sha256 y))
      → team ≢ ""
      → other ≢ ""
      → team_key r team key_id ≡ team_key q other other_id
      → (team ≡ other) × (hash_val J r ≡ hash_val J q)
  build_cache_key-team r q team other key_id other_id fixed named named' e =
      tail_injective team other (hash_val J r) (hash_val J q) (unfold hash_val in fixed _ _) (
        append_cancel_left "gateway:cache:team:" _ _
          (sym (team_key-eq r team key_id named) ∙ e ∙ team_key-eq q other other_id named'))

  -- A request of any team or key that names the namespace "team:" followed by a team's id gets the key
  -- of that team's own requests.
  pub build_cache_key-namespace :
      (r : List (String × J.Value)) (team scope : String) (any_team any_key key_id : Option String)
      → team ≢ ""
      → build_cache_key J r (some ("team:" <> team)) scope any_team any_key ≡ team_key r team key_id
  build_cache_key-namespace r team scope any_team any_key key_id named =
      namespaced ∙ sym (team_key-eq r team key_id named)
    where
      namespaced :
          build_cache_key J r (some ("team:" <> team)) scope any_team any_key
          ≡ "gateway:cache:team:" <> (team <> (":" <> hash_val J r))
      namespaced =
          unfold build_cache_key in
          rw
            (eq-false_of_ne ("team:" <> team) ""
              (λ e. let n = ap count e in absurd (omega (arith, n, length-append "team:" team))))
            (ap (λ t. "gateway:cache:" <> t) (append_assoc "team:" team (":" <> hash_val J r))
              ∙ sym (append_assoc "gateway:cache:" "team:" (team <> (":" <> hash_val J r))))
