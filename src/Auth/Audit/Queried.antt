-- ===== src/Auth/Audit/Queried.antt =====
-- auth/audit.py `get_audit_logs`: what a query returns.
use commandclaw_gateway.Prelude.{
  ℕ, zero, suc, ◌+◌, ◌*◌, ◌<◌, String, ◌≡◌, ◌≢◌, refl, ap, sym, ◌∙◌, true, false, Option, none,
  some, List, [], ◌∷◌, ◌==◌, eq_iff, eq_self, arith, ltb, leb, take, drop, keep, Bool-cases,
  Option-cases, inl, inr,
}
use commandclaw_gateway.Redis.{Redis}
use commandclaw_gateway.Auth.Audit.{
  Event, Query, agrees, matches, collect, get_audit_logs, audit_log_key,
}

-- A field of an event has the value that is asked for, where one is.
abbrev pub Has : Option String → String → Type 0
Has asked value = (f : String) → asked ≡ some f → f ≢ "" → value ≡ f

-- An event has all that a query asks for.
pub record Answers (q : Query) (e : Event) : Type 0 where
  pub resource_type : Has q.resource_type e.resource_type
  pub resource_id : Has q.resource_id e.resource_id
  pub actor_id : Has q.actor_id e.actor_id
  pub action : Has q.action e.action

-- `kept` are exactly the events that answer the query, in their order.
pub data Filtered (q : Query) : List Event → List Event → Type 0 where
  done : Filtered q [] []
  keeping :
      {e : Event} {es kept : List Event}
      → Answers q e
      → Filtered q es kept
      → Filtered q (e ∷ es) (e ∷ kept)
  leaving :
      {e : Event} {es kept : List Event}
      → ¬ Answers q e
      → Filtered q es kept
      → Filtered q (e ∷ es) kept

Has-agrees : (asked : Option String) (value : String) → agrees asked value ≡ true → Has asked value
Has-agrees none value h f e named = cc
Has-agrees (some g) value h f e named = ground (arith, eq_iff g "", eq_iff value g)

agrees-Has : (asked : Option String) (value : String) → Has asked value → agrees asked value ≡ true
agrees-Has none value h = refl
agrees-Has (some g) value h = elim (Bool-cases (g == "")) [
  | inl blank ↦ rw blank refl
  | inr named ↦ rw (named, h g refl (λ e. cc (ap (λ x. x == "") e, eq_self ""))) (eq_self g)
]

Answers-matches : (q : Query) (e : Event) → matches q e ≡ true → Answers q e
unfolding matches
Answers-matches q e h = record {
  resource_type = Has-agrees q.resource_type e.resource_type (ground arith);
  resource_id = Has-agrees q.resource_id e.resource_id (ground arith);
  actor_id = Has-agrees q.actor_id e.actor_id (ground arith);
  action = Has-agrees q.action e.action (ground arith);
}

matches-Answers : (q : Query) (e : Event) → Answers q e → matches q e ≡ true
unfolding matches
matches-Answers q e a =
    rw
      (
        agrees-Has q.resource_type e.resource_type a.resource_type,
        agrees-Has q.resource_id e.resource_id a.resource_id,
        agrees-Has q.actor_id e.actor_id a.actor_id,
        agrees-Has q.action e.action a.action,
      )
      refl

keep-Filtered : (q : Query) (es : List Event) → Filtered q es (keep (matches q) es)
unfolding keep
keep-Filtered q [] = done
keep-Filtered q (e ∷ es) = elim (Bool-cases (matches q e)) [
  | inl match ↦ rw match (keeping (Answers-matches q e match) (keep-Filtered q es))
  | inr other ↦ rw other (leaving (λ a. cc (matches-Answers q e a)) (keep-Filtered q es))
]

module _ (dumps : Event → String) (loads : String → Option Event) (R : Redis) (q : Query) where
  -- The events that `json` reads in the entries.
  abbrev pub readable : List String → List Event
  readable [] = []
  readable (entry ∷ entries) = elim (loads entry) [
    | none ↦ readable entries
    | some e ↦ e ∷ readable entries
  ]

  -- From `skipped` skipped and `count` collected events, the loop skips `o` more and takes `l + 1`.
  abbrev Collects : List String → Type 0
  Collects entries =
      (skipped count o l : ℕ)
      → q.offset ≡ skipped + o
      → q.limit ≡ count + suc l
      → collect dumps loads R q skipped count entries
        ≡ take (suc l) (drop o (keep (matches q) (readable entries)))

  Collects-match :
      (entry : String) (e : Event) (entries : List String)
      → loads entry ≡ some e
      → matches q e ≡ true
      → Collects entries
      → Collects (entry ∷ entries)
  unfolding collect keep
  Collects-match entry e entries read match ih skipped count (suc o) l eo el =
      let skip : ltb skipped q.offset ≡ true = ground arith in
      rw (read, match, skip, collect, readable) (ih (skipped + 1) count o l (omega arith) el)
  Collects-match entry e entries read match ih skipped count zero zero eo el =
      let keep : ltb skipped q.offset ≡ false = ground arith in
      let last : leb q.limit (count + 1) ≡ true = ground arith in
      rw (read, match, keep, last, collect, readable) refl
  Collects-match entry e entries read match ih skipped count zero (suc l) eo el =
      let keep : ltb skipped q.offset ≡ false = ground arith in
      let more : leb q.limit (count + 1) ≡ false = ground arith in
      rw (read, match, keep, more, collect, readable)
        (ap (λ es. e ∷ es) (ih skipped (count + 1) zero l eo (omega arith)))

  collect-Collects : (entries : List String) → Collects entries
  unfolding collect keep
  collect-Collects [] skipped count zero l eo el = refl
  collect-Collects [] skipped count (suc o) l eo el = refl
  collect-Collects (entry ∷ entries) skipped count o l eo el = elim (Option-cases (loads entry)) [
    | inl broken ↦ rw (broken, collect, readable) (collect-Collects entries skipped count o l eo el)
    | inr (e, read) ↦ elim (Bool-cases (matches q e)) [
      | inr other ↦
          rw (read, other, collect, readable) (collect-Collects entries skipped count o l eo el)
      | inl match ↦
          Collects-match entry e entries read match (collect-Collects entries) skipped count o l eo
            el
    ]
  ]

  limit_suc : (n : ℕ) → 0 < n → (l : ℕ) × (n ≡ suc l)
  limit_suc zero h = absurd (omega arith)
  limit_suc (suc l) h = (l, refl)

  -- With a limit above 0, a query of the audit log reads the first `offset + 5 * limit + 1` entries,
  -- and of those of their events that have all that the query asks for, it leaves out the first
  -- `offset` and returns the next `limit`.
  pub get_audit_logs_lem :
      (s : R.State)
      → 0 < q.limit
      → let entries = take (q.offset + q.limit * 5 + 1) (R.lrange audit_log_key s) in
        (answers : List Event) × Filtered q (readable entries) answers
        × (get_audit_logs dumps loads R q s ≡ take q.limit (drop q.offset answers))
  unfolding get_audit_logs
  get_audit_logs_lem s room =
      let entries = take (q.offset + q.limit * 5 + 1) (R.lrange audit_log_key s) in
      let (l, el) = limit_suc q.limit room in
      (
        keep (matches q) (readable entries),
        keep-Filtered q (readable entries),
        collect-Collects entries 0 0 q.offset l (omega arith) (omega arith)
            ∙ ap (λ n. take n (drop q.offset (keep (matches q) (readable entries)))) (sym el),
      )
