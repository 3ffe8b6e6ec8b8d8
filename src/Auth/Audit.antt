-- ===== src/Auth/Audit.antt =====
-- auth/audit.py: the log of administrative operations. The text of an event is `json`'s, which is
-- outside of the program.
pub mod Queried
use commandclaw_gateway.Prelude.{
  ℕ, zero, suc, ◌+◌, ◌*◌, String, Bool, true, false, not, ◌&&◌, ◌||◌, Option, none, some, List, [],
  ◌∷◌, ◌==◌, ltb, leb, take, truthy,
}
use commandclaw_gateway.Redis.{Redis}
use commandclaw_gateway.Auth.VirtualKeys.{text_or}

pub record Event : Type 0 where
  pub action : String
  pub actor_id : String
  pub resource_type : String
  pub resource_id : String

abbrev pub audit_log_key : String
audit_log_key = "gateway:audit_log"

-- `AUDIT_LOG_CAP - 1`
abbrev pub last_kept : ℕ
last_kept = 49999

-- What a query asks for; a field that is missing or empty asks for nothing.
pub record Query : Type 0 where
  pub resource_type : Option String
  pub resource_id : Option String
  pub actor_id : Option String
  pub action : Option String
  pub limit : ℕ
  pub offset : ℕ

abbrev pub agrees : Option String → String → Bool
agrees filter value = not (truthy filter) || value == text_or "" filter

unfoldable pub matches : Query → Event → Bool
matches q e =
    agrees q.resource_type e.resource_type
    && agrees q.resource_id e.resource_id
    && agrees q.actor_id e.actor_id
    && agrees q.action e.action

module _ (dumps : Event → String) (loads : String → Option Event) (R : Redis) where
  unfoldable pub log_audit_event : Event → R.State → R.State
  log_audit_event e s = R.ltrim audit_log_key last_kept (R.lpush audit_log_key (dumps e) s)

  -- The loop over the entries, with the matches skipped and collected so far.
  unfoldable pub collect : Query → ℕ → ℕ → List String → List Event
  unfolding matches
  collect q skipped count [] = []
  collect q skipped count (entry ∷ entries) = elim (loads entry) [
    | none ↦ collect q skipped count entries
    | some e ↦ elim (matches q e) [
      | false ↦ collect q skipped count entries
      | true ↦ elim (ltb skipped q.offset) [
        | true ↦ collect q (skipped + 1) count entries
        | false ↦ elim (leb q.limit (count + 1)) [
          | true ↦ e ∷ []
          | false ↦ e ∷ collect q skipped (count + 1) entries
        ]
      ]
    ]
  ]

  -- `lrange(AUDIT_LOG_KEY, 0, offset + limit * 5)` takes one entry more than that number.
  unfoldable pub get_audit_logs : Query → R.State → List Event
  unfolding collect
  get_audit_logs q s = collect q 0 0 (take (q.offset + q.limit * 5 + 1) (R.lrange audit_log_key s))
