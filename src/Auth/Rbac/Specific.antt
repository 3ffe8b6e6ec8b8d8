-- ===== src/Auth/Rbac/Specific.antt =====
-- auth/rbac.py: the check decides by the most specific permission of the table.
use Prim.Native.String.{len}
use mathlib.Core.List.{Memᴰ}
use commandclaw_gateway.Prelude.{
  ℕ, ◌≤◌, ◌<◌, String, ◌≡◌, refl, ◌⊎◌, inl, inr, true, false, Option, none, some, List, [], ◌∷◌,
  arith, All, ltb, leb, Bool-cases, ◌==◌,
}
use commandclaw_gateway.Schemas.{IdentityContext}
use commandclaw_gateway.Auth.Rbac.{
  Permission, endpoint_permissions, level, applies, most_specific, deny_below, check_rbac,
}

module _ (method path : String) where
  -- No applying permission has a prefix longer than `n`.
  abbrev pub IsLongest : ℕ → List Permission → Type 0
  IsLongest n ps = All (λ q. applies method path q ≡ true → len q.path_prefix ≤ n) ps

  -- A most specific permission for the operation, with the role `role` and a prefix beyond `n`.
  pub record Decides (ps : List Permission) (role : String) (n : ℕ) : Type 0 where
    pub permission : Permission
    pub listed : Memᴰ permission ps
    pub applying : applies method path permission ≡ true
    pub longest : IsLongest (len permission.path_prefix) ps
    pub beyond : n < len permission.path_prefix
    pub role_of : permission.min_role ≡ role

  IsLongest-le : (ps : List Permission) {n m : ℕ} → n ≤ m → IsLongest n ps → IsLongest m ps
  IsLongest-le [] h l = tt
  IsLongest-le (p ∷ ps) h l = ((λ a. let b = l.0 a in omega arith), IsLongest-le ps h l.1)

  abbrev Outcome : List Permission → Option String → ℕ → Option String → Type 0
  Outcome ps role n result =
      ((result ≡ role) × IsLongest n ps) ⊎ ((r : String) × (result ≡ some r) × Decides ps r n)

  take_head :
      (p : Permission) (ps : List Permission) (role : Option String) (n : ℕ)
      (result : Option String)
      → applies method path p ≡ true
      → n < len p.path_prefix
      → Outcome ps (some p.min_role) (len p.path_prefix) result
      → Outcome (p ∷ ps) role n result
  take_head p ps role n result a h (inl (e, l)) = inr (
    p.min_role,
    e,
    record {
      permission = p;
      listed = Memᴰ.head refl;
      applying = a;
      longest = ((λ _. omega arith), l);
      beyond = h;
      role_of = refl;
    },
  )
  take_head p ps role n result a h (inr (r, e, d)) = inr (
    r,
    e,
    record {
      permission = d.permission;
      listed = Memᴰ.tail d.listed;
      applying = d.applying;
      longest = ((λ _. let b = d.beyond in omega arith), d.longest);
      beyond = (let b = d.beyond in omega arith);
      role_of = d.role_of;
    },
  )

  pass_head :
      (p : Permission) (ps : List Permission) (role : Option String) (n : ℕ)
      (result : Option String)
      → (applies method path p ≡ true → len p.path_prefix ≤ n)
      → Outcome ps role n result
      → Outcome (p ∷ ps) role n result
  pass_head p ps role n result a (inl (e, l)) = inl (e, (a, l))
  pass_head p ps role n result a (inr (r, e, d)) = inr (
    r,
    e,
    record {
      permission = d.permission;
      listed = Memᴰ.tail d.listed;
      applying = d.applying;
      longest = ((λ x. let y = a x in let b = d.beyond in omega arith), d.longest);
      beyond = d.beyond;
      role_of = d.role_of;
    },
  )

  pub most_specific_outcome :
      (ps : List Permission) (role : Option String) (n : ℕ)
      → Outcome ps role n (most_specific method path ps role n)
  unfolding most_specific
  most_specific_outcome [] role n = inl (refl, tt)
  most_specific_outcome (p ∷ ps) role n = elim (Bool-cases (applies method path p)) [
    | inl a ↦ elim (Bool-cases (ltb n (len p.path_prefix))) [
      | inl h ↦
          take_head p ps role n _ a (ground arith)
            (rw (a, h) (most_specific_outcome ps (some p.min_role) (len p.path_prefix)))
      | inr h ↦
          pass_head p ps role n _ (λ _. ground arith) (rw (a, h) (most_specific_outcome ps role n))
    ]
    | inr a ↦ pass_head p ps role n _ (λ x. cc) (rw a (most_specific_outcome ps role n))
  ]

-- Each role of the table is a text that is not empty.
HasRole : List Permission → Type 0
HasRole ps = All (λ p. (p.min_role == "") ≡ false) ps

HasRole-mem :
    (ps : List Permission) {p : Permission} → HasRole ps → Memᴰ p ps → (p.min_role == "") ≡ false
unfolding HasRole
HasRole-mem [] h m = elim m [ ]
HasRole-mem (p ∷ ps) h (Memᴰ.head e) = rw e h.0
HasRole-mem (p ∷ ps) h (Memᴰ.tail m) = HasRole-mem ps h.1 m

table-HasRole : HasRole endpoint_permissions
unfolding HasRole
table-HasRole = (
  refl,
  (
    refl,
    (
      refl,
      (refl, (refl, (refl, (refl, (refl, (refl, (refl, (refl, (refl, (refl, (refl, tt))))))))))),
    ),
  ),
)

module _ {F : Type 0} where
  -- Why an operation is allowed, or refused.
  abbrev pub IsJustified : IdentityContext F → String → String → Option String → Type 0
  IsJustified identity method path none =
      (3 ≤ level identity.user_role)
      ⊎ IsLongest method path 0 endpoint_permissions
      ⊎ ((r : String) × Decides method path endpoint_permissions r 0
          × (level r ≤ level identity.user_role))
  IsJustified identity method path (some reason) =
      (level identity.user_role < 3)
      × ((r : String) × Decides method path endpoint_permissions r 0
          × (level identity.user_role < level r))

  deny_below-IsJustified :
      (identity : IdentityContext F) (method path : String) (result : Option String)
      → level identity.user_role < 3
      → Outcome method path endpoint_permissions none 0 result
      → IsJustified identity method path
          (deny_below (level identity.user_role) identity.user_role method path result)
  unfolding deny_below
  deny_below-IsJustified identity method path none h (inl (e, l)) = inr (inl l)
  deny_below-IsJustified identity method path none h (inr (r, e, d)) = cc
  deny_below-IsJustified identity method path (some r) h (inl (e, l)) = cc
  deny_below-IsJustified identity method path (some r) h (inr (r', e, d)) =
      let same : r ≡ r' = cc in
      let named : (r == "") ≡ false =
        rw (same, ← d.role_of) (HasRole-mem endpoint_permissions table-HasRole d.listed) in
      elim (Bool-cases (ltb (level identity.user_role) (level r))) [
        | inl below ↦ rw (named, below) (h, (r', d, rw (← same) (ground arith)))
        | inr reached ↦ rw (named, reached) (inr (inr (r', d, rw (← same) (ground arith))))
      ]

  -- A user below the admin is refused for an operation only by a most specific permission of the table
  -- whose role is above the user's level, and is let through only if no permission applies or a most
  -- specific one is within that level.
  pub check_rbac-IsJustified :
      (identity : IdentityContext F) (method path : String)
      → IsJustified identity method path (check_rbac identity method path)
  unfolding check_rbac
  check_rbac-IsJustified identity method path =
      elim (Bool-cases (leb 3 (level identity.user_role))) [
        | inl admin ↦ rw admin (inl (ground arith))
        | inr other ↦ rw other (
            deny_below-IsJustified identity method path _ (ground arith)
              (most_specific_outcome method path endpoint_permissions none 0))
      ]
