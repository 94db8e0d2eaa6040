-- ===== src/Entitlements.antt =====
-- server/internal/entitlements/entitlements.go: plans, their limits, and how an account's plan is
-- resolved from its role and its entitlement row.
mod Examples
use slate_do.Prelude.{
  ℕ, ◌*◌, ◌≤◌, String, ◌≡◌, refl, ◌⊎◌, inl, inr, false, Option, none, some, arith, ◌==◌, string_eq,
  if◌then◌else◌, text_iff, Bool-cases,
}

abbrev pub plan_free : String
plan_free = "free"

abbrev pub plan_pro : String
plan_pro = "pro"

abbrev pub source_free : String
source_free = "free"

abbrev pub source_admin : String
source_admin = "admin"

pub record Limits : Type 0 where
  pub lists : ℕ
  pub active_items_per_list : ℕ
  pub agents : ℕ
  pub stored_tasks : ℕ
  pub stored_content_bytes : ℕ
  pub api_tokens : ℕ

pub record Entitlement : Type 0 where
  pub plan : String
  pub source : String
  pub limits : Limits

abbrev pub free_limits : Limits
free_limits = record {
  lists = 5;
  active_items_per_list = 20;
  agents = 1;
  stored_tasks = 500;
  stored_content_bytes = 10 * 1024 * 1024;
  api_tokens = 3;
}

abbrev pub pro_limits : Limits
pro_limits = record {
  lists = 45;
  active_items_per_list = 20;
  agents = 5;
  stored_tasks = 10_000;
  stored_content_bytes = 250 * 1024 * 1024;
  api_tokens = 20;
}

-- The catalogue is a map from plan names.
unfoldable pub limits_for_plan : String → Option Limits
limits_for_plan plan =
    if plan == plan_free
    then some free_limits
    else if plan == plan_pro
    then some pro_limits
    else none

abbrev pub free : Entitlement
free = record { plan = plan_free; source = source_free; limits = free_limits }

abbrev pub pro : String → Entitlement
pro source = record { plan = plan_pro; source = source; limits = pro_limits }

unfoldable pub resolve : String → String → String → Entitlement
resolve role plan source =
    if role == "admin" then pro source_admin else if plan == plan_pro then pro source else free

abbrev pub AtLeastFree : Limits → Type 0
AtLeastFree l =
    (free_limits.lists ≤ l.lists)
    × (free_limits.active_items_per_list ≤ l.active_items_per_list)
    × (free_limits.agents ≤ l.agents)
    × (free_limits.stored_tasks ≤ l.stored_tasks)
    × (free_limits.stored_content_bytes ≤ l.stored_content_bytes)
    × (free_limits.api_tokens ≤ l.api_tokens)

free≢pro : ¬ (plan_free ≡ plan_pro)
free≢pro h = cc ((text_iff plan_free plan_pro).1 h)

neither :
    (role plan : String)
    → (role == "admin") ≡ false
    → (plan == plan_pro) ≡ false
    → ¬ ((role ≡ "admin") ⊎ (plan ≡ plan_pro))
neither role plan a p (inl h) = cc (a, (text_iff role "admin").1 h)
neither role plan a p (inr h) = cc (p, (text_iff plan plan_pro).1 h)

-- Whatever the role and the entitlement row say, the account gets the catalogue's limits for the
-- plan that it is shown, none of them below those of Free; it is on Pro exactly when it is an
-- administrator or its row says "pro".
pub resolve-limits_for_plan :
    (role plan source : String)
    → (limits_for_plan (resolve role plan source).plan ≡ some (resolve role plan source).limits)
      × AtLeastFree (resolve role plan source).limits
      × ((resolve role plan source).plan ≡ plan_pro → (role ≡ "admin") ⊎ (plan ≡ plan_pro))
      × ((role ≡ "admin") ⊎ (plan ≡ plan_pro) → (resolve role plan source).plan ≡ plan_pro)
unfolding limits_for_plan resolve
resolve-limits_for_plan role plan source = elim (Bool-cases (role == "admin")) [
  | inl a ↦ rw a (refl, omega arith, λ _. inl ((text_iff role "admin").0 a), λ _. refl)
  | inr a ↦ rw a (elim (Bool-cases (plan == plan_pro)) [
    | inl p ↦ rw p (refl, omega arith, λ _. inr ((text_iff plan plan_pro).0 p), λ _. refl)
    | inr p ↦
        rw p (refl, omega arith, λ h. absurd (free≢pro h), λ h. absurd (neither role plan a p h))
  ])
]
