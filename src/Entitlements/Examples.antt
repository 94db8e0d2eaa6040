-- ===== src/Entitlements/Examples.antt =====
-- A run of the entitlements: an account whose row says "pro".
use slate_do.Prelude.{String, ◌≡◌, ◌⊎◌, some}
use slate_do.Entitlements.{limits_for_plan, resolve, plan_pro, AtLeastFree, resolve-limits_for_plan}

abbrev member : String
member = "user"

abbrev paid : String
paid = "pro"

resolve-limits_for_plan_example :
    (limits_for_plan (resolve member paid "stripe").plan
      ≡ some (resolve member paid "stripe").limits)
    × AtLeastFree (resolve member paid "stripe").limits
    × ((resolve member paid "stripe").plan ≡ plan_pro → (member ≡ "admin") ⊎ (paid ≡ plan_pro))
    × ((member ≡ "admin") ⊎ (paid ≡ plan_pro) → (resolve member paid "stripe").plan ≡ plan_pro)
resolve-limits_for_plan_example = resolve-limits_for_plan member paid "stripe"
