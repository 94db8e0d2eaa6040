-- ===== src/Boards/Examples/Lists.antt =====
-- Runs of the list operations and of the quota: the theorems' hypotheses hold there.
use slate_do.Prelude.{
  String, ◌≡◌, refl, true, false, List, [], ◌∷◌, string_eq, ◌∙◌, sym, ok, arith, text_iff,
}
use slate_do.Prelude.Int.{pos, negsuc}
use slate_do.Prelude.Text.{trim_space}
use slate_do.Prelude.Sort.{sort_by}
use slate_do.Boards.Database.{Database, account_limits_for_update, locked_bucket}
use slate_do.Boards.Quota.{StorageQuota, lock_storage_quota, apply}
use slate_do.Boards.Quota.Check.{Fits, Counted, SameRows, apply_exact}
use slate_do.Boards.Buckets.{
  ordered_buckets, create_bucket, release_inbox_marker, ensure_inbox_survives, next_sort_order,
}
use slate_do.Boards.Buckets.Change.{cascade, delete_tasks, delete_bucket}
use slate_do.Boards.Validation.{valid_list_color}
use slate_do.Boards.Buckets.Inbox.{IsMarked, Keeps}
use slate_do.Boards.Buckets.Reorder.{reorder_buckets, check_order, write_order}
use slate_do.Boards.Buckets.Reorder.Outcome.{Reordered, reorder_buckets-Reordered}
use slate_do.Boards.Buckets.History.{
  Call, create_list, delete_list, repair_inbox, reorder_lists, run, DrawsNew, run-Keeps,
}
use slate_do.Entitlements.{free_limits, resolve}
use slate_do.Boards.Examples.{list_row, waiting}

waiting-IsMarked : IsMarked waiting.buckets
waiting-IsMarked = record {
  keyed = λ k. ground (arith, text_iff "inbox" k, text_iff "later" k, different k);
  present = refl;
  single = λ u. ground arith;
}
  where
    different : (k : String) → "inbox" ≡ k → "later" ≡ k → ⊥
    different k a b = cc ((text_iff "inbox" "later").1 (a ∙ sym b))

-- A new Inbox takes the marker, the old Inbox is deleted, and the last Inbox is not.
abbrev calls : List Call
calls =
    create_list "ann"
      (record { name = "New"; goal = ""; color = ""; limit_count = pos 0; is_inbox = true }) 5 "new"
    ∷ delete_list "ann" "inbox"
    ∷ reorder_lists "ann" ("new" ∷ "later" ∷ []) 6
    ∷ delete_list "ann" "new"
    ∷ repair_inbox "ann" 7 "spare"
    ∷ []

calls-new : DrawsNew calls waiting
unfolding create_bucket release_inbox_marker ensure_inbox_survives next_sort_order valid_list_color
    delete_bucket delete_tasks cascade locked_bucket reorder_buckets check_order write_order
    ordered_buckets sort_by lock_storage_quota apply account_limits_for_update resolve trim_space
calls-new = ((refl, refl), (tt, (tt, (tt, ((refl, refl), tt)))))

run-Keeps_example : Keeps waiting.buckets (run calls waiting).buckets
run-Keeps_example = run-Keeps calls waiting calls-new

abbrev nearly_full : StorageQuota
nearly_full = record {
  user_id = "ann";
  limits = free_limits;
  usage = record { tasks = 1; content_bytes = 5 };
}

apply_exact_example :
    (Fits nearly_full (pos 1) (negsuc 4)
      → (after : Database) × (apply nearly_full waiting (pos 1) (negsuc 4) ≡ ok after))
    × ((after : Database)
        → apply nearly_full waiting (pos 1) (negsuc 4) ≡ ok after
        → Fits nearly_full (pos 1) (negsuc 4)
          × Counted nearly_full waiting after (pos 1) (negsuc 4)
          × SameRows waiting after)
apply_exact_example = apply_exact nearly_full waiting (pos 1) (negsuc 4) refl

abbrev swapped : Database
swapped = record waiting {
  buckets =
      record (list_row "inbox" true 0) { sort_order = pos 1; updated_at = 9 }
      ∷ record (list_row "later" false 1) { sort_order = pos 0; updated_at = 9 }
      ∷ [];
}

reorder_buckets-Reordered_example : Reordered waiting "ann" ("later" ∷ []) swapped
unfolding reorder_buckets check_order write_order ordered_buckets sort_by account_limits_for_update
    resolve
reorder_buckets-Reordered_example =
    reorder_buckets-Reordered waiting "ann" ("later" ∷ []) 9 swapped waiting-IsMarked.keyed refl
