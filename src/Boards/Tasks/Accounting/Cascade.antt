-- ===== src/Boards/Tasks/Accounting/Cascade.antt =====
-- The rows that the deletion of a task in server/internal/boards/store.go cascades to.
use slate_do.Prelude.{
  ℕ, zero, suc, String, ◌≡◌, Bool, true, false, ◌&&◌, List, [], ◌∷◌, ◌==◌, string_eq, any, length,
  All, arith, text_iff, sym, ◌∙◌, Bool-cases, inl, inr,
}
use slate_do.Boards.Types.{Task}
use slate_do.Boards.Buckets.Change.{cascade}
use slate_do.Boards.Tasks.Positions.{child_of}
use slate_do.Boards.Tasks.Delete.{with_children}

abbrev pub seeded : String → Task → Bool
seeded id t = t.id == id

-- No row stands below a child of the task.
abbrev pub Childless : List Task → String → Task → Type 0
Childless tasks id t = All (λ p. child_of id p ≡ true → (p.id == t.parent_task_id) ≡ false) tasks

any-All :
    {P : Task → Type 0} (q : Task → Bool) (tasks : List Task)
    → any q tasks ≡ true
    → All P tasks
    → (p : Task) × (q p ≡ true) × P p
any-All q [] h a = cc
any-All q (x ∷ tasks) h a = elim (Bool-cases (q x)) [
  | inl e ↦ (x, e, a.0)
  | inr e ↦ any-All q tasks (ground (arith, h, e)) a.1
]

any-implies :
    (q r : Task → Bool) (tasks : List Task)
    → ((x : Task) → q x ≡ true → r x ≡ true)
    → any q tasks ≡ true
    → any r tasks ≡ true
any-implies q r [] f h = h
any-implies q r (x ∷ tasks) f h = ground (arith, h, f x, any-implies q r tasks f)

pub All-both :
    (P Q : Task → Type 0) (tasks : List Task)
    → All P tasks
    → All Q tasks
    → All (λ t. P t × Q t) tasks
All-both P Q [] a b = tt
All-both P Q (x ∷ tasks) a b = ((a.0, b.0), All-both P Q tasks a.1 b.1)

-- The cascade reaches nothing but the task and its children.
cascade-within :
    (tasks : List Task) (id : String) (n : ℕ) (t : Task)
    → (id == "") ≡ false
    → All (Childless tasks id) tasks
    → Childless tasks id t
    → cascade n tasks (seeded id) t ≡ true
    → with_children id t ≡ true
unfolding cascade
cascade-within tasks id zero t named flat g h = ground (arith, h)
cascade-within tasks id (suc n) t named flat g h = elim (Bool-cases (t.id == id)) [
  | inl e ↦ ground (arith, e)
  | inr e ↦
      let some_parent : any (λ p. p.id == t.parent_task_id && cascade n tasks (seeded id) p) tasks
          ≡ true =
        ground (arith, h, e) in
      let (p, both, f) = any-All _ tasks some_parent (All-both _ _ tasks flat g) in
      let up = cascade-within tasks id n p named flat f.0 (ground (arith, both)) in
      ground (
        arith,
        up,
        both,
        f.1,
        e,
        named,
        text_iff p.id id,
        text_iff p.id t.parent_task_id,
        text_iff t.parent_task_id id,
        text_iff t.parent_task_id "",
        text_iff id "",
      )
]

cascade-seed :
    (tasks : List Task) (seed : Task → Bool) (n : ℕ) (t : Task)
    → seed t ≡ true
    → cascade n tasks seed t ≡ true
unfolding cascade
cascade-seed tasks seed zero t h = h
cascade-seed tasks seed (suc n) t h = ground (arith, h)

-- It reaches the task and its children.
cascade-reaches :
    (tasks : List Task) (id : String) (n : ℕ) (t : Task)
    → any (seeded id) tasks ≡ true
    → with_children id t ≡ true
    → cascade (suc n) tasks (seeded id) t ≡ true
unfolding cascade
cascade-reaches tasks id n t there h = elim (Bool-cases (t.id == id)) [
  | inl e ↦ ground (arith, e)
  | inr e ↦
      let child : t.parent_task_id ≡ id = ground (arith, h, e, text_iff t.parent_task_id id) in
      let reached =
        any-implies (seeded id) (λ p. p.id == t.parent_task_id && cascade n tasks (seeded id) p)
          tasks
          (λ p q. ground (
            arith,
            q,
            child,
            cascade-seed tasks (seeded id) n p q,
            text_iff p.id id,
            text_iff p.id t.parent_task_id,
          ))
          there in
      ground (arith, reached)
]

-- On the rows of the table, the cascade is the test of the operation.
pub exactly :
    (tasks : List Task) (id : String) (t : Task)
    → (id == "") ≡ false
    → any (seeded id) tasks ≡ true
    → All (Childless tasks id) tasks
    → Childless tasks id t
    → cascade (length tasks) tasks (seeded id) t ≡ with_children id t
exactly [] id t named there flat g = cc
exactly (x ∷ tasks) id t named there flat g = elim (Bool-cases (with_children id t)) [
  | inl e ↦ cascade-reaches (x ∷ tasks) id (length tasks) t there e ∙ sym e
  | inr e ↦ elim (Bool-cases (cascade (suc (length tasks)) (x ∷ tasks) (seeded id) t)) [
    | inl c ↦ c ∙ sym (cascade-within (x ∷ tasks) id (suc (length tasks)) t named flat g c)
    | inr c ↦ c ∙ sym e
  ]
]
