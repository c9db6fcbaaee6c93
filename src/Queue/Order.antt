-- ===== src/Queue/Order.antt =====
-- registry.py: the order of `list_queued`.
use mathlib.Core.List.{Perm}
use mathlib.Core.List.Perm
use codex_remote_runner.Prelude.{
  Bool-cases, filter, All, ◌==◌, nat_eq, string_eq, eq_of_beq, Result-cases, ℕ, ◌≤◌, String, ◌≡◌,
  refl, ap, ◌⊎◌, inl, inr, Bool, true, List, [], ◌∷◌, arith,
}
use codex_remote_runner.Text.{
  str_le, str_le_total, text_then-le, text_then-same, str_le_trans, number_then, text_then_total,
  text_then_trans, number_then_total, number_then_trans,
}
use codex_remote_runner.Sort.{
  sort_by, IsOrdered, IsSorted-IsOrdered, sort_by-perm, sort_by-All, sort_by-IsSorted,
}
use codex_remote_runner.Scheduling.{QueuePriority, urgent, priority_rank}
use codex_remote_runner.Queue.Job.{workload_eq, priority_eq}
use codex_remote_runner.Queue.State.{queued, status_eq}
use codex_remote_runner.Queue.Store.{
  Row, Queue, older, served_before, load_job, load_rows, list_jobs, list_queued,
}

served_before_total : (a b : Row) → (served_before a b ≡ true) ⊎ (served_before b a ≡ true)
served_before_total a b =
    number_then_total (priority_rank b.0.queue_priority) (priority_rank a.0.queue_priority) _ _ (
      number_then_total a.0.queue_position b.0.queue_position _ _
        (text_then_total a.0.created_at b.0.created_at _ _ (str_le_total a.0.run_id b.0.run_id)))

served_before_trans :
    (a b c : Row) → served_before a b ≡ true → served_before b c ≡ true → served_before a c ≡ true
served_before_trans a b c h k =
    descending_ranks (priority_rank a.0.queue_priority) (priority_rank b.0.queue_priority)
      (priority_rank c.0.queue_priority) _ _ _
      (number_then_trans a.0.queue_position b.0.queue_position c.0.queue_position _ _ _ (
        text_then_trans a.0.created_at b.0.created_at c.0.created_at _ _ _
          (str_le_trans a.0.run_id b.0.run_id c.0.run_id)))
      h k
  where
    descending_ranks :
        (a b c : ℕ) (r r' r'' : Bool)
        → (r ≡ true → r' ≡ true → r'' ≡ true)
        → number_then b a r ≡ true
        → number_then c b r' ≡ true
        → number_then c a r'' ≡ true
    descending_ranks a b c r r' r'' f h k = ground arith

-- When one row may be served before another.
pub record IsServedFirst (a b : Row) : Type 0 where
  pub urgent_first : b.0.queue_priority ≡ urgent → a.0.queue_priority ≡ urgent
  pub by_position :
      a.0.queue_priority ≡ b.0.queue_priority → a.0.queue_position ≤ b.0.queue_position
  pub by_age :
      a.0.queue_priority ≡ b.0.queue_priority
      → a.0.queue_position ≡ b.0.queue_position
      → str_le a.0.created_at b.0.created_at ≡ true
  pub by_run :
      a.0.queue_priority ≡ b.0.queue_priority
      → a.0.queue_position ≡ b.0.queue_position
      → a.0.created_at ≡ b.0.created_at
      → str_le a.0.run_id b.0.run_id ≡ true

urgent_outranks :
    (p q : QueuePriority) (rest : Bool)
    → number_then (priority_rank q) (priority_rank p) rest ≡ true
    → q ≡ urgent
    → p ≡ urgent
urgent_outranks p q rest h u = ground arith

equal_priorities :
    (p q : QueuePriority) (rest : Bool)
    → number_then (priority_rank q) (priority_rank p) rest ≡ true
    → p ≡ q
    → rest ≡ true
equal_priorities p q rest h e = ground arith

lower_number : (m n : ℕ) (rest : Bool) → number_then m n rest ≡ true → m ≤ n
lower_number m n rest h = ground arith

equal_numbers : (m n : ℕ) (rest : Bool) → number_then m n rest ≡ true → m ≡ n → rest ≡ true
equal_numbers m n rest h e = ground arith

served_before-IsServedFirst : (a b : Row) → served_before a b ≡ true → IsServedFirst a b
served_before-IsServedFirst a b h =
    let same_lane = λ (e : a.0.queue_priority ≡ b.0.queue_priority).
      equal_priorities a.0.queue_priority b.0.queue_priority _ h e in
    let same_place =
      λ (e : a.0.queue_priority ≡ b.0.queue_priority) (n : a.0.queue_position ≡ b.0.queue_position).
        equal_numbers a.0.queue_position b.0.queue_position _ (same_lane e) n in
    record {
      urgent_first = urgent_outranks a.0.queue_priority b.0.queue_priority _ h;
      by_position = λ e. lower_number a.0.queue_position b.0.queue_position _ (same_lane e);
      by_age = λ e n. text_then-le a.0.created_at b.0.created_at _ (same_place e n);
      by_run = λ e n c. text_then-same a.0.created_at b.0.created_at _ (same_place e n) c;
    }

module _ (sha256 : String → String) where
  load_rows-queued :
      (queue : Queue) (entries : List (String × Row))
      → All (λ row. row.1.status ≡ queued) (load_rows sha256 (λ s. s == queued) queue entries)
  unfolding load_rows
  load_rows-queued queue [] = tt
  load_rows-queued queue ((run_id, _) ∷ entries) =
      elim (Result-cases (load_job sha256 queue run_id)) [
        | inl (e, raised) ↦ rw (raised, load_rows) (load_rows-queued queue entries)
        | inr (row, loaded) ↦ elim (Bool-cases (row.1.status == queued)) [
          | inl yes_queued ↦
              rw (loaded, load_rows)
                (rw yes_queued
                  (eq_of_beq row.1.status queued yes_queued, load_rows-queued queue entries))
          | inr not_queued ↦ rw (loaded, load_rows) (rw not_queued (load_rows-queued queue entries))
        ]
      ]

  filter-eq :
      (rows : List Row)
      → All (λ row. row.1.status ≡ queued) rows
      → filter (λ row. row.1.status == queued) rows ≡ rows
  filter-eq [] h = refl
  filter-eq (row ∷ rows) h = ground (arith, filter-eq rows h.1)

  queued_rows : Queue → List Row
  queued_rows queue = load_rows sha256 (λ s. s == queued) queue queue

  list_queued-eq :
      (queue : Queue)
      → list_queued sha256 queue ≡ sort_by served_before (sort_by older (queued_rows queue))
  unfolding list_queued list_jobs queued_rows
  list_queued-eq queue = ap (sort_by served_before) (
      filter-eq (sort_by older (queued_rows queue)) (
        sort_by-All older (λ row. row.1.status ≡ queued) (queued_rows queue)
          (load_rows-queued queue queue)))

  -- Every listed row may be served before each later one: none that is normal stands before an
  -- urgent one; of one priority the positions do not fall, on equal positions the times of creation
  -- do not, and on equal times the run ids do not. The rows are all queued, and they are those that load and are
  -- queued, rearranged.
  pub list_queued-order :
      (queue : Queue)
      → IsOrdered IsServedFirst (list_queued sha256 queue)
        × All (λ row. row.1.status ≡ queued) (list_queued sha256 queue)
        × Perm (list_queued sha256 queue) (load_rows sha256 (λ s. s == queued) queue queue)
  unfolding queued_rows
  list_queued-order queue = rw (list_queued-eq queue) (
    IsSorted-IsOrdered served_before IsServedFirst served_before-IsServedFirst _ (
        sort_by-IsSorted served_before served_before_total served_before_trans
          (sort_by older (queued_rows queue))),
    sort_by-All served_before (λ row. row.1.status ≡ queued) (sort_by older (queued_rows queue))
        (sort_by-All older (λ row. row.1.status ≡ queued) (queued_rows queue)
          (load_rows-queued queue queue)),
    Perm.trans (sort_by-perm served_before (sort_by older (queued_rows queue)))
        (sort_by-perm older (queued_rows queue)),
  )
