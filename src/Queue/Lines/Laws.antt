-- ===== src/Queue/Lines/Laws.antt =====
-- What the loop over the lines keeps.
use tax_ocr.Prelude.{String, ◌=ₛ◌, Bool, ◌||◌, not, List, [], ◌∷◌, Bool-cases, inl, inr}
use tax_ocr.Float.{Float64}
use tax_ocr.GoStrings.Case.{UnicodeCase}
use tax_ocr.Ocr.Types.{LineItem}
use tax_ocr.Db.Types.{
  InvoiceItem, HitlQueueItem, ReviewerTask, RewardConfig, ClassificationRule as RuleRow,
}
use tax_ocr.Db.Monad.{Result, ok, err, Tables}
use tax_ocr.Db.Monad.Keeps.{Keeps, Keeps-pure, Keeps-try, Keeps-bind}
use tax_ocr.Db.ReviewerStore.Free.{
  create_task-keeps, next_reviewer_round_robin-keeps, expire_old_tasks-keeps,
}
use tax_ocr.Db.HitlStore.Laws.{create_hitl_item-keeps}
use tax_ocr.Db.InvoiceStore.Items.Laws.{create_invoice_item-keeps}
use tax_ocr.Reviewer.Service.Laws.{KeptByTasks, assign_for_hitl-keeps}
use tax_ocr.Classify.Learning.Laws.{classify_and_learn-keeps}
use tax_ocr.Queue.Job.{ProcessInvoicePayload, Worker}
use tax_ocr.Queue.Lines.{assigned, route, save_item, save_items}

-- The loop as the tables see it: it writes to four of them.
pub record KeptByLines (P : Tables → Type 0) : Type 0 where
  pub item_free : (t : Tables) (xs : List InvoiceItem) → P t → P (record t { invoice_items = xs })
  pub hitl_free : (t : Tables) (hs : List HitlQueueItem) → P t → P (record t { hitl_queue = hs })
  pub task_free : (t : Tables) (xs : List ReviewerTask) → P t → P (record t { reviewer_tasks = xs })
  pub rule_free :
      (t : Tables) (rs : List RuleRow) → P t → P (record t { classification_rules = rs })
  pub reward_free :
      (t : Tables) (cs : List RewardConfig) → P t → P (record t { reward_config = cs })

pub KeptByTasks-lines : {P : Tables → Type 0} → KeptByLines P → KeptByTasks P
KeptByTasks-lines k = record {
  hitl_free = k.hitl_free;
  reward_free = k.reward_free;
  creates = create_task-keeps k.task_free;
  picks = next_reviewer_round_robin-keeps k.task_free;
  expires = expire_old_tasks-keeps k.task_free;
}

module _ {P : Tables → Type 0} (k : KeptByLines P) (f : Float64) (u : UnicodeCase) (w : Worker f)
    (p : ProcessInvoicePayload) where
  assigned-keeps : (r : Result HitlQueueItem) → Keeps P (assigned f u w p r)
  unfolding assigned
  assigned-keeps (err e) = Keeps-pure tt
  assigned-keeps (ok hitl) = elim (Bool-cases w.has_reviewers) [
    | inl e ↦ rw e (assign_for_hitl-keeps (KeptByTasks-lines k) w.expire_minutes hitl)
    | inr e ↦ rw e (Keeps-pure tt)
  ]

  route-keeps :
      (matched : Bool) (asset_type : String) (r : Result InvoiceItem)
      → Keeps P (route f u w p matched asset_type r)
  unfolding route
  route-keeps matched asset_type (err e) = Keeps-pure tt
  route-keeps matched asset_type (ok saved) =
      elim (Bool-cases (not (asset_type =ₛ "pending" || not matched))) [
        | inl e ↦ rw e (Keeps-pure tt)
        | inr e ↦ rw e (
            Keeps-bind (Keeps-try (create_hitl_item-keeps k.hitl_free p.tenant_id saved.id _))
              λ h. assigned-keeps h)
      ]

  save_item-keeps : (matched : Bool) (x : LineItem f.F) → Keeps P (save_item f u w p matched x)
  unfolding save_item
  save_item-keeps matched x =
      Keeps-bind
        (classify_and_learn-keeps k.rule_free f u w.to_float w.to_numeric w.has_key w.ask _)
        λ class.
          Keeps-bind (Keeps-try (create_invoice_item-keeps k.item_free _))
            λ saved. route-keeps matched class.asset_type saved

  pub save_items-keeps :
      (matched : Bool) (xs : List (LineItem f.F)) → Keeps P (save_items f u w p matched xs)
  unfolding save_items
  save_items-keeps matched [] = Keeps-pure tt
  save_items-keeps matched (x ∷ xs) =
      Keeps-bind (save_item-keeps matched x) (λ y. save_items-keeps matched xs)
