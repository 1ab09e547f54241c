-- ===== src/Db/RewardStore/Laws.antt =====
-- What the statements on reward_config keep, and the amounts that they give.
use tax_ocr.Prelude.{
  ℕ, String, ◌=ₛ◌, ◌==◌, ◌||◌, ◌≡◌, subst, Option, none, some, List, true, Bool-cases, inl, inr,
  arith,
}
use tax_ocr.Db.Types.{RewardConfig}
use tax_ocr.Db.Rows.{update_row}
use tax_ocr.Db.Keys.{refers, user_keyed}
use tax_ocr.Db.Monad.{ok, Tables}
use tax_ocr.Db.Monad.Keeps.{ok_tables, Keeps, Keeps-pure, Keeps-raise, Keeps-bind, Keeps-statement}
use tax_ocr.Db.RewardStore.{
  reward_keyed, list_reward_configs, get_reward_amounts, store_reward, update_reward_config,
}

module _ {P : Tables → Type 0}
    (free : (t : Tables) (cs : List RewardConfig) → P t → P (record t { reward_config = cs })) where
  pub list_reward_configs-keeps : Keeps P list_reward_configs
  unfolding list_reward_configs
  list_reward_configs-keeps =
      Keeps-statement _ λ now t a t' p e. subst P (ok_tables t.reward_config a t t' e) p

  pub get_reward_amounts-keeps : Keeps P get_reward_amounts
  unfolding get_reward_amounts
  get_reward_amounts-keeps = Keeps-bind list_reward_configs-keeps (λ cs. Keeps-pure _)

  store_reward-keeps :
      (o : Option (RewardConfig × List RewardConfig)) (t t' : Tables) (a : RewardConfig)
      → P t
      → store_reward o t ≡ ok (a, t')
      → P t'
  unfolding store_reward
  store_reward-keeps none t t' a p e = absurd (ground arith)
  store_reward-keeps (some (c, cs)) t t' a p e =
      elim (Bool-cases (c.updated_by =ₛ "" || refers c.updated_by t.users)) [
        | inl q ↦ subst P (ok_tables c a _ t' (rw q at e)) (free t cs p)
        | inr q ↦ absurd (ground arith)
      ]

  pub update_reward_config-keeps :
      (id : String) (amount : ℕ) (updated_by : String)
      → Keeps P (update_reward_config id amount updated_by)
  unfolding update_reward_config
  update_reward_config-keeps id amount updated_by = elim (Bool-cases (amount == 0)) [
    | inl e ↦ rw e (Keeps-raise _)
    | inr e ↦ rw e (
        Keeps-statement _ λ now t a t' p q.
          store_reward-keeps
            (update_row id (λ c. true)
              (λ c. record c { amount = amount; updated_by = updated_by; updated_at = now })
              t.reward_config)
            t t' a p q)
  ]
