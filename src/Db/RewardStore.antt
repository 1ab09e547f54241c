-- ===== src/Db/RewardStore.antt =====
-- backend/internal/db/reward_store.go: the rewards for the types of review tasks.
pub mod Laws
use tax_ocr.Prelude.{
  ℕ, String, ◌=ₛ◌, ◌==◌, ◌||◌, true, if◌then◌else◌, Option, none, some, List, [], ◌∷◌,
}
use tax_ocr.Db.Types.{RewardConfig}
use tax_ocr.Db.Rows.{Keyed, update_row}
use tax_ocr.Db.Keys.{refers, user_keyed}
use tax_ocr.Db.Monad.{
  not_found, invalid_input, query_failed, Result, ok, err, Tables, Db, pure, raise, statement,
  ◌>>=◌,
}

instance abbrev pub reward_keyed : Keyed RewardConfig
reward_keyed = record { key = λ r. r.id }

-- The rows come ordered by task type, which is unique; the order makes no difference to their use.
unfoldable pub list_reward_configs : Db (List RewardConfig)
list_reward_configs = statement (λ now t. ok (t.reward_config, t))

-- `out[c.TaskType] = c.Amount` for each row: the map as a function, 0 for a key that it lacks.
unfoldable pub amounts_of : List RewardConfig → (String → ℕ) → String → ℕ
amounts_of [] out = out
amounts_of (c ∷ cs) out = amounts_of cs (λ key. if key =ₛ c.task_type then c.amount else out key)

unfoldable pub get_reward_amounts : Db (String → ℕ)
get_reward_amounts = do configs ← list_reward_configs; pure (amounts_of configs (λ key. 0))

-- updated_by REFERENCES users, where an empty string is NULL
store_reward : Option (RewardConfig × List RewardConfig) → Tables → Result (RewardConfig × Tables)
store_reward none t = err not_found
store_reward (some (c, cs)) t =
    if c.updated_by =ₛ "" || refers c.updated_by t.users
    then ok (c, record t { reward_config = cs })
    else err query_failed

-- An amount in satang is never below 0, so `amount <= 0` is a test for 0.
unfoldable pub update_reward_config :
    (id : String) (amount : ℕ) (updated_by : String) → Db RewardConfig
unfolding store_reward
update_reward_config id amount updated_by =
    if amount == 0
    then raise invalid_input
    else statement λ now t.
      store_reward
        (update_row id (λ c. true)
          (λ c. record c { amount = amount; updated_by = updated_by; updated_at = now })
          t.reward_config)
        t
