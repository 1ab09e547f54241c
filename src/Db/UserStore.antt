-- ===== src/Db/UserStore.antt =====
-- backend/internal/db/tenant_store.go: the users, with the constraints of the migrations 003 and
-- 020.
pub mod Laws
use tax_ocr.Prelude.{
  runes, ℕ, String, ◌=ₛ◌, Bool, true, ◌&&◌, ◌||◌, not, if◌then◌else◌, Option, none, some, List, [],
  ◌∷◌, ◌++◌,
}
use tax_ocr.Db.Types.{User}
use tax_ocr.Db.Rows.{find, exists, delete_rows, update_row}
use tax_ocr.Db.Monad.{
  not_found, invalid_tenant, invalid_input, query_failed, Result, ok, err, Tables, Db, pure, raise,
  try, statement, ◌>>=◌, new_id,
}
use tax_ocr.Db.ReviewerStore.{row_or_not_found, unless_empty}
use tax_ocr.Db.TenantStore.{tenant_keyed, forget_verifier}
use tax_ocr.Db.Keys.{fits, user_keyed, refers}
use tax_ocr.Db.Listings.{newest_first}

-- SELECT … LIMIT 1 with no order: the first row of the table.
unfoldable pub first_row : {A : Type 0} → (A → Bool) → List A → Option A
first_row p [] = none
first_row p (x ∷ xs) = let rest = first_row p xs in if p x then some x else rest

-- An empty tenant id leaves its condition out.
unfoldable pub list_users : (tenant_id : String) → Db (List User)
list_users tenant_id = statement λ now t.
    ok (
      newest_first (λ u. tenant_id =ₛ "" || u.tenant_id =ₛ tenant_id) (λ u. u.created_at) t.users,
      t,
    )

unfoldable pub has_any_user : Db Bool
has_any_user = statement (λ now t. ok (exists (λ u. true) t.users, t))

unfoldable pub get_user_by_id : String → Db User
get_user_by_id id =
    statement
      λ now t. row_or_not_found (first_row (λ u. u.id =ₛ id && u.status =ₛ "active") t.users) t

unfoldable pub get_user_by_email : (email : String) → Db User
get_user_by_email email =
    statement λ now t.
      row_or_not_found (first_row (λ u. u.email =ₛ email && u.status =ₛ "active") t.users) t

unfoldable pub get_user_by_line_id : (line_user_id tenant_id : String) → Db User
get_user_by_line_id line_user_id tenant_id = statement λ now t.
    row_or_not_found
      (first_row
        (λ u. u.line_user_id =ₛ line_user_id && u.tenant_id =ₛ tenant_id && u.status =ₛ "active")
        t.users)
      t

-- CHECK (role IN ('admin', 'staff')), CHECK (status IN ('active', 'inactive'))
user_allowed : User → Bool
user_allowed u =
    (u.role =ₛ "admin" || u.role =ₛ "staff")
    && (u.status =ₛ "active" || u.status =ₛ "inactive")
    && fits 255 (runes u.name)
    && fits 255 (runes u.email)
    && fits 20 (runes u.phone)
    && fits 100 (runes u.line_user_id)
    && fits 255 (runes u.password_hash)

insert_user : User → Tables → Result (User × Tables)
insert_user u t =
    if not (user_allowed u) || refers u.id t.users
    then err query_failed
    else if not (refers u.tenant_id t.tenants)
    then err invalid_tenant
    else ok (u, record t { users = t.users ++ u ∷ [] })

-- What the caller gives of a user.
pub record UserInput : Type 0 where
  pub tenant_id : String
  pub name : String
  pub email : String
  pub phone : String
  pub line_user_id : String
  pub role : String
  pub status : String
  pub password_hash : String

new_user : ℕ → String → UserInput → User
new_user now id input = record {
  id = id;
  tenant_id = input.tenant_id;
  name = input.name;
  email = input.email;
  phone = input.phone;
  line_user_id = input.line_user_id;
  role = input.role;
  status = "active";
  password_hash = input.password_hash;
  created_at = now;
  updated_at = now;
}

unfoldable pub create_user : UserInput → Db User
unfolding user_allowed insert_user new_user
create_user input =
    if input.tenant_id =ₛ "" || input.name =ₛ "" || input.role =ₛ ""
    then raise invalid_input
    else do id ← new_id; statement (λ now t. insert_user (new_user now id input) t)

revise_user : ℕ → UserInput → User → User
revise_user now input u = record u {
  name = unless_empty input.name u.name;
  email = unless_empty input.email u.email;
  phone = unless_empty input.phone u.phone;
  line_user_id = unless_empty input.line_user_id u.line_user_id;
  role = unless_empty input.role u.role;
  status = unless_empty input.status u.status;
  updated_at = now;
}

store_user : Option (User × List User) → Tables → Result (User × Tables)
store_user none t = err not_found
store_user (some (u, us)) t =
    if user_allowed u then ok (u, record t { users = us }) else err query_failed

unfoldable pub update_user : (id : String) → UserInput → Db User
unfolding revise_user store_user user_allowed
update_user id input =
    statement λ now t. store_user (update_row id (λ u. true) (revise_user now input) t.users) t

-- The foreign keys to a user that refuse its deletion.
is_user_referenced : String → Tables → Bool
is_user_referenced id t =
    exists (λ d. d.user_id =ₛ id) t.document_imports
    || exists (λ h. h.resolved_by =ₛ id) t.hitl_queue
    || exists (λ v. v.verified_by =ₛ id) t.invoices
    || exists (λ c. c.updated_by =ₛ id) t.reward_config

remove_user : String → Option User → Tables → Result (Unit {0} × Tables)
remove_user id none t = err not_found
remove_user id (some u) t =
    if is_user_referenced id t
    then err query_failed
    else ok (
      tt,
      record t {
        users = delete_rows (λ x. x.id =ₛ id) t.users;
        vendors = forget_verifier (λ v. v =ₛ id) t.vendors;
      },
    )

unfoldable pub delete_user : String → Db (Unit {0})
unfolding is_user_referenced remove_user forget_verifier
delete_user id = statement (λ now t. remove_user id (find id t.users) t)

-- No password: such a user logs in by LINE alone.
liff_user : (line_user_id name tenant_id : String) → UserInput
liff_user line_user_id name tenant_id = record {
  tenant_id = tenant_id;
  name = name;
  email = "";
  phone = "";
  line_user_id = line_user_id;
  role = "staff";
  status = "";
  password_hash = "";
}

found_or_created : UserInput → Result User → Db User
found_or_created input (ok u) = pure u
found_or_created input (err not_found) = create_user input
found_or_created input (err e) = raise e

unfoldable pub get_or_create_liff_user : (line_user_id name tenant_id : String) → Db User
unfolding liff_user found_or_created
get_or_create_liff_user line_user_id name tenant_id = do
  u ← try (get_user_by_line_id line_user_id tenant_id)
  found_or_created (liff_user line_user_id name tenant_id) u
