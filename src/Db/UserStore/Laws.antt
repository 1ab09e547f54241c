-- ===== src/Db/UserStore/Laws.antt =====
-- What the statements on users keep, and whether there is a user.
use tax_ocr.Prelude.{
  String, ◌=ₛ◌, ◌≡◌, refl, subst, Bool, true, ◌||◌, List, [], ◌∷◌, ◌++◌, Bool-cases, inl, inr,
  arith,
}
use tax_ocr.Db.Types.{User}
use tax_ocr.Db.Rows.{exists}
use tax_ocr.Db.Monad.{ok, Tables, Store}
use tax_ocr.Db.Monad.Keeps.{Keeps, Keeps-statement, ok_tables}
use tax_ocr.Db.Monad.Returns.{statement_ok, bind_ok}
use tax_ocr.Db.ReviewerStore.Settled.{row_or_not_found_same}
use tax_ocr.Db.UserStore.{
  UserInput, get_user_by_id, has_any_user, create_user, insert_user, new_user,
}

pub get_user_by_id-keeps : {P : Tables → Type 0} (id : String) → Keeps P (get_user_by_id id)
unfolding get_user_by_id
get_user_by_id-keeps {P} id =
    Keeps-statement _ λ now t a t' h e. subst P (row_or_not_found_same _ t t' a e) h

-- The table has a user.
abbrev pub HasUser : Tables → Type 0
HasUser t = exists (λ (u : User). true) t.users ≡ true

pub has_any_user_ok :
    (s : Store) (b : Bool) → HasUser s.tables → (has_any_user s).0 ≡ ok b → b ≡ true
unfolding has_any_user
has_any_user_ok s b h e = ground (arith, h, statement_ok _ s b e)

pub has_any_user-keeps : {P : Tables → Type 0} → Keeps P has_any_user
unfolding has_any_user
has_any_user-keeps {P} = Keeps-statement _ λ now t a t' h e. subst P (ok_tables _ a t t' e) h

-- The user that was inserted is there.
exists-append : (us : List User) (u : User) → exists (λ (x : User). true) (us ++ u ∷ []) ≡ true
unfolding exists
exists-append [] u = refl
exists-append (x ∷ us) u = refl

insert_user_ok : (u a : User) (t t' : Tables) → insert_user u t ≡ ok (a, t') → HasUser t'
unfolding insert_user
insert_user_ok u a t t' e = ground (arith, exists-append t.users u, e)

pub create_user_ok :
    (input : UserInput) (s : Store) (u : User)
    → (create_user input s).0 ≡ ok u
    → HasUser (create_user input s).1.tables
unfolding create_user
create_user_ok input s u e =
    elim (Bool-cases (input.tenant_id =ₛ "" || input.name =ₛ "" || input.role =ₛ "")) [
      | inl q ↦ absurd (ground (arith, rw q at e))
      | inr q ↦
          let (id, _, same, inserted) = bind_ok _ _ s u (rw q at e) in
          rw q (rw same (insert_user_ok (new_user _ id input) u _ _ (statement_ok _ _ u inserted)))
    ]
