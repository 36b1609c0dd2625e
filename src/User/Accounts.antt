-- ===== src/User/Accounts.antt =====
-- The users' table (services/user-service/app/models.py) and `register_service` of
-- services/user-service/app/services/auth_service.py: ids and emails stay distinct, whatever a second
-- registration commits in between.
use micro_mart.Shared.{
  ℕ, suc, ◌<◌, ◌≡◌, refl, subst, ◌⊎◌, String, str_eq, eq_iff, eq_refl, Bool, none, some, List, [],
  ◌∷◌, ◌++◌, ◌==◌, if◌then◌else◌, arith, Option-cases, inl, inr, ok, err, first_where, All,
  All-append,
}
use micro_mart.Shared.Http.{plain_error}
use micro_mart.Shared.Session.{in_session}
use micro_mart.User.Table.{
  User, UserDb, RegisterRequest, Libraries, get_user_by_email, get_user_by_id,
}
use micro_mart.User.Service.{check_email, insert_user, register_service, new_user}

-- Every user is the only one of its id and of its email.
abbrev pub Distinct : List User → Type 0
Distinct [] = Unit
Distinct (u ∷ us) =
    ((get_user_by_id u.id us ≡ none) × (get_user_by_email u.email us ≡ none)) × Distinct us

pub record IsDirectory (db : UserDb) : Type 0 where
  pub numbered : All (λ u. u.id < db.next_user) db.users
  pub distinct : Distinct db.users

-- A user that is found by its email is found by its id.
pub found-get_user_by_id :
    (email : String) (us : List User) (u : User)
    → Distinct us
    → get_user_by_email email us ≡ some u
    → get_user_by_id u.id us ≡ some u
found-get_user_by_id email [] u d e = absurd (ground arith)
found-get_user_by_id email (x ∷ xs) u d e = ground (arith, found-get_user_by_id email xs u d.1)

find-append :
    (p : User → Bool) (us : List User) (u : User)
    → first_where p (us ++ u ∷ [])
      ≡ elim (first_where p us) [ some x ↦ some x | none ↦ if p u then some u else none ]
find-append p [] u = ground arith
find-append p (x ∷ xs) u = ground (arith, find-append p xs u)

pub append-Distinct :
    (us : List User) (u : User)
    → Distinct us
    → All (λ x. x.id < u.id) us
    → get_user_by_email u.email us ≡ none
    → Distinct (us ++ u ∷ [])
append-Distinct [] u d a e = ((refl, refl), tt)
append-Distinct (x ∷ xs) u d a e = (
  (
    ground (arith, find-append (λ y. y.id == x.id) xs u),
    ground (
      arith,
      find-append (λ y. str_eq y.email x.email) xs u,
      eq_iff x.email u.email,
      eq_iff u.email x.email,
    ),
  ),
  append-Distinct xs u d.1 a.1 (ground arith),
)

below_next : (n : ℕ) (us : List User) → All (λ u. u.id < n) us → All (λ u. u.id < suc n) us
below_next n [] a = tt
below_next n (x ∷ xs) a = (omega (arith, a.0), below_next n xs a.1)

module _ (libraries : Libraries) where
  abbrev pub with_user : RegisterRequest → ℕ → UserDb → UserDb
  with_user body salt db = record {
    users = db.users ++ new_user libraries body salt db.next_user ∷ [];
    next_user = suc db.next_user;
  }

  pub with_user-IsDirectory :
      (body : RegisterRequest) (salt : ℕ) (db : UserDb)
      → IsDirectory db
      → get_user_by_email body.email db.users ≡ none
      → IsDirectory (with_user body salt db)
  with_user-IsDirectory body salt db v e = record {
    numbered =
        All-append (λ u. u.id < suc db.next_user) db.users
          (new_user libraries body salt db.next_user ∷ [])
          (below_next db.next_user db.users v.numbered) (omega arith, tt);
    distinct =
        append-Distinct db.users (new_user libraries body salt db.next_user) v.distinct v.numbered
          e;
  }

  -- What a request to register comes to: the email is taken and nothing changes, or the user is the
  -- new last row.
  pub register_service_cases :
      (body : RegisterRequest) (salt : ℕ) (db : UserDb)
      → let out = in_session (register_service libraries body salt) db in
        (out ≡ (err (plain_error 409), db))
        ⊎ ((get_user_by_email body.email db.users ≡ none)
            × (out ≡ (
              ok (record { user_id = db.next_user; email = body.email }),
              with_user body salt db,
            )))
  unfolding register_service check_email insert_user
  register_service_cases body salt db =
      elim (Option-cases (get_user_by_email body.email db.users)) [
        | inl e ↦ inr (e, ground arith)
        | inr (u, e) ↦ inl (ground arith)
      ]

  pub register_service-IsDirectory :
      (body : RegisterRequest) (salt : ℕ) (db : UserDb)
      → IsDirectory db
      → IsDirectory (in_session (register_service libraries body salt) db).1
  register_service-IsDirectory body salt db v = elim (register_service_cases body salt db) [
    | inl e ↦ subst IsDirectory (ground arith) v
    | inr (f, e) ↦ subst IsDirectory (ground arith) (with_user-IsDirectory body salt db v f)
  ]

  -- The first look at the email changes nothing: with the constraint alone, a registration has the
  -- same answer and leaves the same database.
  pub register_service-insert_user :
      (body : RegisterRequest) (salt : ℕ) (db : UserDb)
      → in_session (register_service libraries body salt) db
        ≡ in_session (insert_user libraries body salt) db
  unfolding register_service check_email insert_user
  register_service-insert_user body salt db = ground arith

  -- The new user is found by its email.
  pub with_user-get_user_by_email :
      (body : RegisterRequest) (salt : ℕ) (db : UserDb)
      → get_user_by_email body.email db.users ≡ none
      → get_user_by_email body.email (with_user body salt db).users
        ≡ some (new_user libraries body salt db.next_user)
  with_user-get_user_by_email body salt db e = ground (
    arith,
    find-append (λ u. str_eq u.email body.email) db.users
        (new_user libraries body salt db.next_user),
    eq_refl body.email,
  )
