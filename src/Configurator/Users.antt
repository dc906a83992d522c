-- ===== src/Configurator/Users.antt =====
-- What adding and deleting a user does to the table.
use gate_control.Base.{
  Bool, true, false, List, [], ◌∷◌, Option, none, some, is_some, if◌then◌else◌, ◌≡◌, ◌≢◌, inl, inr,
  refl, sym, ap, ◌∙◌, arith, some-elim, Option-cases,
}
use gate_control.Base.Chain.{bind-some}
use gate_control.Base.Text.{Str, str_eq}
use gate_control.Base.Text.Laws.{str_eq_iff}
use gate_control.AuthTable.Types.{AuthData, AuthTable, find_user, insert_user, erase_user}
use gate_control.AuthTable.Types.Laws.{
  HasDistinctLogins, or_else, find_user-insert_user, find_user-erase_user,
  insert_user-HasDistinctLogins, erase_user-HasDistinctLogins,
}
use gate_control.AuthTable.Split.{split_str}
use gate_control.Configurator.Prompts.{
  FirstGood, FirstPermissions, ask-FirstGood, ask_permissions-FirstPermissions,
}
use gate_control.Configurator.{
  ask, ask_permissions, next_line, is_empty, is_taken, add_to, delete_from,
}

-- What became of the other users, where one was added under a login that was not taken.
abbrev pub HasNew : Str → AuthData → AuthTable → AuthTable → Type 0
HasNew login d t t' =
    (login ≢ [])
    × (d.password ≢ [])
    × (find_user login t ≡ none)
    × ((name : Str) → find_user name t' ≡ (if str_eq login name then some d else find_user name t))

-- The user that was typed, line by line, and the table with that user.
pub record IsAdded (lines rest : List Str) (t t' : AuthTable) : Type 0 where
  pub login : Str
  pub data_of_user : AuthData
  pub behind_login : List Str
  pub behind_password : List Str
  pub behind_permissions : List Str
  pub login_typed : FirstGood (is_taken t) lines login behind_login
  pub password_typed : FirstGood is_empty behind_login data_of_user.password behind_password
  pub permissions_typed :
      FirstPermissions behind_password data_of_user.permissions behind_permissions
  pub groups_typed : data_of_user.map_groups ≡ split_str b';' (next_line behind_permissions).0
  pub behind_groups : rest ≡ (next_line behind_permissions).1
  pub has_new : HasNew login data_of_user t t'

not_empty : (s : Str) → is_empty s ≡ false → s ≢ []
not_empty [] h e = cc h
not_empty (c ∷ s) h e = absurd (cc e)

or_else-new :
    (d : AuthData) (o : Option AuthData) (b : Bool)
    → (b ≡ true → o ≡ none)
    → or_else o (if b then some d else none) ≡ (if b then some d else o)
or_else-new d none true h = refl
or_else-new d none false h = refl
or_else-new d (some x) true h = absurd (cc (h refl))
or_else-new d (some x) false h = refl

insert_user-HasNew :
    (login : Str) (d : AuthData) (t : AuthTable)
    → is_taken t login ≡ false
    → is_empty d.password ≡ false
    → HasNew login d t (insert_user login d t)
insert_user-HasNew login d t free given =
    let vacant : is_some (find_user login t) ≡ false = ground arith in
    elim (Option-cases (find_user login t)) [
      | inr (x, taken) ↦ absurd (cc (vacant, ap is_some taken))
      | inl fresh ↦ (
        not_empty login (ground arith),
        not_empty d.password given,
        fresh,
        λ name.
            find_user-insert_user name login d t
            ∙ or_else-new d (find_user name t) (str_eq login name)
                (λ e. sym (ap (λ n. find_user n t) ((str_eq_iff login name).0 e)) ∙ fresh),
      )
    ]

-- Where each login of the table stands once, a user is added with what is typed: the login is the
-- first line that is not empty and no login of the table, the password the next that is not empty,
-- the permissions the next that is a category, and the map groups are the items of the line behind
-- it. Every other login keeps its data, each stands once again, and what is typed behind those
-- lines is left.
pub add_to-IsAdded :
    (lines rest : List Str) (t t' : AuthTable)
    → HasDistinctLogins t
    → add_to lines t ≡ some (t', rest)
    → IsAdded lines rest t t' × HasDistinctLogins t'
unfolding add_to
add_to-IsAdded lines rest t t' distinct h =
    bind-some (ask (is_taken t) lines) _ h (λ (login, lines₁) asked_login h₁.
      bind-some (ask is_empty lines₁) _ h₁ (λ (password, lines₂) asked_password h₂.
        bind-some (ask_permissions lines₂) _ h₂ (λ (permissions, lines₃) asked_permissions h₃.
          let d : AuthData = record {
            permissions = permissions;
            map_groups = split_str b';' (next_line lines₃).0;
            password = password;
          } in
          let login_typed = ask-FirstGood (is_taken t) lines login lines₁ asked_login in
          let password_typed = ask-FirstGood is_empty lines₁ password lines₂ asked_password in
          let (_, _, _, free) = login_typed in
          let (_, _, _, given) = password_typed in
          some-elim (λ r. IsAdded lines r.1 t r.0 × HasDistinctLogins r.0) h₃
            (
              record {
                login = login;
                data_of_user = d;
                behind_login = lines₁;
                behind_password = lines₂;
                behind_permissions = lines₃;
                login_typed = login_typed;
                password_typed = password_typed;
                permissions_typed =
                    ask_permissions-FirstPermissions lines₂ permissions lines₃ asked_permissions;
                groups_typed = refl;
                behind_groups = refl;
                has_new = insert_user-HasNew login d t free given;
              },
              insert_user-HasDistinctLogins login d t distinct,
            ))))

-- Without a login: as the table was before, but for it.
abbrev pub HasLost : Str → AuthTable → AuthTable → Type 0
HasLost login t t' =
    (login ≢ [])
    × ((name : Str) → find_user name t' ≡ (if str_eq login name then none else find_user name t))

-- The login that was typed, and the table without it.
abbrev pub IsDeleted : List Str → List Str → AuthTable → AuthTable → Type 0
IsDeleted lines rest t t' = (login : Str) × FirstGood is_empty lines login rest × HasLost login t t'

without-absent :
    (o : Option AuthData) (b : Bool) → (b ≡ true → o ≡ none) → (if b then none else o) ≡ o
without-absent o true h = sym (h refl)
without-absent o false h = refl

erase_user-HasLost :
    (login : Str) (t : AuthTable)
    → HasDistinctLogins t
    → is_empty login ≡ false
    → let t' = (if is_some (find_user login t) then erase_user login t else t) in
      HasLost login t t' × HasDistinctLogins t'
erase_user-HasLost login t distinct given = elim (Option-cases (find_user login t)) [
  | inr (x, there) ↦ rw there (
    (not_empty login given, λ name. find_user-erase_user name login t distinct),
    erase_user-HasDistinctLogins login t distinct,
  )
  | inl missing ↦ rw missing (
    (
      not_empty login given,
      λ name. sym (
          without-absent (find_user name t) (str_eq login name)
            (λ e. sym (ap (λ n. find_user n t) ((str_eq_iff login name).0 e)) ∙ missing)),
    ),
    distinct,
  )
]

-- Where each login of the table stands once, the first line that is typed and not empty is a login
-- that is not in the table any more; every other login keeps its data, each stands once again, and
-- what is typed behind that line is left.
pub delete_from-IsDeleted :
    (lines rest : List Str) (t t' : AuthTable)
    → HasDistinctLogins t
    → delete_from lines t ≡ some (t', rest)
    → IsDeleted lines rest t t' × HasDistinctLogins t'
unfolding delete_from
delete_from-IsDeleted lines rest t t' distinct h =
    bind-some (ask is_empty lines) _ h (λ (login, lines₁) asked_login h₁.
      let typed = ask-FirstGood is_empty lines login lines₁ asked_login in
      let (_, _, _, given) = typed in
      let (lost, distinct') = erase_user-HasLost login t distinct given in
      some-elim (λ r. IsDeleted lines r.1 t r.0 × HasDistinctLogins r.0) h₁
        ((login, typed, lost), distinct'))
