-- ===== src/AuthTable/Types/Laws.antt =====
-- Finding, adding and removing users.
use gate_control.Base.{
  false, [], ◌∷◌, ◌++◌, Option, none, some, if◌then◌else◌, All, ◌≡◌, refl, sym, ap, ◌∙◌, arith,
  Bool-cases, Option-cases, inl, inr,
}
use gate_control.Base.Text.{Str, str_eq}
use gate_control.Base.Text.Laws.{str_eq_iff, str_eq_sym, str_eq→eq}
use gate_control.AuthTable.Types.{
  AuthData, AuthTable, append_user, find_user, insert_user, erase_user,
}

-- Each login stands once.
abbrev pub HasDistinctLogins : AuthTable → Type 0
HasDistinctLogins [] = Unit
HasDistinctLogins ((login, d) ∷ t) = (find_user login t ≡ none) × HasDistinctLogins t

-- What a table answers when a login is not in its first part.
abbrev pub or_else {ℓ} : {A : Type ℓ} → Option A → Option A → Option A
or_else none o = o
or_else (some a) o = some a

find_user-append :
    (j k : Str) (d : AuthData) (t : AuthTable)
    → find_user j (append_user k d t)
      ≡ or_else (find_user j t) (if str_eq k j then some d else none)
unfolding find_user
find_user-append j k d [] = ground arith
find_user-append j k d ((name, x) ∷ t) = ground (arith, find_user-append j k d t)

-- An insertion keeps the answers that there were, and adds one if the login is new.
pub find_user-insert_user :
    (j k : Str) (d : AuthData) (t : AuthTable)
    → find_user j (insert_user k d t)
      ≡ or_else (find_user j t) (if str_eq k j then some d else none)
unfolding insert_user
find_user-insert_user j k d t = elim (Option-cases (find_user k t)) [
  | inl fresh ↦ rw fresh (find_user-append j k d t)
  | inr (x, old) ↦ elim (Bool-cases (str_eq k j)) [
    | inl same ↦
        let e : k ≡ j = str_eq→eq k j same in
        let known : find_user j t ≡ some x = ap (λ n. find_user n t) (sym e) ∙ old in
        rw (old, known)
    | inr other ↦ rw (old, other) (or_else_none (find_user j t))
  ]
]
  where
    or_else_none : (o : Option AuthData) → o ≡ or_else o none
    or_else_none none = refl
    or_else_none (some x) = refl

append_user-append : (k : Str) (d : AuthData) (t : AuthTable) → append_user k d t ≡ t ++ (k, d) ∷ []
append_user-append k d [] = refl
append_user-append k d (e ∷ t) = ap (◌∷◌ e) (append_user-append k d t)

pub insert_user-fresh :
    (k : Str) (d : AuthData) (t : AuthTable)
    → find_user k t ≡ none
    → insert_user k d t ≡ t ++ (k, d) ∷ []
unfolding insert_user
insert_user-fresh k d t h = rw h (append_user-append k d t)

-- A login that is not found is no entry's.
pub find_user-none :
    (k : Str) (t : AuthTable) → find_user k t ≡ none → All (λ e. str_eq e.0 k ≡ false) t
unfolding find_user
find_user-none k [] h = tt
find_user-none k ((name, x) ∷ t) h = ground (arith, find_user-none k t)

append_user-HasDistinctLogins :
    (k : Str) (d : AuthData) (t : AuthTable)
    → find_user k t ≡ none
    → HasDistinctLogins t
    → HasDistinctLogins (append_user k d t)
unfolding find_user
append_user-HasDistinctLogins k d [] h v = (refl, tt)
append_user-HasDistinctLogins k d ((name, x) ∷ t) h v =
    ground
      (arith, find_user-append name k d t, str_eq_sym k name, append_user-HasDistinctLogins k d t)

pub insert_user-HasDistinctLogins :
    (k : Str) (d : AuthData) (t : AuthTable)
    → HasDistinctLogins t
    → HasDistinctLogins (insert_user k d t)
unfolding insert_user
insert_user-HasDistinctLogins k d t v = elim (Option-cases (find_user k t)) [
  | inl fresh ↦ rw fresh (append_user-HasDistinctLogins k d t fresh v)
  | inr (x, old) ↦ rw old v
]

-- An erased login is gone, and every other keeps its data.
pub find_user-erase_user :
    (j k : Str) (t : AuthTable)
    → HasDistinctLogins t
    → find_user j (erase_user k t) ≡ (if str_eq k j then none else find_user j t)
unfolding find_user erase_user
find_user-erase_user j k [] v = ground arith
find_user-erase_user j k ((name, x) ∷ t) v =
    ground
      (arith, str_eq_iff name k, str_eq_iff k j, str_eq_iff name j, find_user-erase_user j k t v.1)

pub erase_user-HasDistinctLogins :
    (k : Str) (t : AuthTable) → HasDistinctLogins t → HasDistinctLogins (erase_user k t)
unfolding erase_user
erase_user-HasDistinctLogins k [] v = tt
erase_user-HasDistinctLogins k ((name, x) ∷ t) v =
    ground (arith, find_user-erase_user name k t v.1, erase_user-HasDistinctLogins k t v.1)
