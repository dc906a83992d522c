-- ===== src/AuthTable/File/Lines.antt =====
-- Reading back the lines that were written, and one entry from its line.
use gate_control.Base.{
  ℕ, ◌+◌, ◌-◌, false, List, [], ◌∷◌, ◌++◌, some, length, drop, length-append, append_assoc, ◌==◌,
  ◌≡◌, ◌≢◌, refl, sym, ap, ◌∙◌, All, All-append, arith,
}
use gate_control.Base.Text.{Str, substr, find_char, find_from}
use gate_control.Base.Text.Laws.{Lacks, find_char-append, find_from-at, substr-at, drop-at}
use gate_control.AuthTable.Types.{AuthData, AuthorizationType, blocked, view, control, rank}
use gate_control.AuthTable.Split.{split_str, join_vector}
use gate_control.AuthTable.Stoi.{parse_permissions}
use gate_control.AuthTable.File.{parse_line}

-- What the file's format can hold.
pub record IsStorable (login : Str) (d : AuthData) : Type 0 where
  pub login_field : Lacks b':' login
  pub login_line : Lacks b'\n' login
  pub groups_item : All (Lacks b';') d.map_groups
  pub groups_field : All (Lacks b':') d.map_groups
  pub groups_line : All (Lacks b'\n') d.map_groups
  pub groups_some : d.map_groups ≢ ([] ∷ [])
  pub password_line : Lacks b'\n' d.password

pub Lacks-join_vector :
    (c d : ℕ) (v : List Str) → d ≢ c → All (Lacks c) v → Lacks c (join_vector d v)
unfolding join_vector
Lacks-join_vector c d [] ne h = tt
Lacks-join_vector c d (x ∷ []) ne h = h.0
Lacks-join_vector c d (x ∷ y ∷ v) ne h =
    All-append (λ b. b ≢ c) x _ h.0 (ne, Lacks-join_vector c d (y ∷ v) ne h.1)

pub parse_permissions-rank :
    (p : AuthorizationType) → parse_permissions ((b'0' + rank p) ∷ []) ≡ some p
unfolding parse_permissions
parse_permissions-rank blocked = refl
parse_permissions-rank view = refl
parse_permissions-rank control = refl

-- A line of four fields: where its delimiters are, and what stands between them.
module _ (a b c e l : Str) (ha : Lacks b':' a) (hb : Lacks b':' b) (hc : Lacks b':' c)
    (is : l ≡ a ++ (b':' ∷ (b ++ (b':' ∷ (c ++ (b':' ∷ e)))))) where
  from_second : l ≡ (a ++ b':' ∷ []) ++ (b ++ b':' ∷ (c ++ b':' ∷ e))
  from_second = is ∙ sym (append_assoc a (b':' ∷ []) _)

  from_third : l ≡ ((a ++ b':' ∷ []) ++ (b ++ b':' ∷ [])) ++ (c ++ b':' ∷ e)
  from_third =
      from_second
      ∙ ap (◌++◌ (a ++ b':' ∷ [])) (sym (append_assoc b (b':' ∷ []) _))
      ∙ sym (append_assoc (a ++ b':' ∷ []) (b ++ b':' ∷ []) _)

  from_password : l ≡ (((a ++ b':' ∷ []) ++ (b ++ b':' ∷ [])) ++ (c ++ b':' ∷ [])) ++ e
  from_password =
      from_third
      ∙ ap (◌++◌ ((a ++ b':' ∷ []) ++ (b ++ b':' ∷ []))) (sym (append_assoc c (b':' ∷ []) e))
      ∙ sym (append_assoc ((a ++ b':' ∷ []) ++ (b ++ b':' ∷ [])) (c ++ b':' ∷ []) e)

  length-one : (x : Str) → length (x ++ b':' ∷ []) ≡ length x + 1
  length-one x = omega (arith, length-append x (b':' ∷ []))

  abbrev second_at : ℕ
  second_at = length a + 1 + length b

  abbrev third_at : ℕ
  third_at = second_at + 1 + length c

  start_second : length a + 1 ≡ length (a ++ b':' ∷ [])
  start_second = omega (arith, length-one a)

  start_third : second_at + 1 ≡ length ((a ++ b':' ∷ []) ++ (b ++ b':' ∷ []))
  start_third =
      omega (arith, length-append (a ++ b':' ∷ []) (b ++ b':' ∷ []), length-one a, length-one b)

  start_password :
      third_at + 1 ≡ length (((a ++ b':' ∷ []) ++ (b ++ b':' ∷ [])) ++ (c ++ b':' ∷ []))
  start_password = omega (
    arith,
    length-append ((a ++ b':' ∷ []) ++ (b ++ b':' ∷ [])) (c ++ b':' ∷ []),
    start_third,
    length-one c,
  )

  length-line : length l ≡ third_at + 1 + length e
  length-line = omega (
    arith,
    ap length from_password,
    length-append (((a ++ b':' ∷ []) ++ (b ++ b':' ∷ [])) ++ (c ++ b':' ∷ [])) e,
    start_password,
  )

  pub parse_line-fields :
      {p : AuthorizationType} {groups : List Str}
      → parse_permissions b ≡ some p
      → split_str b';' c ≡ groups
      → parse_line l ≡ some (a, record { permissions = p; map_groups = groups; password = e })
  unfolding parse_line
  parse_line-fields hp hg =
      let f1 : find_char b':' l ≡ some (length a) =
        ap (find_char b':') is ∙ find_char-append b':' a _ ha in
      let f2 : find_from b':' l (length a + 1) ≡ some second_at =
        find_from-at (a ++ b':' ∷ []) b _ l (length a + 1) start_second b':' from_second hb in
      let f3 : find_from b':' l (second_at + 1) ≡ some third_at =
        find_from-at _ c e l (second_at + 1) start_third b':' from_third hc in
      let t2 : (length l == second_at) ≡ false = ground (arith, length-line) in
      let t3 : (length l == third_at) ≡ false = ground (arith, length-line) in
      let s1 : substr l 0 (length a) ≡ a = substr-at [] a _ l 0 refl (length a) refl is in
      let s2 : substr l (length a + 1) (second_at - length a - 1) ≡ b =
        substr-at _ b _ l (length a + 1) start_second _ (omega arith) from_second in
      let s3 : substr l (second_at + 1) (third_at - second_at - 1) ≡ c =
        substr-at _ c _ l (second_at + 1) start_third _ (omega arith) from_third in
      let s4 : drop (third_at + 1) l ≡ e = drop-at _ [] e l _ start_password from_password in
      rw (f1, f2, t2, f3, t3, s2, hp, s1, s3, hg, s4)
