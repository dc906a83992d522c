-- ===== src/Startup/Arguments.antt =====
-- What the server starts with.
use gate_control.Base.{
  ℕ, ◌%◌, ◌^◌, ◌<◌, ◌≤◌, ◌-◌, List, Option, none, some, length, ltb, ◌==◌, ==_iff, ◌≡◌, ◌≢◌, refl,
  sym, ap, ◌∙◌, inl, inr, arith, Bool-cases, some-elim,
}
use gate_control.Base.Text.{Str}
use gate_control.Base.Int.{pos, negsuc, ℤ}
use gate_control.Base.Outcome.{Outcome, ok, raised, undefined, ok-elim}
use gate_control.Json.{JsonLib}
use gate_control.AuthTable.Types.{AuthTable}
use gate_control.AuthTable.Types.Laws.{HasDistinctLogins}
use gate_control.AuthTable.Stoi.{stoi}
use gate_control.AuthTable.File.{open_auth_table_from_file}
use gate_control.AuthTable.File.RoundTrip.{open_auth_table_from_file-first}
use gate_control.Config.{GcConfig, open_from_file}
use gate_control.Startup.{
  argument, default_port, narrow_port, port_of, Setup, address_of, with_config, with_table, start,
}

narrow_port-value :
    (i : Option ℤ) (p : ℕ) → narrow_port i ≡ some p → (i ≡ some (pos p)) × (p < 2 ^ 16)
narrow_port-value none p h = absurd (cc h)
narrow_port-value (some (negsuc n)) p h = absurd (cc h)
narrow_port-value (some (pos n)) p h = elim (Bool-cases (ltb (2 ^ 16 - 1) n)) [
  | inl large ↦ let e : narrow_port (some (pos n)) ≡ none = rw large in absurd (cc (e, h))
  | inr small ↦
      let e : narrow_port (some (pos n)) ≡ some (n % 2 ^ 16) = rw small in
      let bound : n < 2 ^ 16 = ground arith in
      let same : n % 2 ^ 16 ≡ n = omega (arith, bound) in
      some-elim (λ p. (some (pos n) ≡ some (pos p)) × (p < 2 ^ 16)) (sym e ∙ h)
        (ap (λ k. some (pos k)) (sym same), omega (arith, same, bound))
]

-- The port is the argument's, if there are six, and else the default.
abbrev pub IsPort : List Str → ℕ → Type 0
IsPort argv p =
    (p < 2 ^ 16)
    × (length argv ≡ 6 → stoi (argument 5 argv) ≡ some (pos p))
    × (length argv ≢ 6 → p ≡ default_port)

port_of-IsPort : (argv : List Str) (p : ℕ) → port_of argv ≡ some p → IsPort argv p
unfolding port_of
port_of-IsPort argv p h = elim (Bool-cases (length argv == 6)) [
  | inl six ↦
      let (value, small) = narrow_port-value (stoi (argument 5 argv)) p (sym (rw six refl) ∙ h) in
      (small, (λ _. value), λ other. absurd (other ((==_iff _ _).0 six)))
  | inr other ↦
      let e : port_of argv ≡ some default_port = rw other in
      some-elim (IsPort argv) (sym e ∙ h)
        (omega arith, (λ six. absurd (cc ((==_iff _ _).1 six, other))), λ _. refl)
]

module _ (J : JsonLib) (Address : Type 0) (make_address_v4 : Str → Option Address)
    (default_address : Address) (read : Str → Option Str) where
  -- The address is the argument's, if there are five, and else the default.
  abbrev pub IsAddress : List Str → Address → Type 0
  IsAddress argv a =
      (length argv ≡ 5 → make_address_v4 (argument 4 argv) ≡ some a)
      × (length argv ≢ 5 → a ≡ default_address)

  address_of-IsAddress :
      (argv : List Str) (a : Address)
      → address_of J Address make_address_v4 default_address read argv ≡ some a
      → IsAddress argv a
  unfolding address_of
  address_of-IsAddress argv a h = elim (Bool-cases (length argv == 5)) [
    | inl five ↦ ((λ _. sym (rw five refl) ∙ h), λ other. absurd (other ((==_iff _ _).0 five)))
    | inr other ↦
        let e : address_of J Address make_address_v4 default_address read argv
            ≡ some default_address =
          rw other in
        some-elim (IsAddress argv) (sym e ∙ h)
          ((λ five. absurd (cc ((==_iff _ _).1 five, other))), λ _. refl)
  ]

  abbrev pub IsSetup : List Str → Setup J Address make_address_v4 default_address read → Type 0
  IsSetup argv s =
      (4 ≤ length argv)
      × IsAddress argv s.address
      × IsPort argv s.port
      × (open_auth_table_from_file (read (argument 2 argv)) ≡ some s.auth_table)
      × HasDistinctLogins s.auth_table
      × (open_from_file J (read (argument 3 argv)) ≡ ok (some s.config))
      × (s.com_port ≡ argument 1 argv)

  opened-HasDistinctLogins :
      (contents : Option Str) (t : AuthTable)
      → open_auth_table_from_file contents ≡ some t
      → HasDistinctLogins t
  unfolding open_auth_table_from_file
  opened-HasDistinctLogins none t h = absurd (cc h)
  opened-HasDistinctLogins (some contents) t h =
      let (u, opened, distinct, _) = open_auth_table_from_file-first contents in
      some-elim HasDistinctLogins (sym opened ∙ h) distinct

  -- The parts that a setup is made of.
  abbrev Makes :
      List Str
      → Option Address
      → Option ℕ
      → Option AuthTable
      → Setup J Address make_address_v4 default_address read
      → Type 0
  Makes argv oa op ot s =
      (oa ≡ some s.address)
      × (op ≡ some s.port)
      × (ot ≡ some s.auth_table)
      × (open_from_file J (read (argument 3 argv)) ≡ ok (some s.config))
      × (s.com_port ≡ argument 1 argv)

  with_config-Makes :
      (argv : List Str) (a : Address) (p : ℕ) (t : AuthTable) (o : Outcome (Option (GcConfig J)))
      (s : Setup J Address make_address_v4 default_address read)
      → open_from_file J (read (argument 3 argv)) ≡ o
      → with_config J Address make_address_v4 default_address read argv a p t o ≡ ok (some s)
      → Makes argv (some a) (some p) (some t) s
  with_config-Makes argv a p t (ok none) s e h = absurd (cc h)
  with_config-Makes argv a p t (ok (some c)) s e h =
      let h' = ok-elim (λ o. o ≡ some s) (sym h) refl in
      some-elim (Makes argv (some a) (some p) (some t)) h' (refl, refl, refl, e, refl)
  with_config-Makes argv a p t raised s e h = absurd (cc h)
  with_config-Makes argv a p t undefined s e h = absurd (cc h)

  with_table-Makes :
      (argv : List Str) (oa : Option Address) (op : Option ℕ) (ot : Option AuthTable)
      (s : Setup J Address make_address_v4 default_address read)
      → with_table J Address make_address_v4 default_address read argv oa op ot ≡ ok (some s)
      → Makes argv oa op ot s
  with_table-Makes argv none op ot s h = absurd (cc h)
  with_table-Makes argv (some a) none ot s h = absurd (cc h)
  with_table-Makes argv (some a) (some p) none s h = absurd (cc h)
  with_table-Makes argv (some a) (some p) (some t) s h = with_config-Makes argv a p t _ s refl h

  -- A server that starts has three arguments at least, a table and a configuration that the files
  -- of the second and third hold, and the first as its port to the Arduino. It listens on the
  -- address of the fourth argument if that is the last, and on the port of the fifth if that is; in
  -- every other case on the defaults. So an address in front of a port is not used.
  pub start-IsSetup :
      (argv : List Str) (s : Setup J Address make_address_v4 default_address read)
      → start J Address make_address_v4 default_address read argv ≡ ok (some s)
      → IsSetup argv s
  unfolding start
  start-IsSetup argv s h = elim (Bool-cases (ltb (length argv) 4)) [
    | inl few ↦
        let e : start J Address make_address_v4 default_address read argv ≡ ok none = rw few in
        absurd (cc (e, h))
    | inr enough ↦
        let (address, port, table, config, device) =
          with_table-Makes argv (address_of J Address make_address_v4 default_address read argv)
            (port_of argv) (open_auth_table_from_file (read (argument 2 argv))) s
            (sym (rw enough refl) ∙ h) in
        (
          ground arith,
          address_of-IsAddress argv s.address address,
          port_of-IsPort argv s.port port,
          table,
          opened-HasDistinctLogins (read (argument 2 argv)) s.auth_table table,
          config,
          device,
        )
  ]
