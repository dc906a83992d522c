-- ===== src/Startup.antt =====
-- src/main.cpp: the arguments of the server, the files they name, and what it serves with.
pub mod Arguments
use gate_control.Base.{
  ℕ, zero, suc, ◌%◌, ◌^◌, ◌-◌, List, [], ◌∷◌, Option, none, some, length, ltb, ◌==◌, if◌then◌else◌,
}
use gate_control.Base.Text.{Str}
use gate_control.Base.Int.{ℤ, pos, negsuc}
use gate_control.Base.Outcome.{Outcome, ok, raised, undefined}
use gate_control.Json.{JsonLib}
use gate_control.AuthTable.Types.{AuthTable}
use gate_control.AuthTable.Stoi.{stoi}
use gate_control.AuthTable.File.{open_auth_table_from_file}
use gate_control.Config.{GcConfig, open_from_file}

-- `argv[i]`, which is there where it is read.
abbrev pub argument : ℕ → List Str → Str
argument n [] = []
argument zero (x ∷ args) = x
argument (suc n) (x ∷ args) = argument n args

abbrev pub default_port : ℕ
default_port = 80

-- The test of the port and its cast to `unsigned short`; `none` is a message and an exit.
abbrev pub narrow_port : Option ℤ → Option ℕ
narrow_port none = none
narrow_port (some (negsuc n)) = none
narrow_port (some (pos n)) = if ltb (2 ^ 16 - 1) n then none else some (n % 2 ^ 16)

unfoldable pub port_of : List Str → Option ℕ
port_of argv = if length argv == 6 then narrow_port (stoi (argument 5 argv)) else some default_port

module _ (J : JsonLib) (Address : Type 0) (make_address_v4 : Str → Option Address)
    (default_address : Address) (read : Str → Option Str) where
  pub record Setup : Type 0 where
    pub com_port : Str
    pub address : Address
    pub port : ℕ
    pub auth_table : AuthTable
    pub config : GcConfig J

  unfoldable pub address_of : List Str → Option Address
  address_of argv =
      if length argv == 5 then make_address_v4 (argument 4 argv) else some default_address

  abbrev pub with_config :
      List Str → Address → ℕ → AuthTable → Outcome (Option (GcConfig J)) → Outcome (Option Setup)
  with_config argv address port auth_table (ok none) = ok none
  with_config argv address port auth_table (ok (some config)) = ok (
      some (record {
        com_port = argument 1 argv;
        address = address;
        port = port;
        auth_table = auth_table;
        config = config;
      }))
  with_config argv address port auth_table raised = ok none
  with_config argv address port auth_table undefined = undefined

  abbrev pub with_table :
      List Str → Option Address → Option ℕ → Option AuthTable → Outcome (Option Setup)
  with_table argv none port table = ok none
  with_table argv (some address) none table = ok none
  with_table argv (some address) (some port) none = ok none
  with_table argv (some address) (some port) (some table) =
      with_config argv address port table (open_from_file J (read (argument 3 argv)))

  -- `main` up to the start of the server; `none` is an exit with code 1.
  unfoldable pub start : List Str → Outcome (Option Setup)
  unfolding port_of address_of
  start argv =
      if ltb (length argv) 4
      then ok none
      else with_table argv (address_of argv) (port_of argv)
          (open_auth_table_from_file (read (argument 2 argv)))
