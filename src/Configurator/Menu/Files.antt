-- ===== src/Configurator/Menu/Files.antt =====
-- The files that a run of the configurator writes are files of users.
use gate_control.Base.{
  suc, Bool, true, false, List, [], ◌∷◌, some, ◌≡◌, refl, some-elim, subst, All,
}
use gate_control.Base.Chain.{bind-some}
use gate_control.Base.Text.{Str}
use gate_control.AuthTable.Types.{AuthTable, find_user}
use gate_control.AuthTable.Types.Laws.{HasDistinctLogins}
use gate_control.AuthTable.File.{open_auth_table_from_file, save_auth_table_to_file, entries_text}
use gate_control.AuthTable.File.RoundTrip.{IsStorableEntry, open_auth_table_from_file-save}
use gate_control.Configurator.Saving.{IsEditable, Edits-IsEditing}
use gate_control.Configurator.{State, written_to, write_to_disk, no_file, start}
use gate_control.Configurator.Menu.{File, Write, Editor, weight, run}
use gate_control.Configurator.Menu.Writes.{last_write, IsWritten, main_menu-Gives}

-- The server reads back each user of the table that was open at the write, if the format can hold
-- them, from the path that was set then.
abbrev pub HoldsUsers : Write → Type 0
HoldsUsers (s, (path, contents)) =
    (t : AuthTable) × (s.auth_table ≡ some t)
    × (s.auth_file_path ≡ some path)
    × HasDistinctLogins t
    × (All IsStorableEntry t
        → (u : AuthTable) × (open_auth_table_from_file (some contents) ≡ some u)
          × ((login : Str) → find_user login u ≡ find_user login t))

saved-HoldsUsers :
    (open_ok : Bool) (s : State) (t : AuthTable) (path : Str) (file : Str × Str)
    → s.auth_table ≡ some t
    → s.auth_file_path ≡ some path
    → HasDistinctLogins t
    → written_to path (save_auth_table_to_file open_ok t) ≡ some file
    → HoldsUsers (s, file)
unfolding save_auth_table_to_file
saved-HoldsUsers true s t path file opened there distinct h =
    some-elim (λ f. HoldsUsers (s, f)) h
      (
        t,
        opened,
        there,
        distinct,
        λ storable. open_auth_table_from_file-save t (entries_text t) distinct storable refl,
      )
saved-HoldsUsers false s t path file opened there distinct h = absurd (cc h)

written-HoldsUsers :
    (can_open : Str → Bool) (disk : Str → File) (w : Write)
    → IsWritten can_open disk w
    → HoldsUsers w
unfolding write_to_disk
written-HoldsUsers can_open disk (s, file) (edits, wrote) =
    bind-some s.auth_table _ wrote (λ t opened h. bind-some s.auth_file_path _ h (λ path there h'.
      saved-HoldsUsers (can_open path) s t path file opened there
        (subst (λ o. IsEditable o (some t)) there
          (subst (IsEditable s.auth_file_path) opened (Edits-IsEditing edits tt)))
        h'))

files-HoldsUsers :
    (can_open : Str → Bool) (disk : Str → File) (ws : List Write)
    → All (IsWritten can_open disk) ws
    → All HoldsUsers ws
files-HoldsUsers can_open disk [] all = tt
files-HoldsUsers can_open disk (w ∷ ws) all =
    (written-HoldsUsers can_open disk w all.0, files-HoldsUsers can_open disk ws all.1)

-- Whatever is typed and whatever files there are, where the configurator ends, each of its writes
-- went to the path that was set, and wrote the table that was open, at that time: no login stood
-- twice in it, and where the format can hold all its users, the server reads back each of them and
-- no other from what was written. Each file holds the last that was written to it, and the others
-- are as they were.
pub run-HoldsUsers :
    (can_open : Str → Bool) (disk : Str → File) (lines : List Str) (e : Editor)
    → run can_open disk lines ≡ some e
    → All HoldsUsers e.written
      × ((path : Str) → e.disk path ≡ last_write path (disk path) e.written)
run-HoldsUsers can_open disk lines e h =
    let first : Editor = record { state = no_file; disk = disk; lines = lines; written = [] } in
    let proper =
      main_menu-Gives can_open disk (suc (weight lines)) first
        (record { edited = start; all_written = tt; on_disk = λ path. refl }) e h in
    (files-HoldsUsers can_open disk e.written proper.all_written, proper.on_disk)
