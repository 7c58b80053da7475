-- ===== src/WifiPlane/Guard.antt =====
-- internal/wifiplane/guard.go: the boot guard. What the file system holds of it is a record, and which
-- of its calls succeed is an input. The package's script is a parameter.
pub mod Settled
use perch_apd.Base.{
  ℕ, Bool, true, false, not, ◌&&◌, ◌||◌, Option, none, some, List, [], ◌∷◌, ◌++◌, ◌==◌, bytes_eq,
  nat_eq, if◌then◌else◌, Bytes, codes, take,
}
use perch_apd.Base.Text.{contains}

pub data Status : Type 0 where
  installed self_installed missing : Status

pub record Script : Type 0 where
  pub content : Bytes
  pub executable : Bool

-- The script, `writeAtomic`'s temporary file, and whether the link in rc.d is there.
pub record Files : Type 0 where
  pub script : Option Script
  pub temporary : Option Script
  pub linked : Bool

-- Which calls succeed; whether a new temporary file is executable at once, which the umask decides; and
-- how many bytes reach it where a write, a sync or a close fails.
pub record Calls : Type 0 where
  pub stat_ok : Bool
  pub read_ok : Bool
  pub lstat_ok : Bool
  pub mkdir_ok : Bool
  pub open_ok : Bool
  pub write_ok : Bool
  pub sync_ok : Bool
  pub close_ok : Bool
  pub chmod_ok : Bool
  pub remove_ok : Bool
  pub rename_ok : Bool
  pub link_dir_ok : Bool
  pub symlink_ok : Bool
  pub opens_executable : Bool
  pub reached : ℕ

unfoldable pub self_installed_line : Bytes
self_installed_line =
    codes "# Installed by the perch-apd daemon: the package on this device did not ship it."

-- The text with a line behind its first one.
behind_first : Bytes → Bytes → Bytes
behind_first line [] = line
behind_first line (c ∷ s) =
    let rest = behind_first line s in if c == b'\n' then c ∷ (line ++ s) else c ∷ rest

abbrev has_newline : Bytes → Bool
has_newline s = contains s (b'\n' ∷ [])

pub with_line : Bytes → Bytes → Bytes
unfolding behind_first contains
with_line line script = if has_newline script then behind_first line script else line ++ script

-- `SelfInstalledScript`: a script without a line break comes behind the line.
unfoldable pub self_installed_script : Bytes → Bytes
self_installed_script script = with_line (self_installed_line ++ b'\n' ∷ []) script

abbrev is_self_installed : Bytes → Bool
is_self_installed b = contains b self_installed_line

status_of : Calls → Files → Script → Status
status_of v f s =
    if not v.stat_ok || not s.executable
    then missing
    else if not v.lstat_ok || not f.linked
    then missing
    else if not v.read_ok
    then missing
    else if is_self_installed s.content
    then self_installed
    else installed

-- `GuardStatus`.
unfoldable pub guard_status : Calls → Files → Status
unfolding status_of
guard_status v f = elim f.script [ none ↦ missing | some s ↦ status_of v f s ]

-- The temporary file opened: emptied, with its mode if it was there.
abbrev mode_of : Calls → Option Script → Bool
mode_of v none = v.opens_executable
mode_of v (some s) = s.executable

open_temporary : Calls → Files → Files
open_temporary v f = record f {
  temporary = some (record { content = []; executable = mode_of v f.temporary });
}

-- The temporary file with another content.
change_temporary : (Bytes → Bytes) → Files → Files
change_temporary g f = elim f.temporary [
  | none ↦ f
  | some s ↦ record f { temporary = some (record s { content = g s.content }) }
]

-- What a call leaves of the bytes that should be in the file: a failing one keeps some of them.
abbrev left_by : Bool → Calls → Bytes → Bytes
left_by fine v b = if fine then b else take v.reached b

chmod_temporary : Files → Files
chmod_temporary f = elim f.temporary [
  | none ↦ f
  | some s ↦ record f { temporary = some (record s { executable = true }) }
]

remove_temporary : Calls → Files → Files
remove_temporary v f = if v.remove_ok then record f { temporary = none } else f

rename_temporary : Files → Files
rename_temporary f = record f { script = f.temporary; temporary = none }

-- Behind the open.
finish_temporary : Calls → Bytes → Files → Files × Bool
unfolding change_temporary chmod_temporary remove_temporary rename_temporary
finish_temporary v content f =
    let wrote = change_temporary (λ b. left_by v.write_ok v content) f in
    let synced = change_temporary (left_by v.sync_ok v) wrote in
    let closed = change_temporary (left_by v.close_ok v) synced in
    let ready = chmod_temporary closed in
    if not v.write_ok
    then (remove_temporary v wrote, false)
    else if not v.sync_ok
    then (remove_temporary v synced, false)
    else if not v.close_ok
    then (remove_temporary v closed, false)
    else if not v.chmod_ok
    then (remove_temporary v closed, false)
    else if v.rename_ok
    then (rename_temporary ready, true)
    else (ready, false)

-- `writeAtomic` of an executable script, and whether it succeeds.
unfoldable pub write_atomic : Calls → Bytes → Files → Files × Bool
unfolding open_temporary finish_temporary
write_atomic v content f =
    if not v.mkdir_ok || not v.open_ok
    then (f, false)
    else finish_temporary v content (open_temporary v f)

-- What the `switch` of `EnsureGuard` leaves: the files, whether anything changed, and whether it goes on.
pub record Put : Type 0 where
  pub files : Files
  pub changed : Bool
  pub fine : Bool

put_script : Calls → Bytes → Files → Put
put_script v want f =
    let (f', done) = write_atomic v want f in record { files = f'; changed = done; fine = done }

make_executable : Calls → Files → Script → Put
make_executable v f s =
    if v.stat_ok && not s.executable
    then (if v.chmod_ok
        then record {
          files = record f { script = some (record s { executable = true }) };
          changed = true;
          fine = true;
        }
        else record { files = f; changed = false; fine = false })
    else record { files = f; changed = false; fine = true }

-- An unreadable script is an error, also one that is there.
unfoldable pub put_guard : Calls → Bytes → Files → Put
unfolding put_script make_executable write_atomic
put_guard v want f = elim f.script [
  | none ↦ put_script v want f
  | some s ↦
      if not v.read_ok
      then record { files = f; changed = false; fine = false }
      else if is_self_installed s.content && not (s.content == want)
      then put_script v want f
      else make_executable v f s
]

-- The status, whether anything changed, and whether there is no error.
pub record Ensured : Type 0 where
  pub files : Files
  pub status : Status
  pub changed : Bool
  pub fine : Bool

-- The link; a failing `Lstat` that does not say "not there" is passed over.
put_link : Calls → Put → Ensured
put_link v p =
    if v.lstat_ok && not p.files.linked
    then (if not v.link_dir_ok || not v.symlink_ok
        then record { files = p.files; status = missing; changed = p.changed; fine = false }
        else let linked = record p.files { linked = true } in
          record { files = linked; status = guard_status v linked; changed = true; fine = true })
    else record {
      files = p.files;
      status = guard_status v p.files;
      changed = p.changed;
      fine = true;
    }

-- `EnsureGuard`, with the script that the daemon writes.
ensure_script : Calls → Bytes → Files → Ensured
unfolding put_link put_guard guard_status
ensure_script v want f =
    let p = put_guard v want f in
    if p.fine
    then put_link v p
    else record { files = p.files; status = missing; changed = false; fine = false }

unfoldable pub ensure_guard : Calls → Bytes → Files → Ensured
unfolding ensure_script
ensure_guard v script f = ensure_script v (self_installed_script script) f
