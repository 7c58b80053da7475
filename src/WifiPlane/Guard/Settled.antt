-- ===== src/WifiPlane/Guard/Settled.antt =====
-- internal/wifiplane/guard.go: what `EnsureGuard` leaves behind.
use perch_apd.Base.{
  true, false, ◌⊎◌, none, some, [], ◌∷◌, ◌++◌, ◌≡◌, ◌≢◌, append_assoc, arith, ◌==◌, bytes_eq,
  nat_eq, Bytes, beq_self, if-cases,
}
use perch_apd.Base.Text
use perch_apd.Base.Text.{contains, contains-append, contains-cons}
use perch_apd.WifiPlane.Guard.{
  installed, self_installed, missing, Script, Files, Calls, self_installed_line, behind_first,
  self_installed_script, guard_status, write_atomic, ensure_guard, has_newline, with_line, Ensured,
}

contains-behind_first :
    (line s : Bytes)
    → contains s (b'\n' ∷ []) ≡ true
    → contains (behind_first (line ++ b'\n' ∷ []) s) line ≡ true
unfolding behind_first contains Text.has_prefix
contains-behind_first line [] h = cc
contains-behind_first line (c ∷ s) h =
    let back = λ (t : Bytes) (more : contains t line ≡ true). contains-cons c t line more in
    if-cases (λ r. contains r line ≡ true) (c ∷ ((line ++ b'\n' ∷ []) ++ s))
      (c ∷ behind_first (line ++ b'\n' ∷ []) s) (c == b'\n')
      (λ _. back _ (rw (append_assoc line (b'\n' ∷ []) s) (contains-append [] line (b'\n' ∷ s))))
      (λ other. back _ (contains-behind_first line s (ground arith)))

contains-with_line :
    (line script : Bytes) → contains (with_line (line ++ b'\n' ∷ []) script) line ≡ true
unfolding with_line
contains-with_line line script =
    if-cases (λ r. contains r line ≡ true) (behind_first (line ++ b'\n' ∷ []) script)
      ((line ++ b'\n' ∷ []) ++ script) (has_newline script) (contains-behind_first line script)
      (λ _. rw (append_assoc line (b'\n' ∷ []) script) (contains-append [] line (b'\n' ∷ script)))

contains-self_installed_script :
    (script : Bytes) → contains (self_installed_script script) self_installed_line ≡ true
unfolding self_installed_script
contains-self_installed_script script = contains-with_line self_installed_line script

-- What holds of the guard when `EnsureGuard` has no error to report.
pub record IsSettled (v : Calls) (script : Bytes) (f : Files) (r : Ensured) : Type 0 where
  pub in_place : r.status ≢ missing
  pub reported : guard_status v r.files ≡ r.status
  pub again :
      ensure_guard v script r.files
      ≡ record { files = r.files; status = r.status; changed = false; fine = true }
  pub fresh : f.script ≡ none → r.status ≡ self_installed
  -- A script of the package is left as it is, and only made executable.
  pub packaged :
      (s : Script)
      → f.script ≡ some s
      → contains s.content self_installed_line ≡ false
      → (r.files.script ≡ some (record s { executable = true })) × (r.status ≡ installed)
  -- An older daemon's script is replaced.
  pub renewed :
      (s : Script)
      → f.script ≡ some s
      → contains s.content self_installed_line ≡ true
      → (r.files.script
          ≡ some (record { content = self_installed_script script; executable = true }))
        × (r.status ≡ self_installed)

-- The boot guard after `EnsureGuard` without an error, where the reads succeed: it is in place, the
-- status is the one that `GuardStatus` reports, and to ensure it again changes nothing. A missing script
-- is written; the package's own script keeps its text; a script of an older daemon is replaced by this
-- one's.
pub ensure_guard-IsSettled :
    (v : Calls) (script : Bytes) (f : Files)
    → v.stat_ok ≡ true
    → v.read_ok ≡ true
    → v.lstat_ok ≡ true
    → (ensure_guard v script f).fine ≡ true
    → IsSettled v script f (ensure_guard v script f)
unfolding ensure_guard
ensure_guard-IsSettled v script f stat read lstat fine =
    let marked = contains-self_installed_script script in
    let same = beq_self (self_installed_script script) in
    record {
      in_place = ground (arith, marked);
      reported = ground (arith, marked);
      again = ground (arith, marked, same);
      fresh = ground (arith, marked);
      packaged = λ s had plain. (ground (arith, marked), ground (arith, marked));
      renewed = λ s had old. (
        ground (arith, marked, bytes_eq.beq_iff s.content (self_installed_script script)),
        ground (arith, marked),
      );
    }

-- `writeAtomic` replaces the script whole, executable, or leaves it, however much of the text a failing
-- write, sync or close leaves in the temporary file. On an error the
-- old script stands, and the temporary file is as it was before, if it could not be opened, or it is gone,
-- unless the rename failed or the removal did.
pub write_atomic-whole :
    (v : Calls) (content : Bytes) (f : Files)
    → let r = write_atomic v content f in
      ((r.1 ≡ true)
        × (r.0 ≡ record f {
          script = some (record { content = content; executable = true });
          temporary = none;
        }))
      ⊎ ((r.1 ≡ false)
          × (r.0.script ≡ f.script)
          × (r.0.linked ≡ f.linked)
          × ((r.0.temporary ≡ none)
              ⊎ (r.0.temporary ≡ f.temporary)
              ⊎ (v.rename_ok ≡ false)
              ⊎ (v.remove_ok ≡ false)))
unfolding write_atomic
write_atomic-whole v content f = ground arith
