-- ===== src/Privilege.antt =====
-- crates/heeler-server/src/privilege.rs: giving up root. The kernel is a parameter: a state of the
-- process and libc's calls on it, each of which returns whether it succeeded. The account files are
-- functions of the environment. Text is the list of its code points.
pub mod Success
pub mod Drop
use heeler.Common.{
  ℕ, zero, suc, Bool, true, false, not, ◌==◌, if◌then◌else◌, Option, none, some, List, [], ◌∷◌,
  Result, ok, err, reject_if, map_err, ok_or, unwrap_or, contains, bytes_eq, codes, map, ◌>>=◌,
  ◌>>◌,
}
use heeler.Common.Text.{trim, split, lines, parse_u32}

-- The libc calls that can fail, for the error.
pub data Call : Type 0 where
  chroot chdir setgroups setgid setuid : Call

pub data PrivilegeError : Type 0 where
  unknown_user : List ℕ → PrivilegeError
  unknown_group : List ℕ → PrivilegeError
  syscall : Call → PrivilegeError
  regainable : ℕ → PrivilegeError
  target_is_root : PrivilegeError

pub data DropOutcome : Type 0 where
  not_root : DropOutcome
  dropped : ℕ → ℕ → DropOutcome

-- The ids that the calls read and write.
pub record Credentials : Type 0 where
  pub real_uid : ℕ
  pub effective_uid : ℕ
  pub saved_uid : ℕ
  pub effective_gid : ℕ
  pub groups : List ℕ

-- The process and libc's calls; what they are documented to do is `IsPosix` of `Drop`.
pub record Kernel : Type 1 where
  pub Process : Type 0
  pub credentials : Process → Credentials
  pub call_chroot : List ℕ → Process → Bool × Process
  pub call_chdir : List ℕ → Process → Bool × Process
  pub call_setgroups : List ℕ → Process → Bool × Process
  pub call_setgid : ℕ → Process → Bool × Process
  pub call_setuid : ℕ → Process → Bool × Process

pub record Files : Type 0 where
  pub passwd : Option (List ℕ)
  pub group : Option (List ℕ)

-- One line of an account file that starts with the name: the third field, and the fourth if it is a
-- number. Without a third field that is a number the search ends with nothing.
abbrev second_id : List (List ℕ) → ℕ → ℕ
second_id [] id = id
second_id (f ∷ fields) id = unwrap_or (parse_u32 (trim f)) id

abbrev ids : List (List ℕ) → Option (ℕ × ℕ)
ids (password ∷ f ∷ fields) = elim (parse_u32 (trim f)) [
  | none ↦ none
  | some id ↦ some (id, second_id fields id)
]
ids (password ∷ []) = none
ids [] = none

unfoldable pub lookup_lines : List ℕ → List (List (List ℕ)) → Option (ℕ × ℕ)
unfolding trim parse_u32
lookup_lines name [] = none
lookup_lines name ([] ∷ rest) = lookup_lines name rest
lookup_lines name ((first ∷ fields) ∷ rest) =
    if bytes_eq first name then ids fields else lookup_lines name rest

unfoldable pub lookup_colon_file : Option (List ℕ) → List ℕ → Option (ℕ × ℕ)
unfolding lookup_lines lines split
lookup_colon_file none name = none
lookup_colon_file (some text) name = lookup_lines name (map (split b':') (lines text))

unfoldable pub resolve_user : Files → List ℕ → Result PrivilegeError (ℕ × ℕ)
unfolding lookup_colon_file parse_u32
resolve_user files user = elim (parse_u32 user) [
  | some uid ↦ ok (uid, uid)
  | none ↦ ok_or (lookup_colon_file files.passwd user) (unknown_user user)
]

abbrev first_id : Option (ℕ × ℕ) → Option ℕ
first_id none = none
first_id (some (gid, _)) = some gid

unfoldable pub resolve_group : Files → List ℕ → Result PrivilegeError ℕ
unfolding lookup_colon_file parse_u32
resolve_group files group = elim (parse_u32 group) [
  | some gid ↦ ok gid
  | none ↦ ok_or (first_id (lookup_colon_file files.group group)) (unknown_group group)
]

abbrev is_empty : List ℕ → Bool
is_empty [] = true
is_empty (_ ∷ _) = false

-- The target's uid and gid: an empty group means the user's primary one.
unfoldable pub targets : Files → List ℕ → List ℕ → Result PrivilegeError (ℕ × ℕ)
unfolding resolve_user resolve_group
targets files user group = do
  account ← resolve_user files user
  reject_if (account.0 == 0) target_is_root
  gid ← if is_empty group then ok account.1 else resolve_group files group
  ok (account.0, gid)

module _ (kernel : Kernel) where
  open kernel use {
    Process, credentials, call_chroot, call_chdir, call_setgroups, call_setgid, call_setuid,
  }

  abbrev Outcome : Type 0
  Outcome = Result PrivilegeError DropOutcome × Process

  -- A call and `check`: what follows runs only if it succeeded.
  abbrev pub then_call : Call → Bool × Process → (Process → Outcome) → Outcome
  then_call call (true, p) next = next p
  then_call call (false, p) next = (err (syscall call), p)

  abbrev pub verify : ℕ → ℕ → Bool × Process → Outcome
  verify uid gid (true, p) = (err (regainable uid), p)
  verify uid gid (false, p) = (ok (dropped uid gid), p)

  unfoldable pub change_ids : ℕ → ℕ → Process → Outcome
  change_ids uid gid p = then_call setgroups (call_setgroups (gid ∷ []) p) (λ p1.
      then_call setgid (call_setgid gid p1)
        (λ p2. then_call setuid (call_setuid uid p2) (λ p3. verify uid gid (call_setuid 0 p3))))

  -- A path with a NUL byte is no C string; the error names the path as a user.
  unfoldable pub change_root : Option (List ℕ) → Process → (Process → Outcome) → Outcome
  change_root none p next = next p
  change_root (some dir) p next =
      if contains dir 0
      then (err (unknown_user dir), p)
      else then_call chroot (call_chroot dir p)
          (λ p1. then_call chdir (call_chdir (codes "/") p1) next)

  unfoldable pub drop_privileges : Files → List ℕ → List ℕ → Option (List ℕ) → Process → Outcome
  unfolding targets change_ids change_root
  drop_privileges files user group chroot_dir p =
      if not ((credentials p).effective_uid == 0)
      then (ok not_root, p)
      else elim (targets files user group) [
        | err e ↦ (err e, p)
        | ok (uid, gid) ↦ change_root chroot_dir p (change_ids uid gid)
      ]
