-- ===== src/Privilege/Success.antt =====
-- privilege.rs, `drop_privileges`: success means that the process is not root.
use heeler.Common.{
  ℕ, ◌≡◌, ◌≢◌, sym, ap, ◌∙◌, Bool, true, false, ◌==◌, Option, none, some, List, [], ◌∷◌, Result, ok,
  contains, codes, Bool-cases, Result-cases, if-both, inl, inr, arith,
}
use heeler.Privilege.{
  Call, PrivilegeError, DropOutcome, not_root, dropped, Credentials, Kernel, Files, targets,
  then_call, change_ids, change_root, verify, drop_privileges, chroot, chdir, setgroups, setgid,
  setuid,
}
use heeler.Privilege.Drop.{IsPosix, drop_privileges-dropped}

pair {ℓ κ} : {A : Type ℓ} {B : Type κ} (o : A × B) (a : A) → o.0 ≡ a → o ≡ (a, o.1)
pair (x, y) a e = ap (λ z. (z, y)) e

module _ (kernel : Kernel) where
  open kernel use {
    Process, credentials, call_chroot, call_chdir, call_setgroups, call_setgid, call_setuid,
  }

  abbrev NotSkipped : Result PrivilegeError DropOutcome × Process → Type 0
  NotSkipped o = o.0 ≢ ok not_root

  then_call-NotSkipped :
      (call : Call) (done : Bool × Process)
      (next : Process → Result PrivilegeError DropOutcome × Process)
      → ((p : Process) → NotSkipped (next p))
      → NotSkipped (then_call kernel call done next)
  then_call-NotSkipped call (true, p) next n = n p
  then_call-NotSkipped call (false, p) next n = λ e. ground (arith, e)

  verify-NotSkipped :
      (uid gid : ℕ) (done : Bool × Process) → NotSkipped (verify kernel uid gid done)
  verify-NotSkipped uid gid (true, p) e = ground (arith, e)
  verify-NotSkipped uid gid (false, p) e = ground (arith, e)

  change_ids-NotSkipped : (uid gid : ℕ) (p : Process) → NotSkipped (change_ids kernel uid gid p)
  unfolding change_ids
  change_ids-NotSkipped uid gid p =
      let last = λ (p3 : Process). verify kernel uid gid (call_setuid 0 p3) in
      let third = λ (p2 : Process). then_call kernel setuid (call_setuid uid p2) last in
      let second = λ (p1 : Process). then_call kernel setgid (call_setgid gid p1) third in
      then_call-NotSkipped setgroups (call_setgroups (gid ∷ []) p) second (λ p1.
        then_call-NotSkipped setgid (call_setgid gid p1) third (λ p2.
          then_call-NotSkipped setuid (call_setuid uid p2) last
            (λ p3. verify-NotSkipped uid gid (call_setuid 0 p3))))

  change_root-NotSkipped :
      (dir : Option (List ℕ)) (uid gid : ℕ) (p : Process)
      → NotSkipped (change_root kernel dir p (change_ids kernel uid gid))
  unfolding change_root
  change_root-NotSkipped none uid gid p = change_ids-NotSkipped uid gid p
  change_root-NotSkipped (some dir) uid gid p =
      let entered = λ (p1 : Process).
        then_call kernel chdir (call_chdir (codes "/") p1) (change_ids kernel uid gid) in
      if-both NotSkipped (contains dir 0) (λ e. ground (arith, e))
        (then_call-NotSkipped chroot (call_chroot dir p) entered (λ p1.
          then_call-NotSkipped chdir (call_chdir (codes "/") p1) (change_ids kernel uid gid)
            (λ p2. change_ids-NotSkipped uid gid p2)))

  -- A process that is reported not to be root was not, and nothing was done to it.
  drop_privileges-not_root :
      (files : Files) (user group : List ℕ) (chroot_dir : Option (List ℕ)) (p p' : Process)
      → drop_privileges kernel files user group chroot_dir p ≡ (ok not_root, p')
      → ((credentials p).effective_uid ≢ 0) × (p' ≡ p)
  unfolding drop_privileges
  drop_privileges-not_root files user group chroot_dir p p' e =
      elim (Bool-cases ((credentials p).effective_uid == 0)) [
        | inr f ↦ (λ z. ground (arith, f, z), ground (arith, f, e))
        | inl r ↦ elim (Result-cases (targets files user group)) [
          | inr (x, f) ↦ ground (arith, r, f, e)
          | inl ((u, g), t) ↦ absurd (
              change_root-NotSkipped chroot_dir u g p (
                ap (λ (o : Result PrivilegeError DropOutcome × Process). o.0)
                  (rw (r, t, drop_privileges) at e)))
        ]
      ]

module _ (kernel : Kernel) (posix : IsPosix kernel) where
  open kernel use {Process, credentials}

  -- Where libc does what it documents, a process for which `drop_privileges` reports success, whichever,
  -- has no effective uid 0 afterwards.
  pub drop_privileges-unprivileged :
      (files : Files) (user group : List ℕ) (chroot_dir : Option (List ℕ)) (outcome : DropOutcome)
      (p : Process)
      → (drop_privileges kernel files user group chroot_dir p).0 ≡ ok outcome
      → (credentials (drop_privileges kernel files user group chroot_dir p).1).effective_uid ≢ 0
  drop_privileges-unprivileged files user group chroot_dir not_root p e z =
      let p' = (drop_privileges kernel files user group chroot_dir p).1 in
      let (n, same) =
        drop_privileges-not_root kernel files user group chroot_dir p p' (pair _ _ e) in
      n (rw same at z)
  drop_privileges-unprivileged files user group chroot_dir (dropped uid gid) p e z =
      let p' = (drop_privileges kernel files user group chroot_dir p).1 in
      let (_, _, n, same) =
        drop_privileges-dropped kernel posix files user group chroot_dir uid gid p p'
          (pair _ _ e) in
      n (sym (ap (λ (c : Credentials). c.effective_uid) same) ∙ z)
