-- ===== src/Privilege/Drop.antt =====
-- privilege.rs, `drop_privileges`: what holds of the process afterwards.
use heeler.Common.{
  ℕ, ◌≡◌, ◌≢◌, ap, ◌∙◌, true, false, ◌==◌, ==_iff, Option, none, some, List, [], ◌∷◌, ok, contains,
  codes, Bool-cases, Result-cases, inl, inr, arith,
}
use heeler.Privilege.{
  dropped, Credentials, Kernel, Files, targets, change_ids, change_root, drop_privileges,
}

-- What libc documents of the calls: a call that fails changes no ids; neither do `chroot` and `chdir`.
-- A process with effective uid 0 that succeeds with `setgroups`, `setgid` or `setuid` has changed
-- exactly the groups, the gid, or all three uids.
pub record IsPosix (kernel : Kernel) : Type 0 where
  pub chroot_keeps :
      (dir : List ℕ) (p : kernel.Process)
      → kernel.credentials (kernel.call_chroot dir p).1 ≡ kernel.credentials p
  pub chdir_keeps :
      (dir : List ℕ) (p : kernel.Process)
      → kernel.credentials (kernel.call_chdir dir p).1 ≡ kernel.credentials p
  pub setgroups_sets :
      (gids : List ℕ) (p : kernel.Process)
      → (kernel.call_setgroups gids p).0 ≡ true
      → kernel.credentials (kernel.call_setgroups gids p).1
        ≡ record (kernel.credentials p) { groups = gids }
  pub setgid_sets :
      (gid : ℕ) (p : kernel.Process)
      → (kernel.credentials p).effective_uid ≡ 0
      → (kernel.call_setgid gid p).0 ≡ true
      → kernel.credentials (kernel.call_setgid gid p).1
        ≡ record (kernel.credentials p) { effective_gid = gid }
  pub setuid_sets :
      (uid : ℕ) (p : kernel.Process)
      → (kernel.credentials p).effective_uid ≡ 0
      → (kernel.call_setuid uid p).0 ≡ true
      → kernel.credentials (kernel.call_setuid uid p).1
        ≡ record (kernel.credentials p) { real_uid = uid; effective_uid = uid; saved_uid = uid }
  pub setuid_fails :
      (uid : ℕ) (p : kernel.Process)
      → (kernel.call_setuid uid p).0 ≡ false
      → kernel.credentials (kernel.call_setuid uid p).1 ≡ kernel.credentials p

-- The ids of a process that gave up root for a user and a group.
abbrev pub dropped_to : ℕ → ℕ → Credentials
dropped_to uid gid = record {
  real_uid = uid;
  effective_uid = uid;
  saved_uid = uid;
  effective_gid = gid;
  groups = gid ∷ [];
}

module _ (kernel : Kernel) (posix : IsPosix kernel) where
  open kernel use {
    Process, credentials, call_chroot, call_chdir, call_setgroups, call_setgid, call_setuid,
  }

  abbrev with_uid : ℕ → Credentials → Credentials
  with_uid uid c = record c { real_uid = uid; effective_uid = uid; saved_uid = uid }

  abbrev with_gid : ℕ → Credentials → Credentials
  with_gid gid c = record c { effective_gid = gid }

  -- The three calls that succeed, and the fourth that does not.
  all_called :
      (uid gid : ℕ) (p : Process)
      → (credentials p).effective_uid ≡ 0
      → let p1 = (call_setgroups (gid ∷ []) p).1 in
        let p2 = (call_setgid gid p1).1 in
        let p3 = (call_setuid uid p2).1 in
        (call_setgroups (gid ∷ []) p).0 ≡ true
        → (call_setgid gid p1).0 ≡ true
        → (call_setuid uid p2).0 ≡ true
        → (call_setuid 0 p3).0 ≡ false
        → credentials (call_setuid 0 p3).1 ≡ dropped_to uid gid
  all_called uid gid p root a b c d =
      let p1 = (call_setgroups (gid ∷ []) p).1 in
      let p2 = (call_setgid gid p1).1 in
      let p3 = (call_setuid uid p2).1 in
      let groups_set = posix.setgroups_sets (gid ∷ []) p a in
      let root1 = ap (λ (k : Credentials). k.effective_uid) groups_set ∙ root in
      let gid_set = posix.setgid_sets gid p1 root1 b in
      let root2 = ap (λ (k : Credentials). k.effective_uid) gid_set ∙ root1 in
      posix.setuid_fails 0 p3 d
      ∙ posix.setuid_sets uid p2 root2 c
      ∙ ap (with_uid uid) gid_set
      ∙ ap (λ k. with_uid uid (with_gid gid k)) groups_set

  change_ids-dropped :
      (uid gid u g : ℕ) (p p' : Process)
      → (credentials p).effective_uid ≡ 0
      → change_ids kernel uid gid p ≡ (ok (dropped u g), p')
      → (u ≡ uid) × (g ≡ gid) × (credentials p' ≡ dropped_to uid gid)
  unfolding change_ids
  change_ids-dropped uid gid u g p p' root e = elim (Bool-cases (call_setgroups (gid ∷ []) p).0) [
    | inr f ↦ ground (arith, f, e)
    | inl a ↦
        let p1 = (call_setgroups (gid ∷ []) p).1 in
        elim (Bool-cases (call_setgid gid p1).0) [
          | inr f ↦ ground (arith, a, f, e)
          | inl b ↦
              let p2 = (call_setgid gid p1).1 in
              elim (Bool-cases (call_setuid uid p2).0) [
                | inr f ↦ ground (arith, a, b, f, e)
                | inl c ↦
                    let p3 = (call_setuid uid p2).1 in
                    elim (Bool-cases (call_setuid 0 p3).0) [
                      | inl f ↦ ground (arith, a, b, c, f, e)
                      | inr d ↦
                          let done = rw (a, b, c, d, change_ids) at e in
                          let kept = all_called uid gid p root a b c d in
                          (cc done, cc done, cc (done, kept))
                    ]
              ]
        ]
  ]

  change_root-dropped :
      (dir : Option (List ℕ)) (uid gid u g : ℕ) (p p' : Process)
      → (credentials p).effective_uid ≡ 0
      → change_root kernel dir p (change_ids kernel uid gid) ≡ (ok (dropped u g), p')
      → (u ≡ uid) × (g ≡ gid) × (credentials p' ≡ dropped_to uid gid)
  unfolding change_root
  change_root-dropped none uid gid u g p p' root e = change_ids-dropped uid gid u g p p' root e
  change_root-dropped (some dir) uid gid u g p p' root e = elim (Bool-cases (contains dir 0)) [
    | inl f ↦ ground (arith, f, e)
    | inr n ↦
        let p1 = (call_chroot dir p).1 in
        let p2 = (call_chdir (codes "/") p1).1 in
        elim (Bool-cases (call_chroot dir p).0) [
          | inr f ↦ ground (arith, n, f, e)
          | inl a ↦ elim (Bool-cases (call_chdir (codes "/") p1).0) [
            | inr f ↦ ground (arith, n, a, f, e)
            | inl b ↦
                let same = posix.chdir_keeps (codes "/") p1 ∙ posix.chroot_keeps dir p in
                change_ids-dropped uid gid u g p2 p'
                  (ap (λ (k : Credentials). k.effective_uid) same ∙ root)
                  (rw (n, a, b, change_root) at e)
          ]
        ]
  ]

  targets-nonroot :
      (files : Files) (user group : List ℕ) (uid gid : ℕ)
      → targets files user group ≡ ok (uid, gid)
      → uid ≢ 0
  unfolding targets
  targets-nonroot files user group uid gid e z = ground (arith, e, z)

  -- Where libc does what it documents, a process for which `drop_privileges` reports the outcome
  -- `Dropped` had effective uid 0, and now has the resolved user's id, which is not 0, as its real,
  -- effective and saved uid, the resolved group as its gid, and that group alone as its groups.
  pub drop_privileges-dropped :
      (files : Files) (user group : List ℕ) (chroot_dir : Option (List ℕ)) (uid gid : ℕ)
      (p p' : Process)
      → drop_privileges kernel files user group chroot_dir p ≡ (ok (dropped uid gid), p')
      → ((credentials p).effective_uid ≡ 0)
        × (targets files user group ≡ ok (uid, gid))
        × (uid ≢ 0)
        × (credentials p' ≡ dropped_to uid gid)
  unfolding drop_privileges
  drop_privileges-dropped files user group chroot_dir uid gid p p' e =
      elim (Bool-cases ((credentials p).effective_uid == 0)) [
        | inr f ↦ ground (arith, f, e)
        | inl r ↦
            let root = (==_iff _ _).0 r in
            elim (Result-cases (targets files user group)) [
              | inr (x, f) ↦ ground (arith, r, f, e)
              | inl ((u, g), t) ↦
                  let (a, b, c) =
                    change_root-dropped chroot_dir u g uid gid p p' root
                      (rw (r, t, drop_privileges) at e) in
                  let same : targets files user group ≡ ok (uid, gid) = cc (t, a, b) in
                  (root, same, targets-nonroot files user group uid gid same, cc (a, b, c))
            ]
      ]
