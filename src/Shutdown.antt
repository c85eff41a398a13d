-- ===== src/Shutdown.antt =====
-- crates/heeler-server/src/shutdown.rs: the wait for a signal, as the sequence of the times at which the
-- runtime polls it. The branches of the `select!` are polled in an order that the runtime picks at random
-- each time. The channel is the runtime's: what the tasks do with its flag is in Server.Shutdown.
use heeler.Common.{
  ℕ, ◌≡◌, refl, ◌⊎◌, inl, inr, Bool, true, false, not, if◌then◌else◌, Option, none, some, List, [],
  ◌∷◌, ◌++◌, codes, arith, ◌||◌, ◌&&◌, Bool-cases, ap, any,
}

-- What one poll finds: whether the two signals have come, and which branch is polled first.
pub record Poll : Type 0 where
  pub interrupted : Bool
  pub terminated : Bool
  pub ctrl_c_first : Bool

-- The initial value of the flag.
abbrev pub channel : Bool
channel = false

-- `ctrl_c()` registers its handler when it is first polled, and is ready at once with the error if
-- that fails; the pattern `_` takes the error for the signal.
abbrev pub ctrl_c : Bool → Poll → Bool
ctrl_c registered p = not registered || p.interrupted

-- A stream that could not be registered is pending for ever.
abbrev pub sigterm_recv : Bool → Poll → Bool
sigterm_recv registered p = registered && p.terminated

-- One poll of the `select!`: the first branch that is ready, in the order of this poll.
unfoldable pub select : Bool → Bool → Poll → Option (List ℕ)
select ctrl_c_ok sigterm_ok p =
    let interrupt = ctrl_c ctrl_c_ok p in
    let terminate = sigterm_recv sigterm_ok p in
    if p.ctrl_c_first
    then (if interrupt
        then some (codes "SIGINT")
        else if terminate
        then some (codes "SIGTERM")
        else none)
    else (if terminate
        then some (codes "SIGTERM")
        else if interrupt
        then some (codes "SIGINT")
        else none)

-- `none` is a wait that goes on.
unfoldable pub wait_for_signal : Bool → Bool → List Poll → Option (List ℕ)
unfolding select
wait_for_signal ctrl_c_ok sigterm_ok [] = none
wait_for_signal ctrl_c_ok sigterm_ok (p ∷ polls) =
    let later = wait_for_signal ctrl_c_ok sigterm_ok polls in
    elim (select ctrl_c_ok sigterm_ok p) [ none ↦ later | some name ↦ some name ]

-- Whether a poll finds what ends the wait.
abbrev pub is_ready : Bool → Bool → Poll → Bool
is_ready ctrl_c_ok sigterm_ok p = not ctrl_c_ok || p.interrupted || (sigterm_ok && p.terminated)

-- How a poll that finds something names it: after a signal that came, or after Ctrl-C for its failed
-- registration; the branch that is polled first wins if both are ready.
abbrev pub Names : Bool → Bool → Poll → Option (List ℕ) → Type 0
Names ctrl_c_ok sigterm_ok p result =
    ((result ≡ some (codes "SIGINT"))
      × ((ctrl_c_ok ≡ false) ⊎ (p.interrupted ≡ true))
      × ((p.ctrl_c_first ≡ true) ⊎ ((sigterm_ok && p.terminated) ≡ false)))
    ⊎ ((result ≡ some (codes "SIGTERM"))
        × (sigterm_ok ≡ true)
        × (p.terminated ≡ true)
        × ((p.ctrl_c_first ≡ false) ⊎ ((ctrl_c_ok && not p.interrupted) ≡ true)))

select_pending :
    (ctrl_c_ok sigterm_ok : Bool) (p : Poll)
    → is_ready ctrl_c_ok sigterm_ok p ≡ false
    → select ctrl_c_ok sigterm_ok p ≡ none
unfolding select
select_pending ctrl_c_ok sigterm_ok p e = ground (arith, e)

select-Names :
    (ctrl_c_ok sigterm_ok : Bool) (p : Poll)
    → is_ready ctrl_c_ok sigterm_ok p ≡ true
    → Names ctrl_c_ok sigterm_ok p (select ctrl_c_ok sigterm_ok p)
unfolding select
select-Names ctrl_c_ok sigterm_ok p e =
    by_cases ctrl_c_ok sigterm_ok p.interrupted p.terminated p.ctrl_c_first e
  where
    by_cases :
        (c s i t f : Bool)
        → let q : Poll = record { interrupted = i; terminated = t; ctrl_c_first = f } in
          is_ready c s q ≡ true → Names c s q (select c s q)
    by_cases false s i t true e = inl (refl, inl refl, inl refl)
    by_cases false false i t false e = inl (refl, inl refl, inr refl)
    by_cases false true i false false e = inl (refl, inl refl, inr refl)
    by_cases false true i true false e = inr (refl, refl, refl, inl refl)
    by_cases true s true t true e = inl (refl, inr refl, inl refl)
    by_cases true false true t false e = inl (refl, inr refl, inr refl)
    by_cases true true true false false e = inl (refl, inr refl, inr refl)
    by_cases true true true true false e = inr (refl, refl, refl, inl refl)
    by_cases true true false true true e = inr (refl, refl, refl, inr refl)
    by_cases true true false true false e = inr (refl, refl, refl, inl refl)
    by_cases true true false false f e = cc
    by_cases true false false t f e = cc

-- The first poll that is ready gives the result, whatever the later ones find.
first_ready :
    (ctrl_c_ok sigterm_ok : Bool) (p : Poll) (polls : List Poll)
    → is_ready ctrl_c_ok sigterm_ok p ≡ true
    → Names ctrl_c_ok sigterm_ok p (wait_for_signal ctrl_c_ok sigterm_ok (p ∷ polls))
unfolding wait_for_signal
first_ready ctrl_c_ok sigterm_ok p polls e = elim (select-Names ctrl_c_ok sigterm_ok p e) [
  | inl (s, cause, order) ↦ inl (rw (s, wait_for_signal) refl, cause, order)
  | inr (s, sig, came, order) ↦ inr (rw (s, wait_for_signal) refl, sig, came, order)
]

-- The wait goes on while no poll finds a signal that came, SIGTERM counting only if its stream was
-- registered, nor a failed registration of Ctrl-C. It ends at the first poll that finds one. The name is
-- SIGINT only if that signal came or Ctrl-C could not be registered, and SIGTERM only if that came and
-- its stream was registered; where both hold, either may be returned, after the order in which this poll
-- takes the branches.
pub wait_for_signal_exact :
    (ctrl_c_ok sigterm_ok : Bool) (polls : List Poll)
    → ((any (is_ready ctrl_c_ok sigterm_ok) polls ≡ false)
        × (wait_for_signal ctrl_c_ok sigterm_ok polls ≡ none))
      ⊎ ((before : List Poll) × (p : Poll) × (later : List Poll) × (polls ≡ before ++ (p ∷ later))
          × (any (is_ready ctrl_c_ok sigterm_ok) before ≡ false)
          × (is_ready ctrl_c_ok sigterm_ok p ≡ true)
          × Names ctrl_c_ok sigterm_ok p (wait_for_signal ctrl_c_ok sigterm_ok polls))
unfolding wait_for_signal
wait_for_signal_exact ctrl_c_ok sigterm_ok [] = inl (refl, refl)
wait_for_signal_exact ctrl_c_ok sigterm_ok (p ∷ polls) =
    elim (Bool-cases (is_ready ctrl_c_ok sigterm_ok p)) [
      | inl e ↦ inr ([], p, polls, refl, refl, e, first_ready ctrl_c_ok sigterm_ok p polls e)
      | inr e ↦
          let pending = select_pending ctrl_c_ok sigterm_ok p e in
          elim (wait_for_signal_exact ctrl_c_ok sigterm_ok polls) [
            | inl (none_yet, w) ↦ inl (ground (arith, e, none_yet), rw (pending, wait_for_signal) w)
            | inr (before, q, later, same, earlier, ends, w) ↦ inr (
              p ∷ before,
              q,
              later,
              ap (λ l. p ∷ l) same,
              ground (arith, e, earlier),
              ends,
              rw (pending, wait_for_signal) w,
            )
          ]
    ]
