-- ===== src/Config/Chosen.antt =====
-- config.rs, `apply_env_overrides`: one override, and the value of its setting afterwards.
use heeler.Common.{
  ℕ, ◌≡◌, refl, sym, ◌∙◌, ap, Option, none, some, List, Result, ok, err, >>=-eq-ok, arith, inl, inr,
  Option-cases, ◌>>=◌,
}
use heeler.Config.{Config}
use heeler.Config.Env.{EnvError, env_var, override, parsed}

-- The value of a setting: the old one where its variable is unset, else one that the text reads as.
pub data Chosen {ℓ} {A : Type ℓ} (Reads : List ℕ → A → Type 0) (old : A)
    : Option (List ℕ) → A → Type ℓ where
  kept : Chosen Reads old none old
  read_as : (text : List ℕ) (value : A) → Reads text value → Chosen Reads old (some text) value

abbrev pub IsParsed {ℓ} : {A : Type ℓ} → (List ℕ → Option A) → List ℕ → A → Type ℓ
IsParsed parse text value = parse text ≡ some value

-- A step of the chain of overrides.
module _ (vars : List ℕ → Option (List ℕ)) (name : List ℕ) {A : Type 0}
    (Reads : List ℕ → A → Type 0) (get : Config → A) (set : A → Config → Config)
    (change : List ℕ → Config → Result EnvError Config)
    (sets : (text : List ℕ) (c c' : Config)
      → change text c ≡ ok c'
      → (value : A) × Reads text value × (c' ≡ set value c))
    (same : (c : Config) → set (get c) c ≡ c) where
  step :
      (c c' : Config)
      → override vars name change c ≡ ok c'
      → (value : A) × Chosen Reads (get c) (env_var vars name) value × (c' ≡ set value c)
  step c c' e = elim (Option-cases (env_var vars name)) [
    | inl n ↦ (get c, rw n (kept), ground (arith, n, same c))
    | inr (text, s) ↦
        let (value, r, q) = sets text c c' (ground (arith, s)) in
        (value, rw s (read_as text value r), q)
  ]

  pub then_set :
      (c : Config) (next : Config → Result EnvError Config) (result : Config)
      → (override vars name change c >>= next) ≡ ok result
      → (value : A) × Chosen Reads (get c) (env_var vars name) value
        × (next (set value c) ≡ ok result)
  then_set c next result e =
      let (c', first, rest) = >>=-eq-ok (override vars name change c) next e in
      let (value, chosen, q) = step c c' first in (value, chosen, ap next (sym q) ∙ rest)

abbrev pub IsText : List ℕ → List ℕ → Type 0
IsText text value = value ≡ text

-- `override`, followed by the rest, for a setting that is parsed, and for one that is text.
module _ (vars : List ℕ → Option (List ℕ)) (name : List ℕ) (next : Config → Result EnvError Config)
    (c result : Config) where
  pub then_parsed :
      {A : Type 0} (parse : List ℕ → Option A) (get : Config → A) (set : A → Config → Config)
      → ((d : Config) → set (get d) d ≡ d)
      → (override vars name
            (λ text d. parsed name text (parse text) >>= λ value. ok (set value d))
            c
          >>= next)
        ≡ ok result
      → (value : A) × Chosen (IsParsed parse) (get c) (env_var vars name) value
        × (next (set value c) ≡ ok result)
  then_parsed parse get set same e =
      then_set vars name (IsParsed parse) get set
        (λ text d. parsed name text (parse text) >>= λ value. ok (set value d))
        (λ text d d' done. elim (Option-cases (parse text)) [
          | inl n ↦ ground (arith, n, done)
          | inr (value, p) ↦ (value, p, ground (arith, p, done))
        ])
        same c next result e

  pub then_plain :
      (get : Config → List ℕ) (set : List ℕ → Config → Config)
      → ((d : Config) → set (get d) d ≡ d)
      → (override vars name (λ text d. ok (set text d)) c >>= next) ≡ ok result
      → (value : List ℕ) × Chosen IsText (get c) (env_var vars name) value
        × (next (set value c) ≡ ok result)
  then_plain get set same e =
      then_set vars name IsText get set (λ text d. ok (set text d))
        (λ text d d' done. (text, refl, ground (arith, done))) same c next result e

pub >>=-ok_lem : (first : Result EnvError Config) → (first >>= ok) ≡ first
>>=-ok_lem (ok c) = refl
>>=-ok_lem (err e) = refl
