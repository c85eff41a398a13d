-- ===== src/Common/Lines.antt =====
-- Text in lines, and numbers in them.
use Prim.Native.Nat.{ℕ, zero, suc, ◌+◌, ◌-◌, ◌/◌, ◌%◌, ◌<◌}
use mathlib.Core.Path.{◌≡◌, refl, ◌∙◌, ap}
use mathlib.Core.Bool.{false}
use mathlib.Core.List.{List, [], ◌∷◌, ◌++◌, append_assoc}
use native.Mathlib.Omega.{arith}
use heeler.Common.Tests.{ltb, if◌then◌else◌}
use heeler.Common.Int.{ℤ, pos, negsuc}
use heeler.Common.Lists.{All, contains}
use heeler.Common.Text.{split}
use heeler.Common.Decimal.{show, IsDigit, show-digits}

-- A line of a text, without the line break that `writeln!` adds.
abbrev pub Line : Type 0
Line = List ℕ

abbrev pub unlines : List Line → List ℕ
unlines [] = []
unlines (l ∷ ls) = l ++ (b'\n' ∷ unlines ls)

-- A text without some character, and a line, which is one without a line break.
abbrev pub IsFree : ℕ → List ℕ → Type 0
IsFree sep l = contains l sep ≡ false

abbrev pub IsLine : List ℕ → Type 0
IsLine l = IsFree b'\n' l

pub append-IsFree : (sep : ℕ) (k l : List ℕ) → IsFree sep k → IsFree sep l → IsFree sep (k ++ l)
append-IsFree sep [] l h i = i
append-IsFree sep (c ∷ k) l h i = ground (arith, append-IsFree sep k l, h, i)

pub append-IsLine : (k l : List ℕ) → IsLine k → IsLine l → IsLine (k ++ l)
append-IsLine = append-IsFree b'\n'

pub digits-IsFree : (sep : ℕ) (l : List ℕ) → sep < b'0' → All IsDigit l → IsFree sep l
digits-IsFree sep [] s h = refl
digits-IsFree sep (c ∷ l) s ((low, high), h) = ground (arith, low, high, s, digits-IsFree sep l s h)

pub show-IsFree : (sep n : ℕ) → sep < b'0' → IsFree sep (show n)
show-IsFree sep n s = digits-IsFree sep (show n) s (show-digits n)

pub show-IsLine : (n : ℕ) → IsLine (show n)
show-IsLine n = show-IsFree b'\n' n (omega arith)

-- A part without the separator is split off.
pub split-part :
    (sep : ℕ) (l text : List ℕ) → IsFree sep l → split sep (l ++ (sep ∷ text)) ≡ l ∷ split sep text
unfolding split
split-part sep [] text h = ground arith
split-part sep (c ∷ l) text h = ground (arith, h, split-part sep l text)

pub split-whole : (sep : ℕ) (l : List ℕ) → IsFree sep l → split sep l ≡ l ∷ []
unfolding split
split-whole sep [] h = refl
split-whole sep (c ∷ l) h = ground (arith, h, split-whole sep l)

pub split-unlines :
    (ls : List Line) (last : List ℕ)
    → All IsLine ls
    → IsLine last
    → split b'\n' (unlines ls ++ last) ≡ ls ++ (last ∷ [])
split-unlines [] last h i = split-whole b'\n' last i
split-unlines (l ∷ ls) last (h, hs) i =
    rw (append_assoc l (b'\n' ∷ unlines ls) last)
      (split-part b'\n' l (unlines ls ++ last) h ∙ ap (λ t. l ∷ t) (split-unlines ls last hs i))

pub split-lines : (ls : List Line) → All IsLine ls → split b'\n' (unlines ls) ≡ ls ++ ([] ∷ [])
unfolding split
split-lines [] h = refl
split-lines (l ∷ ls) (h, hs) =
    split-part b'\n' l (unlines ls) h ∙ ap (λ t. l ∷ t) (split-lines ls hs)

-- `Display` of a signed integer.
abbrev pub show_int : ℤ → List ℕ
show_int (pos n) = show n
show_int (negsuc n) = b'-' ∷ show (suc n)

pub show_int-IsFree : (sep : ℕ) (z : ℤ) → sep < b'-' → IsFree sep (show_int z)
show_int-IsFree sep (pos n) s = show-IsFree sep n (omega (arith, s))
show_int-IsFree sep (negsuc n) s = ground (arith, s, show-IsFree sep (suc n) (omega (arith, s)))

pub show_int-IsLine : (z : ℤ) → IsLine (show_int z)
show_int-IsLine z = show_int-IsFree b'\n' z (omega arith)

abbrev pub hex_digit : ℕ → ℕ
hex_digit d = if ltb d 10 then b'0' + d else b'A' + (d - 10)

-- `{:0wX}` of a number of at most w hexadecimal digits.
unfoldable pub show_hex : ℕ → ℕ → List ℕ
show_hex zero n = []
show_hex (suc width) n = show_hex width (n / 16) ++ (hex_digit (n % 16) ∷ [])

pub show_hex-IsLine : (width n : ℕ) → IsLine (show_hex width n)
unfolding show_hex
show_hex-IsLine zero n = refl
show_hex-IsLine (suc width) n =
    append-IsLine (show_hex width (n / 16)) (hex_digit (n % 16) ∷ [])
      (show_hex-IsLine width (n / 16)) (ground arith)
