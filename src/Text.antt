-- ===== src/Text.antt =====
-- Strings, as the lists of their UTF-16 code units.
pub mod Laws
use Prim.Native.Char.{code}
use Prim.Native.String.{String}
use mathlib.Core.Path.{◌≡◌, refl, sym, ap₂}
use looplink.Base.{
  ℕ, ◌+◌, ◌-◌, Bool, true, false, Option, none, some, List, [], ◌∷◌, ◌++◌, ℕ_discrete, leb, ◌==◌,
  if◌then◌else◌, ◌&&◌, length, drop, ite, ◌||◌, arith,
}
use looplink.JsMap.{Key}

abbrev pub Text : Type 0
Text = List ℕ

-- A literal of the source; every one that the model uses is ASCII.
abbrev pub codes : String → Text
codes String.[] = []
codes (String.◌∷◌ c s) = code c ∷ codes s

pub head-eq : {x y : ℕ} {xs ys : Text} → x ∷ xs ≡ y ∷ ys → x ≡ y
head-eq e = cc

pub tail-eq : {x y : ℕ} {xs ys : Text} → x ∷ xs ≡ y ∷ ys → xs ≡ ys
tail-eq e = cc

pub nil-ne-cons : {x : ℕ} {xs : Text} → [] ≡ x ∷ xs → ⊥
nil-ne-cons e = cc

cons_dec : {x y : ℕ} {xs ys : Text} → Dec (x ≡ y) → Dec (xs ≡ ys) → Dec (x ∷ xs ≡ y ∷ ys)
cons_dec (yes p) (yes q) = yes (ap₂ ◌∷◌ p q)
cons_dec (yes p) (no q) = no (λ e. q (tail-eq e))
cons_dec (no p) q = no (λ e. p (head-eq e))

unfoldable pub text_dec : Discrete Text
unfolding ℕ_discrete cons_dec
text_dec [] [] = yes refl
text_dec [] (y ∷ ys) = no nil-ne-cons
text_dec (x ∷ xs) [] = no (λ e. nil-ne-cons (sym e))
text_dec (x ∷ xs) (y ∷ ys) = cons_dec (ℕ_discrete x y) (text_dec xs ys)

instance abbrev pub text_key : Key Text
text_key = record { dec = text_dec }

infix 50 ◌===◌
abbrev pub ◌===◌ : Text → Text → Bool
a === b = ite (text_dec a b) true false

abbrev pub is_empty : Text → Bool
is_empty [] = true
is_empty (c ∷ s) = false

-- The white space and line ends that `trim` removes.
unfoldable pub is_space : ℕ → Bool
is_space c =
    (leb 9 c && leb c 13)
    || c == 32
    || c == 0xa0
    || c == 0x1680
    || (leb 0x2000 c && leb c 0x200a)
    || c == 0x2028
    || c == 0x2029
    || c == 0x202f
    || c == 0x205f
    || c == 0x3000
    || c == 0xfeff

unfoldable pub trim_start : Text → Text
unfolding is_space
trim_start [] = []
trim_start (c ∷ s) = let rest = trim_start s in if is_space c then rest else c ∷ s

trim_back : ℕ → Text → Text
trim_back c [] = if is_space c then [] else c ∷ []
trim_back c (d ∷ s) = c ∷ d ∷ s

unfoldable pub trim_end : Text → Text
unfolding is_space trim_back
trim_end [] = []
trim_end (c ∷ s) = trim_back c (trim_end s)

unfoldable pub trim : Text → Text
unfolding trim_start trim_end
trim s = trim_end (trim_start s)

-- `toLowerCase` on ASCII text; a code unit outside ASCII stays as it is.
unfoldable pub lower : ℕ → ℕ
lower c = if leb b'A' c && leb c b'Z' then c + 32 else c

unfoldable pub to_lower : Text → Text
unfolding lower
to_lower [] = []
to_lower (c ∷ s) = lower c ∷ to_lower s

abbrev pub starts_with : Text → Text → Bool
starts_with s [] = true
starts_with [] (d ∷ p) = false
starts_with (c ∷ s) (d ∷ p) = c == d && starts_with s p

abbrev pub ends_with : Text → Text → Bool
ends_with s p = leb (length p) (length s) && drop (length s - length p) s === p

-- `includes` of a text.
unfoldable pub includes : Text → Text → Bool
includes [] p = is_empty p
includes (c ∷ s) p = starts_with (c ∷ s) p || includes s p

abbrev pub push_front : ℕ → List Text → List Text
push_front c [] = (c ∷ []) ∷ []
push_front c (p ∷ ps) = (c ∷ p) ∷ ps

-- `split` at one code unit.
unfoldable pub split : ℕ → Text → List Text
split d [] = [] ∷ []
split d (c ∷ s) = let rest = split d s in if c == d then [] ∷ rest else push_front c rest

-- `split(d)[0]`; the list of the parts is never empty.
abbrev pub first_part : List Text → Text
first_part [] = []
first_part (p ∷ ps) = p

pub lower_idem : (c : ℕ) → lower (lower c) ≡ lower c
unfolding lower
lower_idem c = ground arith

pub to_lower_idem : (s : Text) → to_lower (to_lower s) ≡ to_lower s
unfolding to_lower
to_lower_idem [] = refl
to_lower_idem (c ∷ s) = cc (lower_idem c, to_lower_idem s)

pub ===_refl : (s : Text) → (s === s) ≡ true
===_refl s = ground arith

pub ===→eq : (s t : Text) → (s === t) ≡ true → s ≡ t
===→eq s t h = ground arith
