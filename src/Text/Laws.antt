-- ===== src/Text/Laws.antt =====
-- Laws of the string operations: trimming against lower case, splitting, suffixes.
use looplink.Base.{
  ℕ, suc, ◌-◌, ◌≡◌, refl, ap, Bool, true, false, List, [], ◌∷◌, ◌++◌, length, length-append, drop,
  take, arith, ◌==◌, if◌then◌else◌,
}
use looplink.Text.{
  Text, is_space, trim_start, trim_back, trim_end, trim, lower, to_lower, ends_with, push_front,
  split, first_part, is_empty,
}

is_space-lower : (c : ℕ) → is_space (lower c) ≡ is_space c
unfolding is_space lower
is_space-lower c = ground arith

trim_start-to_lower : (s : Text) → trim_start (to_lower s) ≡ to_lower (trim_start s)
unfolding trim_start to_lower
trim_start-to_lower [] = refl
trim_start-to_lower (c ∷ s) =
    unfold trim_start to_lower in rw (is_space-lower c) (ground (arith, trim_start-to_lower s))

trim_back-to_lower :
    (c : ℕ) (s : Text) → trim_back (lower c) (to_lower s) ≡ to_lower (trim_back c s)
unfolding to_lower trim_back
trim_back-to_lower c [] = rw (is_space-lower c) (ground arith)
trim_back-to_lower c (d ∷ s) = refl

trim_end-to_lower : (s : Text) → trim_end (to_lower s) ≡ to_lower (trim_end s)
unfolding trim_end to_lower
trim_end-to_lower [] = refl
trim_end-to_lower (c ∷ s) = rw (trim_end-to_lower s) (trim_back-to_lower c (trim_end s))

pub trim-to_lower : (s : Text) → trim (to_lower s) ≡ to_lower (trim s)
unfolding trim
trim-to_lower s = rw (trim_start-to_lower s) (trim_end-to_lower (trim_start s))

pub is_empty-to_lower : (s : Text) → is_empty (to_lower s) ≡ is_empty s
unfolding to_lower
is_empty-to_lower [] = refl
is_empty-to_lower (c ∷ s) = refl

-- A text without the separator is one part.
abbrev pub lacks : ℕ → Text → Bool
lacks d [] = true
lacks d (c ∷ s) = if c == d then false else lacks d s

pub split-lacks : (d : ℕ) (s : Text) → lacks d s ≡ true → split d s ≡ s ∷ []
unfolding split
split-lacks d [] h = refl
split-lacks d (c ∷ s) h = ground (arith, split-lacks d s)

first_part-push_front : (c : ℕ) (ps : List Text) → first_part (push_front c ps) ≡ c ∷ first_part ps
first_part-push_front c [] = refl
first_part-push_front c (p ∷ ps) = refl

-- The first part ends at the first separator.
pub first_part-split :
    (d : ℕ) (s t : Text) → lacks d s ≡ true → first_part (split d (s ++ d ∷ t)) ≡ s
unfolding split
first_part-split d [] t h = ground arith
first_part-split d (c ∷ s) t h =
    ground (arith, first_part-split d s t, first_part-push_front c (split d (s ++ d ∷ t)))

pub lacks-append :
    (d : ℕ) (s t : Text) → lacks d s ≡ true → lacks d t ≡ true → lacks d (s ++ t) ≡ true
lacks-append d [] t h k = k
lacks-append d (c ∷ s) t h k = ground (arith, lacks-append d s t)

pub to_lower-append : (s t : Text) → to_lower (s ++ t) ≡ to_lower s ++ to_lower t
unfolding to_lower
to_lower-append [] t = refl
to_lower-append (c ∷ s) t = ap (◌∷◌ (lower c)) (to_lower-append s t)

pub length-to_lower : (s : Text) → length (to_lower s) ≡ length s
unfolding to_lower
length-to_lower [] = refl
length-to_lower (c ∷ s) = ap suc (length-to_lower s)

pub drop-append : (s t : Text) → drop (length s) (s ++ t) ≡ t
drop-append [] t = refl
drop-append (c ∷ s) t = drop-append s t

pub take-append : (s t : Text) → take (length s) (s ++ t) ≡ s
take-append [] t = refl
take-append (c ∷ s) t = ap (◌∷◌ c) (take-append s t)

pub ends_with-append : (s t : Text) → ends_with (s ++ t) t ≡ true
ends_with-append s t =
    let n : length (s ++ t) - length t ≡ length s = omega (arith, length-append s t) in
    rw n (rw (drop-append s t) (ground (arith, length-append s t)))
