-- ===== src/Frames/Laws.antt =====
-- What a chain of parsers that succeeds says of its result.
use looplink.Base.{◌≡◌, ◌≢◌, refl, ap, subst, Option, none, some, [], ◌∷◌, arith}
use looplink.Text.{Text}
use looplink.Frames.{
  Field, text, ParseError, malformed, Parsed, err, ok, and_then, non_empty, non_empty_if,
  text_field, required_text, optional_text,
}

abbrev or_else {ℓ} : {A : Type ℓ} → A → Parsed A → A
or_else a (err e) = a
or_else a (ok b) = b

pub ok-sound {ℓ} : {A : Type ℓ} (Q : A → Type 0) (a b : A) → Q a → ok a ≡ ok b → Q b
ok-sound Q a b q p = subst Q (ap (λ x. or_else a x) p) q

pub err-sound {ℓ} : {A : Type ℓ} (Q : A → Type 0) (e : ParseError) (b : A) → err e ≡ ok b → Q b
err-sound Q e b p = ground arith

pub and_then-sound {ℓ κ} :
    {A : Type ℓ} {B : Type κ} (P : A → Type 0) (Q : B → Type 0) (p : Parsed A) (f : A → Parsed B)
    → ((a : A) → p ≡ ok a → P a)
    → ((a : A) → P a → (b : B) → f a ≡ ok b → Q b)
    → (b : B) → and_then p f ≡ ok b
    → Q b
and_then-sound P Q (err e) f h k b q = err-sound Q e b q
and_then-sound P Q (ok a) f h k b q = k a (h a refl) b q

pub skip-sound {ℓ κ} :
    {A : Type ℓ} {B : Type κ} (Q : B → Type 0) (p : Parsed A) (f : A → Parsed B)
    → ((a : A) (b : B) → f a ≡ ok b → Q b)
    → (b : B) → and_then p f ≡ ok b
    → Q b
skip-sound Q (err e) f k b q = err-sound Q e b q
skip-sound Q (ok a) f k b q = k a b q

non_empty_sound : (name : Text) (o : Option Text) (t : Text) → non_empty name o ≡ ok t → t ≢ []
non_empty_sound name none t p = ground arith
non_empty_sound name (some []) t p = ground arith
non_empty_sound name (some (c ∷ cs)) t p = ground arith

pub required_text_sound :
    (name : Text) (o : Option Field) (t : Text) → required_text name o ≡ ok t → t ≢ []
unfolding required_text
required_text_sound name o t p = non_empty_sound name (text_field o) t p

-- An optional text that is there is not empty.
abbrev pub Given : Option Text → Type 0
Given none = Unit
Given (some t) = t ≢ []

non_empty_if_sound :
    (name : Text) (o : Option Text) (t : Option Text) → non_empty_if name o ≡ ok t → Given t
non_empty_if_sound name none t p = err-sound Given (malformed name) t p
non_empty_if_sound name (some []) t p = err-sound Given (malformed name) t p
non_empty_if_sound name (some (c ∷ cs)) t p = ok-sound Given (some (c ∷ cs)) t (λ q. ground arith) p

pub optional_text_sound :
    (name : Text) (o : Option Field) (t : Option Text) → optional_text name o ≡ ok t → Given t
unfolding optional_text
optional_text_sound name none t p = ok-sound Given none t tt p
optional_text_sound name (some f) t p = non_empty_if_sound name (text_field (some f)) t p

pub required_text-ok :
    (name value : Text) → value ≢ [] → required_text name (some (text value)) ≡ ok value
unfolding required_text
required_text-ok name [] h = ground (arith, h refl)
required_text-ok name (c ∷ cs) h = refl
