-- ===== src/Prelude/Split.antt =====
-- Python's str.split and str.join, by "/" (47).
use Prim.Native.Nat.{ℕ}
use Prim.Native.Char.{Char, code}
use Prim.Native.String.{String, [], ◌∷◌}
use Prim.Native.String.append.{nil, cons}
use mathlib.Core.Path.{◌≡◌, refl, ap, sym, ◌∙◌}
use mathlib.Core.Bool.{Bool, true, false, ◌||◌}
use mathlib.Core.Logic.{inl, inr}
use mathlib.Core.List.{List, [], ◌∷◌}
use native.Mathlib.Omega.{arith}
use text.Mathlib.TextEquality.{Char-path}
use litellm_gateway.Prelude.Tests.{nat_eq, Bool-cases}
use mathlib.Core.Option.{some}
use litellm_gateway.Prelude.Text.{
  split_dot, concat, split_on, join_with, first_grown, has_char, all_chars, is_word,
}

-- The first part of a text and the others.
split_parts : (s : String) → (w : String) × (ws : List String) × (split_on 47 s ≡ w ∷ ws)
unfolding split_on
split_parts [] = ("", [], refl)
split_parts (c ∷ s) =
    let rest = split_parts s in
    elim (Bool-cases (nat_eq (code c) 47)) [
      | inl e ↦ ("", split_on 47 s, rw e refl)
      | inr e ↦ (c ∷ rest.0, rest.1, rw (e, rest.2) refl)
    ]

is_slash : (c : Char) → nat_eq (code c) 47 ≡ true → c ≡ "/"
is_slash c e = Char-path c "/" (ground arith)

join-empty :
    (w : String) (ws : List String)
    → join_with "/" ("" ∷ w ∷ ws) ≡ concat "/" (join_with "/" (w ∷ ws))
unfolding join_with
join-empty w ws = nil (concat "/" (join_with "/" (w ∷ ws)))

join-grown :
    (c : Char) (w : String) (ws : List String)
    → join_with "/" ((c ∷ w) ∷ ws) ≡ c ∷ join_with "/" (w ∷ ws)
unfolding join_with
join-grown c w [] = refl
join-grown c w (v ∷ ws) = cons c w (concat "/" (join_with "/" (v ∷ ws)))

concat_slash : (s : String) → concat "/" s ≡ "/" ∷ s
concat_slash s = cons "/" "" s ∙ ap (◌∷◌ "/") (nil s)

-- "/".join(s.split("/")) == s
pub join-split : (s : String) → join_with "/" (split_on 47 s) ≡ s
unfolding split_on join_with
join-split [] = refl
join-split (c ∷ s) =
    let parts = split_parts s in
    elim (Bool-cases (nat_eq (code c) 47)) [
      | inl e ↦ rw e (
          ap (λ ws. join_with "/" ("" ∷ ws)) parts.2
          ∙ (join-empty parts.0 parts.1
              ∙ (ap (λ ws. concat "/" (join_with "/" ws)) (sym parts.2)
                  ∙ (ap (concat "/") (join-split s)
                      ∙ (concat_slash s ∙ ap (λ (d : Char). d ∷ s) (sym (is_slash c e)))))))
      | inr e ↦ rw e (
          ap (λ ws. join_with "/" (first_grown c ws)) parts.2
          ∙ (join-grown c parts.0 parts.1
              ∙ (ap (λ ws. c ∷ join_with "/" ws) (sym parts.2) ∙ ap (◌∷◌ c) (join-split s))))
    ]

nat_eq_refl : (n : ℕ) → nat_eq n n ≡ true
nat_eq_refl n = ground arith

or_false : (x y : Bool) → (x || y) ≡ false → (x ≡ false) × (y ≡ false)
or_false x y e = ground arith

-- A text without the separator is the first part of what it begins.
pub split_on-concat :
    (d : Char) (a b : String)
    → has_char (code d) a ≡ false
    → split_on (code d) (concat a (d ∷ b)) ≡ a ∷ split_on (code d) b
unfolding split_on has_char
split_on-concat d [] b h = ap (split_on (code d)) (nil (d ∷ b)) ∙ rw (nat_eq_refl (code d)) refl
split_on-concat d (c ∷ a) b h =
    let apart = or_false (nat_eq (code c) (code d)) (has_char (code d) a) h in
    ap (split_on (code d)) (cons c a (d ∷ b)) ∙ rw (apart.0, split_on-concat d a b apart.1) refl

pub split-concat :
    (a b : String)
    → has_char 47 a ≡ false
    → split_on 47 (concat a (concat "/" b)) ≡ a ∷ split_on 47 b
split-concat a b h = ap (λ s. split_on 47 (concat a s)) (concat_slash b) ∙ split_on-concat "/" a b h

-- [A-Za-z0-9_-]* has no "/".
pub word_without_slash : (s : String) → all_chars is_word s ≡ true → has_char 47 s ≡ false
unfolding all_chars has_char is_word
word_without_slash [] h = refl
word_without_slash (c ∷ s) h = ground (arith, word_without_slash s)

-- s.split(".", 1) of a text without a full stop, a full stop and any text.
pub split_dot-concat :
    (a b : String) → has_char 46 a ≡ false → split_dot (concat a (concat "." b)) ≡ some (a, b)
unfolding split_dot has_char
split_dot-concat [] b h = ap split_dot (nil (concat "." b) ∙ (cons "." "" b ∙ ap (◌∷◌ ".") (nil b)))
split_dot-concat (c ∷ a) b h =
    let apart = or_false (nat_eq (code c) 46) (has_char 46 a) h in
    ap split_dot (cons c a (concat "." b)) ∙ rw (apart.0, split_dot-concat a b apart.1) refl

pub has_char-concat :
    (k : ℕ) (a b : String) → has_char k (concat a b) ≡ (has_char k a || has_char k b)
unfolding has_char
has_char-concat k [] b = ap (has_char k) (nil b)
has_char-concat k (c ∷ a) b =
    ap (has_char k) (cons c a b)
    ∙ (ap (λ x. nat_eq (code c) k || x) (has_char-concat k a b)
        ∙ or_assoc (nat_eq (code c) k) (has_char k a) (has_char k b))
  where
    or_assoc : (x y z : Bool) → (x || (y || z)) ≡ ((x || y) || z)
    or_assoc true y z = refl
    or_assoc false y z = refl

pub concat_char : (d : Char) (s : String) → concat (d ∷ "") s ≡ d ∷ s
concat_char d s = cons d "" s ∙ ap (◌∷◌ d) (nil s)
