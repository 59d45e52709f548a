-- ===== src/Prelude/Text.antt =====
-- Python's methods of str that the program uses, on texts as lists of characters.
use Prim.Native.Nat.{ℕ, zero, suc, ◌-◌, ◌/◌, ◌%◌}
use Prim.Native.Char.{Char, code}
use Prim.Native.String.{String, [], ◌∷◌, ◌++◌, char_at, count}
use Prim.Native.String.append.{nil, cons}
use mathlib.Core.Path.{◌≡◌, refl, ap}
use mathlib.Core.Bool.{Bool, true, false, ◌&&◌, ◌||◌}
use mathlib.Core.List.{List, [], ◌∷◌}
use mathlib.Core.Option.{Option, none, some}
use native.Mathlib.Omega.{arith}
use text.Mathlib.Text.{◌==◌}
use text.Mathlib.TextEquality.{eq_iff}
use litellm_gateway.Prelude.Tests.{if◌then◌else◌, leb, nat_eq}

-- s + t
abbrev pub concat : String → String → String
concat s t = s ++ t

pub concat_assoc : (a b c : String) → concat (concat a b) c ≡ concat a (concat b c)
concat_assoc [] b c = rw (nil b, nil (b ++ c)) refl
concat_assoc (x ∷ a) b c =
    rw (cons x a b, cons x (a ++ b) c, cons x a (b ++ c)) (ap (◌∷◌ x) (concat_assoc a b c))

pub concat-nil : (a : String) → concat a "" ≡ a
concat-nil [] = refl
concat-nil (x ∷ a) = rw (cons x a "") (ap (◌∷◌ x) (concat-nil a))

-- s.replace(c, "")
unfoldable pub without : ℕ → String → String
without k [] = []
without k (c ∷ s) = let rest = without k s in if nat_eq (code c) k then rest else c ∷ rest

-- s.lower() on ASCII letters.
unfoldable pub lower : String → String
lower [] = []
lower (c ∷ s) =
    let rest = lower s in
    if leb 65 (code c) && leb (code c) 90
    then char_at "abcdefghijklmnopqrstuvwxyz" (code c - 65) ∷ rest
    else c ∷ rest

-- s.rstrip(c)
unfoldable pub rstrip : ℕ → String → String
rstrip k [] = []
rstrip k (c ∷ s) = let rest = rstrip k s in if rest == "" && nat_eq (code c) k then [] else c ∷ rest

-- s[len(p):] if s.startswith(p)
unfoldable pub after_prefix : String → String → Option String
after_prefix [] s = some s
after_prefix (d ∷ p) [] = none
after_prefix (d ∷ p) (c ∷ s) =
    let rest = after_prefix p s in if c ∷ [] == d ∷ [] then rest else none

pub after_prefix-concat : (p s rest : String) → after_prefix p s ≡ some rest → s ≡ concat p rest
unfolding after_prefix
after_prefix-concat [] s rest h = ground (arith, nil rest)
after_prefix-concat (d ∷ p) [] rest h = ground arith
after_prefix-concat (d ∷ p) (c ∷ s) rest h =
    ground (arith, eq_iff (c ∷ []) (d ∷ []), cons d p rest, after_prefix-concat p s rest)

-- before and after, with `c` before both
abbrev pub longer : Char → Option (String × String) → Option (String × String)
longer c none = none
longer c (some (before, after)) = some (c ∷ before, after)

-- s.split(".", 1), unpacked into two: `none` where there is no full stop (46).
unfoldable pub split_dot : String → Option (String × String)
split_dot [] = none
split_dot (c ∷ s) =
    let rest = split_dot s in if nat_eq (code c) 46 then some ("", s) else longer c rest

abbrev pub first_grown : Char → List String → List String
first_grown c [] = (c ∷ "") ∷ []
first_grown c (w ∷ ws) = (c ∷ w) ∷ ws

-- s.split(c): one text more than there are separators.
unfoldable pub split_on : ℕ → String → List String
split_on k [] = "" ∷ []
split_on k (c ∷ s) =
    let rest = split_on k s in if nat_eq (code c) k then "" ∷ rest else first_grown c rest

-- sep.join(texts)
unfoldable pub join_with : String → List String → String
join_with sep [] = ""
join_with sep (w ∷ []) = w
join_with sep (w ∷ v ∷ ws) = w ++ (sep ++ join_with sep (v ∷ ws))

-- c.isspace()
unfoldable pub is_space : ℕ → Bool
is_space n =
    (leb 9 n && leb n 13)
    || (leb 28 n && leb n 32)
    || nat_eq n 133
    || nat_eq n 160
    || nat_eq n 5760
    || (leb 8192 n && leb n 8202)
    || nat_eq n 8232
    || nat_eq n 8233
    || nat_eq n 8239
    || nat_eq n 8287
    || nat_eq n 12288

unfoldable pub lstrip : String → String
lstrip [] = []
lstrip (c ∷ s) = let rest = lstrip s in if is_space (code c) then rest else c ∷ s

unfoldable pub rstrip_space : String → String
rstrip_space [] = []
rstrip_space (c ∷ s) =
    let rest = rstrip_space s in if rest == "" && is_space (code c) then [] else c ∷ rest

-- s.strip()
unfoldable pub strip : String → String
strip s = rstrip_space (lstrip s)

-- all(p(c) for c in s)
unfoldable pub all_chars : (ℕ → Bool) → String → Bool
all_chars p [] = true
all_chars p (c ∷ s) = p (code c) && all_chars p s

-- c in s
unfoldable pub has_char : ℕ → String → Bool
has_char k [] = false
has_char k (c ∷ s) = nat_eq (code c) k || has_char k s

-- [a-f0-9] and [A-Za-z0-9_-]
unfoldable pub is_hex : ℕ → Bool
is_hex n = (leb 48 n && leb n 57) || (leb 97 n && leb n 102)

unfoldable pub is_word : ℕ → Bool
is_word n =
    (leb 48 n && leb n 57)
    || (leb 65 n && leb n 90)
    || (leb 97 n && leb n 122)
    || nat_eq n 95
    || nat_eq n 45

-- s[:n]
unfoldable pub first_chars : ℕ → String → String
first_chars zero s = []
first_chars (suc n) [] = []
first_chars (suc n) (c ∷ s) = c ∷ first_chars n s

digits : ℕ → ℕ → String → String
digits zero n s = s
digits (suc fuel) n s =
    let rest = digits fuel (n / 10) (char_at "0123456789" (n % 10) ∷ s) in
    if leb n 9 then char_at "0123456789" n ∷ s else rest

-- str(n), with a turn for each digit and one more: n has at most n + 1 digits.
unfoldable pub decimal : ℕ → String
unfolding digits
decimal n = digits (suc n) n ""

-- re.fullmatch(prefix[a-f0-9]{n}, s)
abbrev pub is_hex_id : String → ℕ → String → Bool
is_hex_id prefix n s = tested (after_prefix prefix s)
  where
    tested : Option String → Bool
    tested none = false
    tested (some rest) = nat_eq (count rest) n && all_chars is_hex rest
