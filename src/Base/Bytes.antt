-- ===== src/Base/Bytes.antt =====
-- `std::string` as its bytes, with the members that the program calls.
use Prim.Native.Nat.{ℕ, zero, suc, ◌<◌}
use Prim.Native.Char.{code}
use Prim.Native.String.{String}
use mathlib.Core.Path.{◌≡◌, refl}
use mathlib.Core.Logic.{◌↔◌}
use mathlib.Core.Bool.{Bool, true, false, ◌&&◌, ◌||◌}
use mathlib.Core.Option
use mathlib.Core.Option.{Option, none, some}
use mathlib.Core.List.{List, [], ◌∷◌, ◌++◌}
use native.Mathlib.Omega.{arith}
use find_friend_bot.Base.Tests.{◌==◌, ltb, if◌then◌else◌}
use find_friend_bot.Base.Lists.{length}

abbrev pub Text : Type 0
Text = List ℕ

-- The bytes of an ASCII literal. `String` has its own `[]` and `∷`.
abbrev pub codes : String → Text
codes String.[] = []
codes (String.◌∷◌ c s) = code c ∷ codes s

-- `operator==`
unfoldable pub text_eq : Text → Text → Bool
text_eq [] [] = true
text_eq [] (y ∷ ys) = false
text_eq (x ∷ xs) [] = false
text_eq (x ∷ xs) (y ∷ ys) = (x == y) && text_eq xs ys

pub text_eq_iff : (a b : Text) → (text_eq a b ≡ true) ↔ (a ≡ b)
unfolding text_eq
text_eq_iff [] [] = ground arith
text_eq_iff [] (y ∷ ys) = ground arith
text_eq_iff (x ∷ xs) [] = ground arith
text_eq_iff (x ∷ xs) (y ∷ ys) = ground (arith, text_eq_iff xs ys)

pub text_eq_refl : (a : Text) → text_eq a a ≡ true
text_eq_refl a = (text_eq_iff a a).1 refl

-- `operator<`, byte by byte, the shorter text first.
unfoldable pub text_lt : Text → Text → Bool
text_lt [] [] = false
text_lt [] (y ∷ ys) = true
text_lt (x ∷ xs) [] = false
text_lt (x ∷ xs) (y ∷ ys) = ltb x y || ((x == y) && text_lt xs ys)

pub text_lt_trans : (a b c : Text) → text_lt a b ≡ true → text_lt b c ≡ true → text_lt a c ≡ true
unfolding text_lt
text_lt_trans [] [] c p q = ground arith
text_lt_trans [] (y ∷ b) [] p q = ground arith
text_lt_trans [] (y ∷ b) (z ∷ c) p q = refl
text_lt_trans (x ∷ a) [] c p q = ground arith
text_lt_trans (x ∷ a) (y ∷ b) [] p q = ground arith
text_lt_trans (x ∷ a) (y ∷ b) (z ∷ c) p q = ground (arith, text_lt_trans a b c)

pub text_lt_irrefl : (a : Text) → text_lt a a ≡ false
unfolding text_lt
text_lt_irrefl [] = refl
text_lt_irrefl (x ∷ a) = ground (arith, text_lt_irrefl a)

-- Two texts are in order one way, the other way, or equal.
pub text_lt_total : (a b : Text) → text_eq a b ≡ false → text_lt a b ≡ false → text_lt b a ≡ true
unfolding text_lt text_eq
text_lt_total [] [] p q = ground arith
text_lt_total [] (y ∷ b) p q = ground arith
text_lt_total (x ∷ a) [] p q = refl
text_lt_total (x ∷ a) (y ∷ b) p q = ground (arith, text_lt_total a b)

-- `find(c)`: the first position of a byte; `none` is `npos`.
unfoldable pub find_byte : ℕ → Text → Option ℕ
find_byte c [] = none
find_byte c (x ∷ xs) = if x == c then some 0 else Option.map (λ i. suc i) (find_byte c xs)

-- Whether a text holds a byte.
abbrev pub has_byte : ℕ → Text → Bool
has_byte c [] = false
has_byte c (x ∷ xs) = (x == c) || has_byte c xs

-- The bytes before the first NUL: what a `const char*` into the text stands for.
unfoldable pub c_str : Text → Text
c_str [] = []
c_str (x ∷ xs) = if x == 0 then [] else x ∷ c_str xs

pub find_byte-none : (c : ℕ) (s : Text) → has_byte c s ≡ false → find_byte c s ≡ none
unfolding find_byte
find_byte-none c [] h = refl
find_byte-none c (x ∷ s) h = ground (arith, find_byte-none c s)

pub find_byte-append :
    (c : ℕ) (s t : Text) → has_byte c s ≡ false → find_byte c (s ++ c ∷ t) ≡ some (length s)
unfolding find_byte
find_byte-append c [] t h = ground arith
find_byte-append c (x ∷ s) t h = ground (arith, find_byte-append c s t)

pub find_byte_lt : (c : ℕ) (s : Text) {i : ℕ} → find_byte c s ≡ some i → i < length s
unfolding find_byte
find_byte_lt c [] h = cc
find_byte_lt c (x ∷ s) {i = zero} h = omega arith
find_byte_lt c (x ∷ s) {i = suc i} h = ground (arith, find_byte_lt c s {i = i})

pub has_byte-c_str : (s : Text) → has_byte 0 (c_str s) ≡ false
unfolding c_str
has_byte-c_str [] = refl
has_byte-c_str (x ∷ s) = ground (arith, has_byte-c_str s)

pub c_str_id : (s : Text) → has_byte 0 s ≡ false → c_str s ≡ s
unfolding c_str
c_str_id [] h = refl
c_str_id (x ∷ s) h = ground (arith, c_str_id s)
