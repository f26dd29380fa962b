-- ===== src/Bot/Log.antt =====
-- src/Bot.cpp: what `print_debug_log` and `print_tox_id` hand to the logger.
use find_friend_bot.Base.{
  ℕ, zero, suc, ◌+◌, ◌*◌, ◌-◌, ◌/◌, ◌%◌, ◌^◌, ◌≡◌, ◌≢◌, ◌≤◌, ◌<◌, refl, ◌&&◌, Option, none, some,
  List, [], ◌∷◌, ◌++◌, Text, codes, length, take, map, ◌==◌, ltb, leb, if◌then◌else◌, Cmd, ok,
  fault, out_of_range, pure, arith, ap, ◌∙◌, Bool-cases, inl, inr, length-append,
}
use find_friend_bot.World.{Env}
use find_friend_bot.Bot.{
  Boot, LogLevel, log_trace, log_debug, log_info, log_warning, log_error, log_other,
  tox_log_level_name,
}

-- `strrchr(path, '/')`, one further.
unfoldable pub behind_slash : Text → Option Text
behind_slash [] = none
behind_slash (c ∷ path) = elim (behind_slash path) [
  | none ↦ if c == 47 then some path else none
  | some file ↦ some file
]

unfoldable pub file_of : Text → Text
file_of path = elim (behind_slash path) [ none ↦ path | some file ↦ file ]

-- The decimal digits of a number in front of a text; a number of 32 bits has at most ten.
unfoldable pub digits : ℕ → ℕ → Text → Text
digits zero n text = text
digits (suc fuel) n text =
    let rest = digits fuel (n / 10) ((48 + n % 10) ∷ text) in
    if ltb n 10 then (48 + n) ∷ text else rest

-- `%d` of a `uint32_t`.
unfoldable pub as_int : ℕ → Text
as_int n = if ltb n (2 ^ 31) then digits 10 n [] else 45 ∷ digits 10 (2 ^ 32 - n) []

abbrev pub tab : Text
tab = 9 ∷ []

abbrev pub newline : Text
newline = 10 ∷ []

unfoldable pub log_line : ℕ → LogLevel → Text → ℕ → Text → Text → Text
log_line index level path line func message =
    codes "[#"
    ++ as_int index
    ++ codes "] "
    ++ tox_log_level_name level
    ++ codes " "
    ++ file_of path
    ++ codes ":"
    ++ as_int line
    ++ tab
    ++ func
    ++ codes ":"
    ++ tab
    ++ message
    ++ newline

-- `user_data ? *(uint32_t *)user_data : 0`
abbrev pub index_of : Option ℕ → ℕ
index_of none = 0
index_of (some index) = index

-- The buffer has 512 bytes, the NUL included. The state is the texts that the logger got, the latest
-- first; `user_data` points to the index.
unfoldable pub print_debug_log :
    LogLevel → Text → ℕ → Text → Text → Option ℕ → Cmd (List Text) (Unit {0})
print_debug_log log_trace path line func message user_data = pure tt
print_debug_log level path line func message user_data =
    let buf = log_line (index_of user_data) level path line func message in
    λ log. if ltb (length buf) 512 then ok tt (buf ∷ log) else fault out_of_range

-- `toupper` in the C locale
abbrev pub toupper : ℕ → ℕ
toupper c = if leb 97 c && leb c 122 then c - 32 else c

-- The loop over the 76 characters of the buffer in front of its NUL.
unfoldable pub print_tox_id : {T S : Type 0} → Env T S → Boot T → T → Cmd (List Text) (Unit {0})
print_tox_id env boot tox log =
    let tox_id_hex = env.sodium.bin2hex (boot.tox_self_get_address tox) in
    ok tt ((codes "Tox ID: " ++ map toupper (take 76 tox_id_hex)) ∷ log)

length-digits : (fuel n : ℕ) (text : Text) → length (digits fuel n text) ≤ fuel + length text
unfolding digits
length-digits zero n text = omega arith
length-digits (suc fuel) n text = ground (arith, length-digits fuel (n / 10) ((48 + n % 10) ∷ text))

length-as_int : (n : ℕ) → length (as_int n) ≤ 11
unfolding as_int
length-as_int n = ground (arith, length-digits 10 n [], length-digits 10 (2 ^ 32 - n) [])

length-tox_log_level_name : (level : LogLevel) → length (tox_log_level_name level) ≤ 9
length-tox_log_level_name log_trace = omega arith
length-tox_log_level_name log_debug = omega arith
length-tox_log_level_name log_info = omega arith
length-tox_log_level_name log_warning = omega arith
length-tox_log_level_name log_error = omega arith
length-tox_log_level_name log_other = omega arith

length-log_line :
    (index : ℕ) (level : LogLevel) (path : Text) (line : ℕ) (func message : Text)
    → (length message < length (log_line index level path line func message))
      × (length (log_line index level path line func message)
          ≤ 41 + length (file_of path) + length func + length message)
unfolding log_line
length-log_line index level path line func message =
    grind (arith, length-append, length-as_int, length-tox_log_level_name)

-- The number that decimal digits stand for, in front of what was read.
abbrev pub value : ℕ → Text → ℕ
value n [] = n
value n (c ∷ cs) = value (10 * n + (c - 48)) cs

abbrev pub limit : ℕ → ℕ
limit zero = 10
limit (suc fuel) = 10 * limit fuel

one_digit : (n : ℕ) (text : Text) → value 0 ((48 + n) ∷ text) ≡ value n text
one_digit n text =
    let same : 10 * 0 + (48 + n - 48) ≡ n = omega arith in ap (λ k. value k text) same

-- The digits are those of the number, if the fuel is enough.
pub value-digits :
    (fuel n : ℕ) (text : Text) → n < limit fuel → value 0 (digits (suc fuel) n text) ≡ value n text
unfolding digits
value-digits zero n text h = elim (Bool-cases (ltb n 10)) [
  | inl e ↦ rw e (one_digit n text)
  | inr e ↦ absurd (ground (arith, h, e))
]
value-digits (suc fuel) n text h = elim (Bool-cases (ltb n 10)) [
  | inl e ↦ rw e (one_digit n text)
  | inr e ↦
      let read : 10 * (n / 10) + (48 + n % 10 - 48) ≡ n = omega arith in
      rw e (
        value-digits fuel (n / 10) ((48 + n % 10) ∷ text) (omega (arith, h))
        ∙ ap (λ k. value k text) read)
]

-- Ten digits are enough for a number of 32 bits.
pub value-as_int : (n : ℕ) → n < 2 ^ 31 → value 0 (as_int n) ≡ n
unfolding as_int
value-as_int n h = ground (arith, value-digits 9 n [] (omega (arith, h)))

-- Any level but the first is printed.
printed :
    (level : LogLevel) (path : Text) (line : ℕ) (func message : Text) (user_data : Option ℕ)
    (log : List Text)
    → level ≢ log_trace
    → print_debug_log level path line func message user_data log ≡ (
        let buf = log_line (index_of user_data) level path line func message in
        if ltb (length buf) 512 then ok tt (buf ∷ log) else fault out_of_range)
unfolding print_debug_log
printed log_trace path line func message user_data log d = absurd (d refl)
printed log_debug path line func message user_data log d = refl
printed log_info path line func message user_data log d = refl
printed log_warning path line func message user_data log d = refl
printed log_error path line func message user_data log d = refl
printed log_other path line func message user_data log d = refl

-- At any level but the first, `print_debug_log` hands the line to the logger if the file name, the
-- function and the message have at most 470 bytes together, and writes beyond its buffer if the
-- message has 511 or more.
pub print_debug_log_fits :
    (level : LogLevel) (path : Text) (line : ℕ) (func message : Text) (user_data : Option ℕ)
    (log : List Text)
    → level ≢ log_trace
    → (length (file_of path) + length func + length message ≤ 470
        → print_debug_log level path line func message user_data log
          ≡ ok tt (log_line (index_of user_data) level path line func message ∷ log))
      × (511 ≤ length message
          → print_debug_log level path line func message user_data log ≡ fault out_of_range)
print_debug_log_fits level path line func message user_data log d =
    let size = length-log_line (index_of user_data) level path line func message in
    (
      λ h. printed level path line func message user_data log d ∙ ground (arith, size, h),
      λ h. printed level path line func message user_data log d ∙ ground (arith, size, h),
    )
