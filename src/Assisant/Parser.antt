-- ===== src/Assisant/Parser.antt =====
-- `Assisant::parse_msg`.
use mathlib.Core.List.{append_assoc}
use mathlib.Core.Path.{◌∙◌, ap₂}
use native.Mathlib.Numerals.{add-one}
use find_friend_bot.Base.{
  ℕ, suc, ◌+◌, ◌-◌, ◌%◌, ◌^◌, ◌<◌, ◌≤◌, ◌≡◌, refl, false, ◌||◌, Option, none, some, [], ◌∷◌, ◌++◌,
  arith, Text, leb, if◌then◌else◌, length, length-append, take, drop, take_all, take-append,
  drop-append, drop_all, find_byte, has_byte, find_byte-append, find_byte-none, find_byte_lt,
  Option-cases, inl, inr,
}

-- `a - b` on `size_t`
abbrev pub sub64 : ℕ → ℕ → ℕ
sub64 a b = (a + 2 ^ 64 - b) % 2 ^ 64

-- `s.substr(pos, n)`; `none` is `std::out_of_range`.
unfoldable pub substr : Text → ℕ → ℕ → Option Text
substr s pos n = if leb pos (length s) then some (take n (drop pos s)) else none

-- The end of the command: the first blank, or the end of the message.
abbrev pub command_end : Text → ℕ
command_end msg = elim (find_byte b' ' msg) [ none ↦ length msg | some e ↦ e ]

abbrev pub both : Option Text → Option Text → Option (Text × Text)
both none p = none
both (some c) none = none
both (some c) (some p) = some (c, p)

-- The command and the parameter, as they were if there is no slash.
unfoldable pub parse_msg : Text → Text × Text → Option (Text × Text)
unfolding substr
parse_msg msg old = elim (find_byte b'/' msg) [
  | none ↦ some old
  | some start ↦
      both (substr msg (start + 1) (sub64 (sub64 (command_end msg) start) 1))
        (substr msg (command_end msg) (sub64 (length msg) (command_end msg)))
]

command_end_le : (msg : Text) → command_end msg ≤ length msg
command_end_le msg = elim (Option-cases (find_byte b' ' msg)) [
  | inl e ↦ rw (e, command_end) (omega arith)
  | inr (i, e) ↦ rw (e, command_end) (omega (arith, find_byte_lt b' ' msg e))
]

substr_lem : (s : Text) (pos n : ℕ) → pos ≤ length s → substr s pos n ≡ some (take n (drop pos s))
unfolding substr
substr_lem s pos n h = ground arith

parse_msg_found :
    (msg : Text) (old : Text × Text) (start end : ℕ)
    → find_byte b'/' msg ≡ some start
    → command_end msg ≡ end
    → parse_msg msg old
      ≡ some (
        take (sub64 (sub64 end start) 1) (drop (start + 1) msg),
        take (sub64 (length msg) end) (drop end msg),
      )
unfolding parse_msg
parse_msg_found msg old start end e f =
    rw
      (
        e,
        parse_msg,
        f,
        substr_lem msg (start + 1) (sub64 (sub64 end start) 1)
            (ground (arith, find_byte_lt b'/' msg e)),
        substr_lem msg end (sub64 (length msg) end) (ground (arith, command_end_le msg)),
      )
      refl

-- `parse_msg` gives a command and a parameter for every message; no `substr` throws.
pub parse_msg_total :
    (msg : Text) (old : Text × Text) → (r : Text × Text) × (parse_msg msg old ≡ some r)
unfolding parse_msg
parse_msg_total msg old = elim (Option-cases (find_byte b'/' msg)) [
  | inl e ↦ (old, rw (e, parse_msg) refl)
  | inr (i, e) ↦ (
    (
      take (sub64 (sub64 (command_end msg) i) 1) (drop (i + 1) msg),
      take (sub64 (length msg) (command_end msg)) (drop (command_end msg) msg),
    ),
    parse_msg_found msg old i (command_end msg) e refl,
  )
]

drop-next : (pre rest : Text) (c : ℕ) → drop (suc (length pre)) (pre ++ c ∷ rest) ≡ rest
drop-next [] rest c = refl
drop-next (x ∷ pre) rest c = drop-next pre rest c

has_byte-append : (c : ℕ) (s t : Text) → has_byte c (s ++ t) ≡ (has_byte c s || has_byte c t)
has_byte-append c [] t = refl
has_byte-append c (x ∷ s) t = ground (arith, has_byte-append c s t)

-- What stands before the first blank of a message, with its slash.
module _ (pre word : Text) (old : Text × Text) where
  word_of :
      (rest : Text) (n : ℕ)
      → n ≡ length word
      → take n (drop (length pre + 1) (pre ++ b'/' ∷ (word ++ rest))) ≡ word
  word_of rest n e =
      rw (e, add-one (length pre), drop-next pre (word ++ rest) b'/') (take-append word rest)

  module _ (s : has_byte b'/' pre ≡ false) (b : has_byte b' ' pre ≡ false)
      (w : has_byte b' ' word ≡ false) where
    no_blank : has_byte b' ' (pre ++ b'/' ∷ word) ≡ false
    no_blank = ground (arith, has_byte-append b' ' pre (b'/' ∷ word))

    -- For a message below 2^64 bytes with no slash and no blank before the slash of its command,
    -- and no blank in the command, the command is what stands between the slash and the first
    -- blank, and the parameter is the rest, with that blank.
    pub parse_msg_words :
        (arg : Text)
        → length (pre ++ b'/' ∷ word ++ b' ' ∷ arg) < 2 ^ 64
        → parse_msg (pre ++ b'/' ∷ word ++ b' ' ∷ arg) old ≡ some (word, b' ' ∷ arg)
    parse_msg_words arg l =
        parse_msg_found (pre ++ b'/' ∷ word ++ b' ' ∷ arg) old (length pre)
          (length (pre ++ b'/' ∷ word))
          (rw (append_assoc pre (b'/' ∷ word) (b' ' ∷ arg))
            (find_byte-append b'/' pre (word ++ b' ' ∷ arg) s))
          (rw (find_byte-append b' ' (pre ++ b'/' ∷ word) arg no_blank, command_end) refl)
        ∙ ap₂ (λ (c p : Text). some (c, p))
            (rw (append_assoc pre (b'/' ∷ word) (b' ' ∷ arg)) (
              word_of (b' ' ∷ arg) _ (
                omega (
                  arith,
                  length-append pre (b'/' ∷ word),
                  length-append (pre ++ b'/' ∷ word) (b' ' ∷ arg),
                ))))
            (rw (drop-append (pre ++ b'/' ∷ word) (b' ' ∷ arg)) (
              take_all _ (b' ' ∷ arg)
                (omega (arith, length-append (pre ++ b'/' ∷ word) (b' ' ∷ arg)))))

    -- For a message below 2^64 bytes that has no blank and a slash, the command is what follows the
    -- first slash, and the parameter is empty.
    pub parse_msg_word :
        length (pre ++ b'/' ∷ word) < 2 ^ 64 → parse_msg (pre ++ b'/' ∷ word) old ≡ some (word, [])
    parse_msg_word l =
        parse_msg_found (pre ++ b'/' ∷ word) old (length pre) (length (pre ++ b'/' ∷ word))
          (find_byte-append b'/' pre word s)
          (rw (find_byte-none b' ' (pre ++ b'/' ∷ word) no_blank, command_end) refl)
        ∙ ap₂ (λ (c p : Text). some (c, p))
            (take_word (omega (arith, length-append pre (b'/' ∷ word))))
            (rw (drop_all (pre ++ b'/' ∷ word)) (take_all _ [] (omega arith)))
      where
        take_word :
            {n : ℕ} → n ≡ length word → take n (drop (length pre + 1) (pre ++ b'/' ∷ word)) ≡ word
        take_word {n} e =
            rw (e, add-one (length pre), drop-next pre word b'/')
              (take_all (length word) word (omega arith))

-- For a message below 2^63 bytes whose first blank stands before its first slash, the command is
-- all that follows the slash, and the parameter begins at the blank, before the command.
pub parse_msg_blank_first :
    (pre mid rest : Text) (old : Text × Text)
    → has_byte b' ' pre ≡ false
    → has_byte b'/' (pre ++ b' ' ∷ mid) ≡ false
    → length (pre ++ b' ' ∷ mid ++ b'/' ∷ rest) < 2 ^ 63
    → parse_msg (pre ++ b' ' ∷ mid ++ b'/' ∷ rest) old ≡ some (rest, b' ' ∷ mid ++ b'/' ∷ rest)
parse_msg_blank_first pre mid rest old b s l =
    parse_msg_found (pre ++ b' ' ∷ mid ++ b'/' ∷ rest) old (length (pre ++ b' ' ∷ mid)) (length pre)
      (find_byte-append b'/' (pre ++ b' ' ∷ mid) rest s)
      (rw (append_assoc pre (b' ' ∷ mid) (b'/' ∷ rest))
        (rw (find_byte-append b' ' pre (mid ++ b'/' ∷ rest) b, command_end) refl))
    ∙ ap₂ (λ (c p : Text). some (c, p))
        (rw (add-one (length (pre ++ b' ' ∷ mid)), drop-next (pre ++ b' ' ∷ mid) rest b'/')
          (take_all _ rest (
            omega (
              arith,
              length-append pre (b' ' ∷ mid),
              length-append (pre ++ b' ' ∷ mid) (b'/' ∷ rest),
            ))))
        (rw
          (append_assoc pre (b' ' ∷ mid) (b'/' ∷ rest), drop-append pre (b' ' ∷ mid ++ b'/' ∷ rest))
          (take_all _ (b' ' ∷ mid ++ b'/' ∷ rest) (
            omega (
              arith,
              length-append pre (b' ' ∷ mid ++ b'/' ∷ rest),
              length-append mid (b'/' ∷ rest),
              length-append pre (b' ' ∷ mid),
              length-append (pre ++ b' ' ∷ mid) (b'/' ∷ rest),
            ))))

parse_msg_none :
    (msg : Text) (old : Text × Text) → has_byte b'/' msg ≡ false → parse_msg msg old ≡ some old
unfolding parse_msg
parse_msg_none msg old h = rw (find_byte-none b'/' msg h, parse_msg) refl
