-- ===== src/Assisant/Agreement.antt =====
-- Where the cache and the table agree: who is online has a row that shows the same, up to the NULs
-- that end what the database is given.
pub mod Restart
pub mod Runs
pub mod Steps
use mathlib.Core.Option
use mathlib.Core.Option.{some-injective}
use find_friend_bot.Base.{
  ℕ, ◌≡◌, refl, sym, ap, ◌∙◌, subst, true, false, [], ◌∷◌, Option, none, some, Text, codes, c_str,
  c_str_id, has_byte-c_str, text_eq, text_eq_iff, Option-cases, Bool-cases, inl, inr, if◌then◌else◌,
}
use find_friend_bot.Member.{Member, member, set_signature, set_nick_name, set_bio}
use find_friend_bot.MemberMgr.View.{or_else}
use find_friend_bot.MemberModel.Fetch.{member_in}
use find_friend_bot.MemberModel.Writes.{Table, put_row}
use find_friend_bot.Sql.{Row}
use find_friend_bot.Sql.Healthy.{signed, with_bio, with_nick_name}
use find_friend_bot.Assisant.CachedView.{Directory, put}
use find_friend_bot.Assisant.Frame.{Keyed}
use find_friend_bot.Assisant.Records.{altered}

-- A member as the database keeps it.
abbrev pub kept : Member → Member
kept a = member (c_str a.pk) (c_str a.tok_id) (c_str a.nick_name) (c_str a.bio) (c_str a.signature)

abbrev pub Matches : Option Member → Option Row → Type 0
Matches none row = Unit {0}
Matches (some a) none = ⊥
Matches (some a) (some row) = kept (member_in row) ≡ kept a

abbrev pub Agrees : Text → Directory → Table → Type 0
Agrees key d t = Matches (d key) (t key)

pub c_str_twice : (s : Text) → c_str (c_str s) ≡ c_str s
c_str_twice s = c_str_id (c_str s) (has_byte-c_str s)

-- Both sides change alike.
Matches-alter :
    (f : Member → Member) (g : Row → Row)
    → ((a : Member) (row : Row)
        → kept (member_in row) ≡ kept a
        → kept (member_in (g row)) ≡ kept (f a))
    → (x : Option Member) (r : Option Row) → Matches x r
    → Matches (Option.map f x) (Option.map g r)
Matches-alter f g alike none r m = tt
Matches-alter f g alike (some a) none m = m
Matches-alter f g alike (some a) (some row) m = alike a row m

signed_alike :
    (s : Text) (now : ℕ) (a : Member) (row : Row)
    → kept (member_in row) ≡ kept a
    → kept (member_in (signed (c_str s) now row)) ≡ kept (set_signature s a)
signed_alike s now a row e =
    ap (λ z. set_signature z (kept (member_in row))) (c_str_twice s)
    ∙ ap (set_signature (c_str s)) e

named_alike :
    (s : Text) (now : ℕ) (a : Member) (row : Row)
    → kept (member_in row) ≡ kept a
    → kept (member_in (with_nick_name (c_str s) now row)) ≡ kept (set_nick_name s a)
named_alike s now a row e =
    ap (λ z. set_nick_name z (kept (member_in row))) (c_str_twice s)
    ∙ ap (set_nick_name (c_str s)) e

bio_alike :
    (s : Text) (now : ℕ) (a : Member) (row : Row)
    → kept (member_in row) ≡ kept a
    → kept (member_in (with_bio (c_str s) now row)) ≡ kept (set_bio s a)
bio_alike s now a row e =
    ap (λ z. set_bio z (kept (member_in row))) (c_str_twice s) ∙ ap (set_bio (c_str s)) e

-- One entry of each side changes, under a key without a NUL.
pub Agrees-put :
    (key k : Text) (x : Option Member) (r : Option Row) (d : Directory) (t : Table)
    → c_str k ≡ k
    → (k ≡ key → Matches x r)
    → Agrees key d t
    → Agrees key (put k x d) (put_row (c_str k) r t)
Agrees-put key k x r d t plain new old = elim (Bool-cases (text_eq k key)) [
  | inl e ↦ rw (plain, e) (new ((text_eq_iff k key).0 e))
  | inr e ↦ rw (plain, e) old
]

pub Agrees-alter :
    (key k : Text) (f : Member → Member) (g : Row → Row) (d : Directory) (t : Table)
    → ((a : Member) (row : Row)
        → kept (member_in row) ≡ kept a
        → kept (member_in (g row)) ≡ kept (f a))
    → c_str k ≡ k
    → Agrees key d t
    → Agrees key (put k (Option.map f (d k)) d) (altered g (c_str k) t)
Agrees-alter key k f g d t alike plain old =
    Agrees-put key k (Option.map f (d k)) (Option.map g (t (c_str k))) d t plain
      (λ e.
        rw plain
          (Matches-alter f g alike (d k) (t k) (subst (λ z. Matches (d z) (t z)) (sym e) old)))
      old
