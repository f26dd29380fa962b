-- ===== src/MemberMgr/Placed.antt =====
-- A manager for each finite map from keys to members: the objects stand at the addresses from 1 on.
use find_friend_bot.Base.{
  ℕ, suc, ◌+◌, ◌<◌, ◌≤◌, ◌≡◌, refl, false, Option, none, some, List, [], ◌∷◌, Text, text_eq,
  text_eq_iff, is_some, count, count-append, length, ◌==◌, if◌then◌else◌, arith, ap, ◌∙◌,
  Option-cases, Bool-cases, inl, inr,
}
use find_friend_bot.Map.{find, values, IsAbove, IsSorted}
use find_friend_bot.Lock.{unlocked}
use find_friend_bot.LockedQueue.{Ptr}
use find_friend_bot.Member.{Member}
use find_friend_bot.MemberMgr.{MemberMgr}
use find_friend_bot.MemberMgr.Invariant.{IsValid}
use find_friend_bot.MemberMgr.View.{view}

-- Each member stands under its own key.
abbrev pub Named : List (Text × Member) → Type 0
Named [] = Unit {0}
Named ((k, a) ∷ l) = (a.pk ≡ k) × Named l

abbrev places : ℕ → List (Text × Member) → List (Text × Ptr)
places n [] = []
places n ((k, a) ∷ l) = (k, n) ∷ places (suc n) l

abbrev cells : ℕ → List (Text × Member) → Ptr → Option Member
cells n [] q = none
cells n ((k, a) ∷ l) q = if n == q then some a else cells (suc n) l q

-- The members at the addresses from `n` on.
abbrev pub placed : ℕ → List (Text × Member) → MemberMgr
placed n l = record {
  online_member = places n l;
  free_list = record { next = n + length l; cell = cells n l; free_list = []; lock = unlocked };
}

cells_below : (n : ℕ) (l : List (Text × Member)) (q : Ptr) → q < n → cells n l q ≡ none
cells_below n [] q h = refl
cells_below n (x ∷ l) q h =
    let other : (n == q) ≡ false = ground (arith, h) in
    rw other (cells_below (suc n) l q (omega (arith, h)))

cells_above : (n : ℕ) (l : List (Text × Member)) (q : Ptr) → n + length l ≤ q → cells n l q ≡ none
cells_above n [] q h = refl
cells_above n (x ∷ l) q h =
    let other : (n == q) ≡ false = ground (arith, h) in
    rw other (cells_above (suc n) l q (omega (arith, h)))

count-places :
    (n : ℕ) (l : List (Text × Member)) (q : Ptr)
    → count q (values (places n l)) ≡ (if is_some (cells n l q) then 1 else 0)
count-places n [] q = refl
count-places n (x ∷ l) q = elim (Bool-cases (n == q)) [
  | inl e ↦
      let gone = cells_below (suc n) l q (ground (arith, e)) in
      rw e
        (omega (arith, count-places (suc n) l q, ap {B = ℕ} (λ o. if is_some o then 1 else 0) gone))
  | inr e ↦ rw e (omega (arith, count-places (suc n) l q))
]

places-IsAbove :
    (k : Text) (n : ℕ) (l : List (Text × Member)) → IsAbove k l → IsAbove k (places n l)
places-IsAbove k n [] h = tt
places-IsAbove k n (x ∷ l) (h, hs) = (h, places-IsAbove k (suc n) l hs)

places-IsSorted : (n : ℕ) (l : List (Text × Member)) → IsSorted l → IsSorted (places n l)
places-IsSorted n [] h = tt
places-IsSorted n ((k, a) ∷ l) (h, hs) =
    (places-IsAbove k (suc n) l h, places-IsSorted (suc n) l hs)

find-places :
    (k : Text) (n : ℕ) (l : List (Text × Member)) (q : Ptr) → find k (places n l) ≡ some q → n ≤ q
unfolding find
find-places k n [] q e = absurd (ground (arith, e))
find-places k n ((j, a) ∷ l) q e = elim (Bool-cases (text_eq j k)) [
  | inl f ↦ let first : n ≡ q = ground (arith, e, f) in omega (arith, first)
  | inr f ↦
      let rest : find k (places (suc n) l) ≡ some q = ground (arith, e, f) in
      omega (arith, find-places k (suc n) l q rest)
]

-- An address that is not the first one.
later :
    (n : ℕ) (x : Text × Member) (l : List (Text × Member)) (q : Ptr)
    → suc n ≤ q
    → cells n (x ∷ l) q ≡ cells (suc n) l q
later n x l q h = let other : (n == q) ≡ false = ground (arith, h) in rw other refl

pub view-placed : (k : Text) (n : ℕ) (l : List (Text × Member)) → view (placed n l) k ≡ find k l
unfolding find
view-placed k n [] = refl
view-placed k n ((j, a) ∷ l) = elim (Bool-cases (text_eq j k)) [
  | inl f ↦ rw f (ground arith)
  | inr f ↦ elim (Option-cases (find k (places (suc n) l))) [
    | inl e ↦ rw (f, e) (rw e at (view-placed k (suc n) l))
    | inr (q, e) ↦
        rw (f, e)
          (later n (j, a) l q (find-places k (suc n) l q e) ∙ rw e at (view-placed k (suc n) l))
  ]
]

keyed_places :
    (n : ℕ) (l : List (Text × Member))
    → Named l
    → (k : Text) (q : Ptr) → find k (places n l) ≡ some q
    → (a : Member) × (cells n l q ≡ some a) × (a.pk ≡ k)
unfolding find
keyed_places n [] h k q e = absurd (ground (arith, e))
keyed_places n ((j, a) ∷ l) (h, hs) k q e = elim (Bool-cases (text_eq j k)) [
  | inl f ↦
      let first : n ≡ q = ground (arith, e, f) in
      (a, rw first (ground arith), h ∙ (text_eq_iff j k).0 f)
  | inr f ↦
      let rest : find k (places (suc n) l) ≡ some q = ground (arith, e, f) in
      let (b, live, own) = keyed_places (suc n) l hs k q rest in
      (b, later n (j, a) l q (find-places k (suc n) l q rest) ∙ live, own)
]

pub placed-IsValid : (l : List (Text × Member)) → IsSorted l → Named l → IsValid [] (placed 1 l)
placed-IsValid l s named = record {
  owned = record {
    one_owner = λ q. omega (arith, count-places 1 l q, count-append q (values (places 1 l)) []);
    null_dead = cells_below 1 l 0 (omega arith);
    fresh = λ q h. cells_above 1 l q h;
    started = omega arith;
    lock_free = refl;
    bounded = omega arith;
  };
  sorted = places-IsSorted 1 l s;
  keyed = keyed_places 1 l named;
}
