-- ===== src/LockedQueue/Contained.antt =====
-- `lock_container` as a map, and whom its destructor deletes.
use find_friend_bot.Base.{
  ◌≡◌, ◌≢◌, ◌≤◌, refl, true, false, Bool, Option, none, some, List, [], ◌∷◌, Text, text_eq, ◌==◌,
  if◌then◌else◌, count, is_some, ok, fault, dangling, ◌>>◌, arith, Returns, returns, Returns-bind,
  Returns-mono, Option-cases, Bool-cases, inl, inr,
}
use find_friend_bot.Map
use find_friend_bot.Map.{assign, erase, values, IsSorted}
use find_friend_bot.Map.Laws.{find-assign, find-erase}
use find_friend_bot.Lock.{unlocked, locked_by, acquire_free, release_taken}
use find_friend_bot.LockedQueue.{Ptr, null, Locking, write}
use find_friend_bot.LockedQueue.Container.{
  Container, found, delete, delete_each, acquire, release, insert, remove, find, clear,
}

found_if :
    (b : Bool) (x y : Option Ptr) → found (if b then x else y) ≡ (if b then found x else found y)
found_if true x y = refl
found_if false x y = refl

module _ {A : Type 0} where
  -- `c'` is `c` less the objects of `qs`.
  abbrev pub Without : List Ptr → Container A → Container A → Type 0
  Without qs c c' =
      (c'.lock ≡ c.lock) × ((q : Ptr) → c'.cell q ≡ (if count q qs == 0 then c.cell q else none))

  -- Each pointer that is not null stands once, and its object is alive.
  abbrev pub EachOnce : List Ptr → Container A → Type 0
  EachOnce qs c =
      (q : Ptr) → q ≢ null → (count q qs ≤ 1) × (count q qs ≢ 0 → is_some (c.cell q) ≡ true)

  delete_each-Without :
      (qs : List Ptr) (c : Container A)
      → EachOnce qs c
      → c.cell null ≡ none
      → Returns (λ _ c'. Without qs c c') (delete_each qs c)
  unfolding delete_each delete
  delete_each-Without [] c h z = returns (refl, λ q. refl)
  delete_each-Without (q ∷ qs) c h z = elim (Bool-cases (q == null)) [
    | inl e ↦ rw e (
        Returns-mono (delete_each-Without qs c (λ r n. ground (arith, h r n)) z)
          λ _ c' (l, f). (l, λ r. ground (arith, f r, z)))
    | inr e ↦ elim (Option-cases (c.cell q)) [
      | inl f ↦ absurd (ground (arith, h q))
      | inr (a, f) ↦
          rw (e, f)
            (Returns-mono
              (delete_each-Without qs (record c { cell = write c.cell q none })
                (λ r n. ground (arith, h r n)) (ground (arith, z)))
              λ _ c' (l, g). (l, λ r. ground (arith, g r)))
    ]
  ]

  delete_each_dead :
      (qs : List Ptr) (c : Container A) (q : Ptr)
      → q ≢ null
      → count q qs ≢ 0
      → c.cell q ≡ none
      → delete_each qs c ≡ fault dangling
  unfolding delete_each delete
  delete_each_dead [] c q n m e = absurd (m refl)
  delete_each_dead (r ∷ qs) c q n m e = elim (Bool-cases (r == null)) [
    | inl f ↦ rw f (delete_each_dead qs c q n (ground arith) e)
    | inr f ↦ elim (Option-cases (c.cell r)) [
      | inl g ↦ rw (f, g) refl
      | inr (a, g) ↦
          rw (f, g)
            (delete_each_dead qs (record c { cell = write c.cell r none }) q n (ground arith)
              (ground arith))
    ]
  ]

  delete_each_twice :
      (qs : List Ptr) (c : Container A) (q : Ptr)
      → q ≢ null
      → 2 ≤ count q qs
      → delete_each qs c ≡ fault dangling
  unfolding delete_each delete
  delete_each_twice [] c q n m = absurd (omega (arith, m))
  delete_each_twice (r ∷ qs) c q n m = elim (Bool-cases (r == null)) [
    | inl f ↦ rw f (delete_each_twice qs c q n (ground arith))
    | inr f ↦ elim (Option-cases (c.cell r)) [
      | inl g ↦ rw (f, g) refl
      | inr (a, g) ↦
          rw (f, g)
            (elim (Bool-cases (r == q)) [
              | inl same ↦
                  delete_each_dead qs (record c { cell = write c.cell r none }) q n (ground arith)
                    (ground arith)
              | inr other ↦
                  delete_each_twice qs (record c { cell = write c.cell r none }) q n (ground arith)
            ])
    ]
  ]

module _ {A : Type 0} (k : Locking) where
  acquire_eq :
      (c : Container A)
      → c.lock ≡ unlocked
      → acquire k c ≡ ok tt (record c { lock = locked_by k.threads k.self })
  unfolding acquire
  acquire_eq c l = ground (arith, acquire_free k.threads k.self)

  release_eq :
      (c : Container A)
      → c.lock ≡ locked_by k.threads k.self
      → release k c ≡ ok tt (record c { lock = unlocked })
  unfolding release
  release_eq c l = rw (release, l, release_taken k.threads k.self) refl

  insert_eq :
      (key : Text) (val : Ptr) (c : Container A)
      → c.lock ≡ unlocked
      → insert k key val c
        ≡ ok tt (record c { container = assign key val c.container; lock = unlocked })
  unfolding insert
  insert_eq key val c l =
      rw (insert, acquire_eq c l)
        (rw
          (release_eq
            (record c { container = assign key val c.container; lock = locked_by k.threads k.self })
            refl)
          refl)

  remove_eq :
      (key : Text) (c : Container A)
      → c.lock ≡ unlocked
      → remove k key c ≡ ok tt (record c { container = erase key c.container; lock = unlocked })
  unfolding remove
  remove_eq key c l =
      rw (remove, acquire_eq c l)
        (rw
          (release_eq
            (record c { container = erase key c.container; lock = locked_by k.threads k.self })
            refl)
          refl)

  find_eq :
      (key : Text) (c : Container A)
      → c.lock ≡ unlocked
      → find k key c ≡ ok (found (Map.find key c.container)) (record c { lock = unlocked })
  unfolding find
  find_eq key c l = rw (find, acquire_eq c l) (rw (release_taken k.threads k.self) refl)

  -- From a free lock on, behind `insert` its key is found with the new pointer and any other key as
  -- before.
  pub insert-find :
      (key i : Text) (val : Ptr) (c : Container A)
      → c.lock ≡ unlocked
      → (insert k key val >> find k i) c
        ≡ ok
            (if text_eq key i then val else found (Map.find i c.container))
            (record c { container = assign key val c.container; lock = unlocked })
  insert-find key i val c l = rw (insert_eq key val c l) (
      rw
        (
          find_eq i (record c { container = assign key val c.container; lock = unlocked }) refl,
          find-assign i key val c.container,
          found_if (text_eq key i) (some val) (Map.find i c.container),
        )
        refl)

  -- From a free lock on, behind `remove` its key is found no more and any other key as before.
  pub remove-find :
      (key i : Text) (c : Container A)
      → IsSorted c.container
      → c.lock ≡ unlocked
      → (remove k key >> find k i) c
        ≡ ok
            (if text_eq key i then null else found (Map.find i c.container))
            (record c { container = erase key c.container; lock = unlocked })
  remove-find key i c sorted l = rw (remove_eq key c l) (
      rw
        (
          find_eq i (record c { container = erase key c.container; lock = unlocked }) refl,
          find-erase i key c.container sorted,
          found_if (text_eq key i) none (Map.find i c.container),
        )
        refl)

  -- If the lock is free and each pointer of the container but null is there once and has a live
  -- object, `clear` ends without a fault, empties the container, deletes these objects and leaves
  -- all others and the lock as they were.
  pub clear-Without :
      (c : Container A)
      → c.lock ≡ unlocked
      → c.cell null ≡ none
      → EachOnce (values c.container) c
      → Returns (λ _ c'. (c'.container ≡ []) × Without (values c.container) c c') (clear k c)
  unfolding clear
  clear-Without c l z h =
      rw (clear, acquire_eq c l)
        (Returns-bind
          (delete_each-Without (values c.container) (record c { lock = locked_by k.threads k.self })
            h z)
          λ _ c' (l', f). returns (refl, (rw (l', l) (release_taken k.threads k.self), f)))

  -- If the lock is free and a pointer that is not null stands under two keys, `clear` deletes an
  -- object twice.
  pub clear_twice :
      (c : Container A) (q : Ptr)
      → c.lock ≡ unlocked
      → q ≢ null
      → 2 ≤ count q (values c.container)
      → clear k c ≡ fault dangling
  unfolding clear
  clear_twice c q l n m =
      rw
        (
          clear,
          acquire_eq c l,
          delete_each_twice (values c.container) (record c { lock = locked_by k.threads k.self }) q
              n m,
        )
        refl
