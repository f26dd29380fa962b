-- ===== src/Assisant/Avatar.antt =====
-- The avatar: how it is read, and how its chunks are sent.
use find_friend_bot.Base.{
  ℕ, ◌+◌, ◌^◌, ◌%◌, ◌≤◌, ◌<◌, ◌≡◌, ◌≢◌, refl, sym, subst, Bool, ◌&&◌, if◌then◌else◌, true, false,
  Option, none, some, Text, ◌==◌, arith, Returns, returns, Returns-mono, returned, Option-cases,
  inl, inr, ◌⊎◌, length, take, drop, ltb, le_or_lt, is_some, not, ◌||◌, length-take, Bool-cases,
}
use find_friend_bot.World.{Env, World}
use find_friend_bot.Assisant.Files.{
  get_data, load_avatar, no_avatar, avatar_name, copy_chunk, send_chunk, file_chunk_request_cb,
}

-- `avatar_data_size` is the size of the buffer behind `avatar_data`.
abbrev pub AvatarFits : Option Text → ℕ → Type 0
AvatarFits none n = n ≡ 0
AvatarFits (some bytes) n = length bytes ≡ n

module _ {T S : Type 0} (env : Env T S) where
  read-fits :
      (content : Text)
      → AvatarFits (some (take (length content % 2 ^ 32) content)) (length content % 2 ^ 32)
  read-fits content = length-take (length content % 2 ^ 32) content (omega arith)

  -- The avatar that requests are answered from: the one that is there, if its size is not 0, or else
  -- the content of its file, as far as 32 bits can count it, if there is a file.
  abbrev pub loaded_avatar : World T S → Option Text × ℕ
  loaded_avatar w =
      if is_some w.avatar_data && not (w.avatar_data_size == 0)
      then (w.avatar_data, w.avatar_data_size)
      else elim (w.files (avatar_name env)) [
        | none ↦ (none, w.avatar_data_size)
        | some content ↦ (some (take (length content % 2 ^ 32) content), length content % 2 ^ 32)
      ]

  there_or_not :
      (b : Option Text) (n : ℕ) (missing : Bool)
      → (not (is_some b) || (n == 0)) ≡ missing
      → (is_some b && not (n == 0)) ≡ not missing
  there_or_not none n missing e = ground arith
  there_or_not (some bytes) n missing e = ground arith

  loaded_there :
      (w : World T S)
      → no_avatar env w ≡ false
      → (w.avatar_data, w.avatar_data_size) ≡ loaded_avatar w
  loaded_there w e = rw (there_or_not w.avatar_data w.avatar_data_size false e) refl

  loaded_none :
      (w : World T S)
      → no_avatar env w ≡ true
      → w.files (avatar_name env) ≡ none
      → (none, w.avatar_data_size) ≡ loaded_avatar w
  loaded_none w e f = rw (there_or_not w.avatar_data w.avatar_data_size true e, f) refl

  loaded_read :
      (w : World T S) (content : Text)
      → no_avatar env w ≡ true
      → w.files (avatar_name env) ≡ some content
      → (some (take (length content % 2 ^ 32) content), length content % 2 ^ 32) ≡ loaded_avatar w
  loaded_read w content e f = rw (there_or_not w.avatar_data w.avatar_data_size true e, f) refl

  -- The world with the avatar loaded.
  abbrev pub WithAvatar : World T S → World T S → Type 0
  WithAvatar w w' =
      (b : Option Text) × (n : ℕ) × (w' ≡ record w { avatar_data = b; avatar_data_size = n })
      × AvatarFits b n
      × ((b, n) ≡ loaded_avatar w)

  size_zero :
      (b : Option Text) (n : ℕ) → (not (is_some b) || (n == 0)) ≡ true → AvatarFits b n → n ≡ 0
  size_zero none n e fits = fits
  size_zero (some bytes) n e fits = ground arith

  -- The avatar is read once; the buffer always has the size that goes with it.
  pub load_avatar-fits :
      (w : World T S)
      → AvatarFits w.avatar_data w.avatar_data_size
      → Returns (λ _. WithAvatar w) (load_avatar env w)
  unfolding load_avatar get_data
  load_avatar-fits w fits = elim (Bool-cases (no_avatar env w)) [
    | inr e ↦ rw e (returns (w.avatar_data, w.avatar_data_size, refl, fits, loaded_there w e))
    | inl e ↦ elim (Option-cases (w.files (avatar_name env))) [
      | inl f ↦
          rw (e, get_data, f)
            (returns (
              none,
              w.avatar_data_size,
              refl,
              size_zero w.avatar_data w.avatar_data_size e fits,
              loaded_none w e f,
            ))
      | inr (content, f) ↦
          rw (e, get_data, f)
            (returns (some _, _, refl, read-fits content, loaded_read w content e f))
    ]
  ]

  module _ (friend_number file_number position size : ℕ) (l : position + size < 2 ^ 64)
      (some_size : size ≢ 0) where
    no_wrap : (position + size) % 2 ^ 64 ≡ position + size
    no_wrap = omega (arith, l)

    copied :
        (b : Option Text) (n : ℕ)
        → AvatarFits b n
        → position + size ≤ n
        → (bytes : Text) × (b ≡ some bytes)
          × (copy_chunk env position size b ≡ some (take size (drop position bytes)))
    copied none n fits h = absurd (omega (arith, fits, h, some_size))
    copied (some bytes) n fits h =
        let inside : ltb (length bytes) (position + size) ≡ false = ground arith in
        (bytes, refl, rw inside refl)

    -- What toxcore gets for a request: the piece that it asks for, or nothing if the avatar does not
    -- go so far.
    abbrev pub Answered : World T S → World T S → Type 0
    Answered w w' =
        ((w.avatar_data_size < position + size) × (w' ≡ w))
        ⊎ ((bytes : Text) × (w.avatar_data ≡ some bytes)
            × (position + size ≤ length bytes)
            × (w' ≡ record w {
              network =
                  (env.tox.file_send_chunk friend_number file_number position
                    (take size (drop position bytes)) w.network).1;
            }))

    send_chunk-Answered :
        (w : World T S)
        → AvatarFits w.avatar_data w.avatar_data_size
        → Returns (λ _. Answered w) (send_chunk env friend_number file_number position size w)
    unfolding send_chunk
    send_chunk-Answered w fits = elim (le_or_lt (position + size) w.avatar_data_size) [
      | inr beyond ↦
          let test : ltb w.avatar_data_size (position + size) ≡ true = ground arith in
          rw (no_wrap, test) (returns (inl (beyond, refl)))
      | inl h ↦
          let test : ltb w.avatar_data_size (position + size) ≡ false = ground arith in
          let (bytes, e, f) = copied w.avatar_data w.avatar_data_size fits h in
          let fits_bytes : length bytes ≡ w.avatar_data_size = rw e at fits in
          rw (no_wrap, test, f) (returns (inr (bytes, e, omega (arith, fits_bytes, h), refl)))
    ]

    -- Where the avatar has its size, a chunk request that is not empty and ends within 64 bits
    -- reads no byte outside the buffer: the avatar is the one that is there, if its size is not 0,
    -- or else the content of its file as far as 32 bits can count it, and then the piece that was
    -- asked for is sent, or nothing if the avatar ends before it or there is none.
    pub file_chunk_request_cb-Answered :
        (w : World T S)
        → AvatarFits w.avatar_data w.avatar_data_size
        → Returns
            (λ _ w'. (loaded : World T S) × WithAvatar w loaded × Answered loaded w')
            (file_chunk_request_cb env friend_number file_number position size w)
    unfolding file_chunk_request_cb
    file_chunk_request_cb-Answered w fits =
        let (u, loaded, ran, z) = returned (load_avatar-fits w fits) in
        let asked : (size == 0) ≡ false = ground (arith, some_size) in
        rw (asked, ran)
          (Returns-mono
            (send_chunk-Answered loaded (
              subst (λ (x : World T S). AvatarFits x.avatar_data x.avatar_data_size) (sym z.2) z.3))
            λ _ w' a. (loaded, z, a))
