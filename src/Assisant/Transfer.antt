-- ===== src/Assisant/Transfer.antt =====
-- A whole transfer of the avatar: what toxcore gets when it asks for piece after piece.
use find_friend_bot.Base.{
  fault, out_of_range, true, ℕ, ◌+◌, ◌^◌, ◌%◌, ◌≤◌, ◌<◌, ◌≡◌, ◌≢◌, refl, ap, sym, ◌∙◌, false, List,
  [], ◌∷◌, ◌++◌, some, Text, ◌==◌, arith, Returns, returns, Returns-mono, ok, length, take, drop,
  ltb, Cmd, pure, ◌>>◌, length-take, length-drop, drop_all, take-drop_append,
}
use find_friend_bot.World.{Env, World}
use find_friend_bot.Assisant.Files.{load_avatar, send_chunk, file_chunk_request_cb}

abbrev pub joined : List Text → Text
joined [] = []
joined (p ∷ ps) = p ++ joined ps

abbrev pub total : List ℕ → ℕ
total [] = 0
total (n ∷ ns) = n + total ns

abbrev pub AllSome : List ℕ → Type 0
AllSome [] = Unit {0}
AllSome (n ∷ ns) = (n ≢ 0) × AllSome ns

module _ {T S : Type 0} (env : Env T S) (friend_number file_number : ℕ) where
  -- The requests that toxcore makes, from a position on.
  abbrev pub requests : ℕ → List ℕ → Cmd (World T S) (Unit {0})
  requests position [] = pure tt
  requests position (size ∷ sizes) =
      file_chunk_request_cb env friend_number file_number position size
      >> requests (position + size) sizes

  -- The calls of `tox_file_send_chunk` with these pieces, one behind the other.
  abbrev pub send_all : ℕ → List Text → T → T
  send_all position [] t = t
  send_all position (p ∷ ps) t =
      send_all (position + length p) ps
        (env.tox.file_send_chunk friend_number file_number position p t).1

  module _ (bytes : Text) (some_bytes : length bytes ≢ 0) (l : length bytes < 2 ^ 64) where
    abbrev pub IsLoaded : World T S → Type 0
    IsLoaded w = (w.avatar_data ≡ some bytes) × (w.avatar_data_size ≡ length bytes)

    one_piece :
        (position size : ℕ) (w : World T S)
        → size ≢ 0
        → position + size ≤ length bytes
        → IsLoaded w
        → file_chunk_request_cb env friend_number file_number position size w
          ≡ ok tt (record w {
            network =
                (env.tox.file_send_chunk friend_number file_number position
                  (take size (drop position bytes))
                  w.network).1;
          })
    unfolding file_chunk_request_cb load_avatar send_chunk
    one_piece position size w n h (e, f) =
        let asked : (size == 0) ≡ false = ground (arith, n) in
        let nonempty : (length bytes == 0) ≡ false = ground (arith, some_bytes) in
        let no_wrap : (position + size) % 2 ^ 64 ≡ position + size = omega (arith, l, h) in
        let inside : ltb (length bytes) (position + size) ≡ false = ground (arith, h) in
        rw (asked, e, f, nonempty, no_wrap, inside) refl

    -- Whatever the sizes of the pieces, those that are sent make up the avatar.
    from_position :
        (sizes : List ℕ) (position : ℕ) (w : World T S)
        → AllSome sizes
        → position + total sizes ≡ length bytes
        → IsLoaded w
        → Returns
            (λ _ w'.
              (pieces : List Text) × (joined pieces ≡ drop position bytes)
              × (w' ≡ record w { network = send_all position pieces w.network }))
            (requests position sizes w)
    from_position [] position w a e v =
        let at_end : position ≡ length bytes = omega (arith, e) in
        returns ([], rw at_end (sym (drop_all bytes)), refl)
    from_position (size ∷ sizes) position w (n, a) e v =
        let h : position + size ≤ length bytes = omega (arith, e) in
        let piece = take size (drop position bytes) in
        let long : length piece ≡ size =
          length-take size (drop position bytes)
            (omega (arith, h, length-drop position bytes (omega (arith, h)))) in
        rw (one_piece position size w n h v) (
          Returns-mono (from_position sizes (position + size) _ a (omega (arith, e)) v)
            λ _ w' (pieces, whole, sent). (
              piece ∷ pieces,
              ap (λ rest. piece ++ rest) whole ∙ take-drop_append position size bytes,
              rw (long, sent) refl,
            ))

  -- For a loaded avatar that is not empty and below 2^64 bytes, chunk requests of any positive
  -- sizes that follow each other and add up to its size send pieces that make up the avatar, in
  -- order, and change nothing but the state of toxcore.
  pub transfer_whole :
      (bytes : Text) (sizes : List ℕ) (w : World T S)
      → length bytes ≢ 0
      → length bytes < 2 ^ 64
      → (w.avatar_data ≡ some bytes) × (w.avatar_data_size ≡ length bytes)
      → AllSome sizes
      → total sizes ≡ length bytes
      → Returns
          (λ _ w'.
            (pieces : List Text) × (joined pieces ≡ bytes)
            × (w' ≡ record w { network = send_all 0 pieces w.network }))
          (requests 0 sizes w)
  transfer_whole bytes sizes w some_bytes l v a e =
      from_position bytes some_bytes l sizes 0 w a (omega (arith, e)) v

  -- For a loaded avatar that is not empty, a chunk request that ends beyond the avatar, and whose
  -- end is within it on 64 bits, copies from outside the buffer.
  pub file_chunk_request_cb_wraps :
      (bytes : Text) (position size : ℕ) (w : World T S)
      → (w.avatar_data ≡ some bytes) × (w.avatar_data_size ≡ length bytes)
      → length bytes ≢ 0
      → size ≢ 0
      → length bytes < position + size
      → (position + size) % 2 ^ 64 ≤ length bytes
      → file_chunk_request_cb env friend_number file_number position size w ≡ fault out_of_range
  unfolding file_chunk_request_cb load_avatar send_chunk
  file_chunk_request_cb_wraps bytes position size w (e, f) some_bytes n beyond wraps =
      let asked : (size == 0) ≡ false = ground (arith, n) in
      let nonempty : (length bytes == 0) ≡ false = ground (arith, some_bytes) in
      let test : ltb (length bytes) ((position + size) % 2 ^ 64) ≡ false = ground (arith, wraps) in
      let outside : ltb (length bytes) (position + size) ≡ true = ground (arith, beyond) in
      rw (asked, e, f, nonempty, test, outside) refl
