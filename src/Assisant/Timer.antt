-- ===== src/Assisant/Timer.antt =====
-- The timer that sends the help to a new friend again and again: `event_timeout_cb` of
-- src/Assisant.cpp, with the rest of the process running in between.
use native.Mathlib.Nat.{pow-le-pow_right, pow-suc}
use find_friend_bot.Base.{
  ◌%◌, le_or_lt, subst, ap, ◌∙◌, sym, ℕ, suc, ◌+◌, ◌*◌, ◌^◌, ◌≤◌, ◌≡◌, refl, Bool, true, false,
  some, List, [], ◌∷◌, arith, length, Cmd, pure, ok, ◌>>=◌, ◌>>◌, Returns, returns, Returns-bind,
  Returns-mono, ltb, inl, inr, ◌⊎◌, Bool-cases,
}
use find_friend_bot.World.{Env, World}
use find_friend_bot.Assisant.Commands.{send_friend_message_req, lines}
use find_friend_bot.Assisant.Callbacks.{
  Cell, absent, freed, holding, event_timeout_cb, resend_later, event_friend_add_tips,
  resend_time_max, resend_time_base,
}

module _ {T S : Type 0} (env : Env T S) (friend_number : ℕ) where
  -- The timer with its cell, while it is set. Before each call the rest of the process runs for the
  -- interval, and may do anything.
  unfoldable pub resend : List (World T S → World T S) → Cell × Bool → Cmd (World T S) (Cell × Bool)
  resend [] timer = pure timer
  resend (meanwhile ∷ rest) (cell, false) = pure (cell, false)
  resend (meanwhile ∷ rest) (absent, true) = pure (absent, true)
  resend (meanwhile ∷ rest) (freed, true) = pure (freed, true)
  resend (meanwhile ∷ rest) (holding interval, true) = do
    (λ w. ok tt (meanwhile w))
    again ← event_timeout_cb env friend_number event_friend_add_tips (some interval)
    resend rest again

  queued : World T S → Bool
  queued w = (env.tox.friend_send_message friend_number (lines env env.conf.desc_help) w.network).0

  -- One call: the cell is freed, or it is set for twice the interval.
  once :
      (i : ℕ) (w : World T S)
      → i ≤ 256
      → Returns
          (λ r _. (r ≡ (freed, false)) ⊎ ((i ≤ 128) × (r ≡ (holding (i * 2), true))))
          (event_timeout_cb env friend_number event_friend_add_tips (some i) w)
  unfolding event_timeout_cb send_friend_message_req resend_later queued
  once i w l = elim (Bool-cases (queued w)) [
    | inl e ↦ rw e (returns (inl refl))
    | inr e ↦ elim (Bool-cases (ltb resend_time_max i)) [
      | inl f ↦ rw (e, f) (returns (inl refl))
      | inr f ↦
          let small : i ≤ 128 = ground arith in
          let no_wrap : (i * 2) % 2 ^ 32 ≡ i * 2 = ground arith in
          rw (e, f, no_wrap) (returns (inr (small, refl)))
    ]
  ]

  -- Where the cell is after `k` calls that did not send: it has the interval `2 ^ k`.
  abbrev Doubled : ℕ → Cell × Bool → Type 0
  Doubled k r = (r ≡ (freed, false)) ⊎ ((k ≤ 8) × (r ≡ (holding (2 ^ k), true)))

  once-Doubled :
      (k : ℕ) (w : World T S)
      → k ≤ 8
      → Returns
          (λ r _. Doubled (suc k) r)
          (event_timeout_cb env friend_number event_friend_add_tips (some (2 ^ k)) w)
  once-Doubled k w l =
      Returns-mono (once (2 ^ k) w (pow-le-pow_right {n = 2} (omega arith) l)) λ r _ h. elim h [
        | inl e ↦ inl e
        | inr (small, e) ↦ inr (
          elim (le_or_lt (suc k) 8) [
            | inl fits ↦ fits
            | inr beyond ↦ absurd (
                let large : 2 ^ 8 ≤ 2 ^ k =
                  pow-le-pow_right {n = 2} (omega arith) {i = 8} {j = k} (omega (arith, beyond)) in
                omega (arith, large, small))
          ],
          e ∙ ap (λ i. (holding i, true)) (sym (pow-suc 2 k)),
        )
      ]

  resend-Doubled :
      (waits : List (World T S → World T S)) (k : ℕ) (r : Cell × Bool) (w : World T S)
      → Doubled k r
      → Returns (λ r' _. Doubled (k + length waits) r') (resend waits r w)
  unfolding resend
  resend-Doubled [] k r w d = returns (subst (λ n. Doubled n r) (omega arith) d)
  resend-Doubled (meanwhile ∷ rest) k r w (inl e) = rw e (returns (inl refl))
  resend-Doubled (meanwhile ∷ rest) k r w (inr (l, e)) =
      let count_on : suc k + length rest ≡ k + suc (length rest) = omega arith in
      subst (λ n. Returns (λ r' _. Doubled n r') (resend (meanwhile ∷ rest) r w)) count_on
        (rw e (
          Returns-bind (once-Doubled k (meanwhile w) l)
            λ again w' d. resend-Doubled rest (suc k) again w' d))

  -- After any number of calls of the timer that starts with one second, either the timer is gone,
  -- or there were `k` calls, `k` at most 8, and its interval is `2 ^ k`.
  pub resend_interval :
      (waits : List (World T S → World T S)) (w : World T S)
      → Returns
          (λ r _.
            (r ≡ (freed, false)) ⊎ ((length waits ≤ 8) × (r ≡ (holding (2 ^ length waits), true))))
          (resend waits (holding resend_time_base, true) w)
  resend_interval waits w =
      let from_zero : 0 + length waits ≡ length waits = omega arith in
      subst (λ n. Returns (λ r _. Doubled n r) (resend waits (holding resend_time_base, true) w))
        from_zero
        (resend-Doubled waits 0 (holding resend_time_base, true) w (inr (omega arith, refl)))

  -- Whatever toxcore answers and the rest of the process does between the calls, the timer that
  -- starts with one second is not set again after nine calls, and its cell has been freed.
  pub resend_ends :
      (waits : List (World T S → World T S)) (w : World T S)
      → 9 ≤ length waits
      → Returns (λ r _. r ≡ (freed, false)) (resend waits (holding resend_time_base, true) w)
  resend_ends waits w l =
      Returns-mono (resend_interval waits w)
        λ r _ h. elim h [ inl e ↦ e | inr (small, e) ↦ absurd (omega (arith, l, small)) ]
