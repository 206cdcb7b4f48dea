-- ===== src/Transport/Ends.antt =====
-- The loop of send_complete ends.
use esp32_web_chat.Common.{
  ℕ, zero, suc, ◌+◌, ◌*◌, ◌^◌, ◌-◌, ◌≤◌, ◌<◌, ◌≡◌, refl, ap, ◌∙◌, Bool, true, false, not, Option,
  none, some, Bytes, drop, length, arith, ltb, leb, ◌==◌, if◌then◌else◌,
}
use esp32_web_chat.Common.Int.{ℤ}
use esp32_web_chat.Platform.{Platform, SendResult, wrote, interrupted, send_failed}
use esp32_web_chat.Transport.{
  http_send_timeout_s, SendEnd, sent_all, timed_out, broken, SendAnswer, sock_err_invalid,
  after_send, send_loop, finish, send_complete,
}

-- A connection on which `send` is interrupted by a signal at most so many times more. The clock may
-- stand still.
pub record Calm (p : Platform) (fd : ℤ) : Type 0 where
  pub signals : p.Env → ℕ
  pub timer_signals : (e : p.Env) → signals (p.timer_us e).1 ≤ signals e
  pub send_signals : (t : Bytes) (e : p.Env) → signals (p.send fd t e).1 ≤ signals e
  pub interruption :
      (t : Bytes) (e : p.Env)
      → (p.send fd t e).0 ≡ interrupted
      → signals (p.send fd t e).1 < signals e

-- From `n` rounds on, what is looked at for more rounds has one and the same answer.
abbrev pub Settles : {A : Type 0} → ℕ → (ℕ → A) → (A → Type 0) → Type 0
Settles {A} n k Is = (a : A) × Is a × ((rounds : ℕ) → n ≤ rounds → k rounds ≡ a)

module _ (p : Platform) (fd : ℤ) (calm : Calm p fd) (started : ℕ) (buffer : Bytes) where
  open p use {Env, timer_us, send}

  abbrev limit : ℕ
  limit = started + http_send_timeout_s * 1000000

  abbrev HasEnd : Option SendEnd × Env → Type 0
  HasEnd o = (x : SendEnd) × (o.0 ≡ some x)

  -- What is left to do, of which each round does some.
  abbrev work : ℕ → Env → ℕ
  work sent e = (length buffer - sent) + calm.signals e

  -- A round of the loop, with the rounds after it.
  abbrev round : (ℕ → Env → Option SendEnd × Env) → ℕ → Env → Option SendEnd × Env
  round later sent e =
      let t = timer_us e in
      let r = send fd (drop sent buffer) t.1 in
      let rest = after_send p (λ n. later (sent + n) r.1) r.0 r.1 in
      if not (ltb sent (length buffer))
      then (some (if sent == length buffer then sent_all else broken), e)
      else if leb limit t.0
      then (some timed_out, t.1)
      else rest

  loop : ℕ → ℕ → Env → Option SendEnd × Env
  loop rounds sent e = send_loop p rounds started fd buffer sent e

  after_send-Settles :
      (n : ℕ) (k : ℕ → ℕ → Option SendEnd × Env) (r : SendResult) (e : Env)
      → (r ≡ interrupted → Settles n (λ m. k m 0) HasEnd)
      → ((c : ℕ) → Settles n (λ m. k m (suc c)) HasEnd)
      → Settles n (λ m. after_send p (k m) r e) HasEnd
  after_send-Settles n k (wrote zero) e h g = ((some broken, e), (broken, refl), λ m l. refl)
  after_send-Settles n k (wrote (suc c)) e h g = g c
  after_send-Settles n k interrupted e h g = h refl
  after_send-Settles n k (send_failed true) e h g =
      ((some timed_out, e), (timed_out, refl), λ m l. refl)
  after_send-Settles n k (send_failed false) e h g = ((some broken, e), (broken, refl), λ m l. refl)

  if-Settles :
      (n : ℕ) (b : Bool) (x : Option SendEnd × Env) (k : ℕ → Option SendEnd × Env)
      → HasEnd x
      → (b ≡ false → Settles n k HasEnd)
      → Settles n (λ m. if b then x else k m) HasEnd
  if-Settles n true x k h g = (x, h, λ m l. refl)
  if-Settles n false x k h g = g refl

  -- One round more.
  later-Settles :
      (n sent : ℕ) (e : Env)
      → Settles n (λ m. round (loop m) sent e) HasEnd
      → Settles (suc n) (λ m. loop m sent e) HasEnd
  unfolding loop send_loop
  later-Settles n sent e (o, h, k) = (o, h, more)
    where
      more : (m : ℕ) → suc n ≤ m → loop m sent e ≡ o
      more zero l = absurd (omega arith)
      more (suc m) l = k m (omega arith)

  step-Settles :
      (n sent : ℕ) (e : Env)
      → ((sent' : ℕ) (e' : Env) → work sent' e' < n → Settles n (λ m. loop m sent' e') HasEnd)
      → work sent e ≤ n
      → Settles (suc n) (λ m. loop m sent e) HasEnd
  step-Settles n sent e ih l = later-Settles n sent e (
      if-Settles n (not (ltb sent (length buffer))) _ _ (_, refl)
        (λ a.
          if-Settles n (leb limit t.0) _ _ (_, refl)
            (λ b.
              after_send-Settles n (λ m c. loop m (sent + c) r.1) r.0 r.1
                (λ q.
                  ih (sent + 0) r.1
                    (omega (arith, fewer, calm.interruption (drop sent buffer) t.1 q, l)))
                (λ c. ih (sent + suc c) r.1 (ground (arith, a, fewer, spent, l))))))
    where
      t : ℕ × Env
      t = timer_us e

      r : SendResult × Env
      r = send fd (drop sent buffer) t.1

      fewer : calm.signals t.1 ≤ calm.signals e
      fewer = calm.timer_signals e

      spent : calm.signals r.1 ≤ calm.signals t.1
      spent = calm.send_signals (drop sent buffer) t.1

  loop-Settles :
      (n sent : ℕ) (e : Env) → work sent e ≤ n → Settles (suc n) (λ m. loop m sent e) HasEnd
  loop-Settles zero sent e = step-Settles zero sent e (λ sent' e' l. absurd (omega (arith, l)))
  loop-Settles (suc n) sent e =
      step-Settles (suc n) sent e (λ sent' e' l. loop-Settles n sent' e' (omega (arith, l)))

module _ (p : Platform) (fd : ℤ) (calm : Calm p fd) (buffer : Bytes) where
  open p use {Env, timer_us, shutdown}

  -- The loop has ended, so send_complete has returned.
  finish-some :
      (o : Option SendEnd × Env)
      → (x : SendEnd) × (o.0 ≡ some x)
      → (a : SendAnswer × Env) × (finish p fd buffer o ≡ some a)
  finish-some (some sent_all, e) h = (_, refl)
  finish-some (some timed_out, e) h = (_, refl)
  finish-some (some broken, e) h = (_, refl)
  finish-some (none, e) (x, q) = absurd (ground (arith, q))

  -- On a connection where send is interrupted at most so many times more, send_complete returns,
  -- within one round for each byte of the buffer, one for each interruption and one more, however
  -- few bytes send takes and even if the clock stands still: its answer, and what it leaves
  -- behind, is the same for all the numbers of rounds that are more than the bytes and the
  -- interruptions together.
  pub send_complete-returns :
      (e : Env)
      → (a : SendAnswer × Env) × ((rounds : ℕ)
          → length buffer + calm.signals e < rounds
          → send_complete p rounds fd buffer e ≡ some a)
  unfolding send_complete loop
  send_complete-returns e = guarded (ltb (2 ^ 31 - 1) (length buffer))
    where
      t : ℕ × Env
      t = timer_us e

      bound : ℕ
      bound = length buffer + calm.signals e

      ended :
          Settles (suc bound) (λ m. loop p fd calm t.0 buffer m 0 t.1) (HasEnd p fd calm t.0 buffer)
      ended = loop-Settles p fd calm t.0 buffer bound 0 t.1 (omega (arith, calm.timer_signals e))

      guarded :
          (b : Bool)
          → (a : SendAnswer × Env) × ((rounds : ℕ)
              → bound < rounds
              → (if b
                  then some (sock_err_invalid, e)
                  else finish p fd buffer (send_loop p rounds t.0 fd buffer 0 t.1))
                ≡ some a)
      guarded true = (_, λ rounds l. refl)
      guarded false =
          let (o, h, k) = ended in
          let (a, q) = finish-some o h in
          (a, λ rounds l. ap (finish p fd buffer) (k rounds (omega (arith, l))) ∙ q)
