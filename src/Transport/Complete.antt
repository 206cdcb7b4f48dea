-- ===== src/Transport/Complete.antt =====
-- A buffer that is reported as sent is on the wire as a whole and once.
use mathlib.Core.Option.{some-injective}
use esp32_web_chat.Common.{
  ℕ, zero, suc, ◌+◌, ◌*◌, ◌^◌, ◌-◌, ◌≤◌, ◌≡◌, refl, sym, ap, subst, ◌∙◌, Bool, true, false, not,
  Option, none, some, List, [], ◌∷◌, ◌++◌, append_assoc, append-nil, Bytes, take, drop, length,
  take-append-drop, arith, ltb, leb, if◌then◌else◌,
}
use esp32_web_chat.Common.Int.{ℤ}
use esp32_web_chat.Platform.{Platform, SendResult, wrote, interrupted, send_failed}
use esp32_web_chat.Transport.{
  http_send_timeout_s, SendEnd, sent_all, timed_out, broken, sent_bytes, sock_err_invalid,
  after_send, send_loop, finish, send_complete,
}

-- What a call of `send` puts on the wire: as many bytes as it says, from the start of its data.
abbrev pub Effect : Bytes → Bytes → SendResult → Bytes → Type 0
Effect before data_sent (wrote n) after = after ≡ before ++ take n data_sent
Effect before data_sent interrupted after = after ≡ before
Effect before data_sent (send_failed b) after = after ≡ before

-- A connection, with what has been put on its wire, which reading the clock leaves alone.
pub record Link (p : Platform) (fd : ℤ) : Type 0 where
  pub wire : p.Env → Bytes
  pub timer_wire : (e : p.Env) → wire (p.timer_us e).1 ≡ wire e
  pub sends : (t : Bytes) (e : p.Env) → Effect (wire e) t (p.send fd t e).0 (wire (p.send fd t e).1)

zero_add : (n : ℕ) → 0 + n ≡ n
zero_add n = omega arith

suc_add : (m n : ℕ) → suc m + n ≡ suc (m + n)
suc_add m n = omega arith

module _ {ℓ} {A : Type ℓ} where
  drop-nil : (n : ℕ) → drop {A = A} n [] ≡ []
  drop-nil zero = refl
  drop-nil (suc n) = refl

  drop-add : (m n : ℕ) (xs : List A) → drop (m + n) xs ≡ drop n (drop m xs)
  drop-add zero n xs = ap (λ k. drop k xs) (zero_add n)
  drop-add (suc m) n [] =
      ap (λ k. drop k []) (suc_add m n) ∙ drop-nil (suc (m + n)) ∙ sym (drop-nil n)
  drop-add (suc m) n (x ∷ xs) = ap (λ k. drop k (x ∷ xs)) (suc_add m n) ∙ drop-add m n xs

  drop-end : (n : ℕ) (xs : List A) → length xs ≤ n → drop n xs ≡ []
  drop-end zero [] h = refl
  drop-end zero (x ∷ xs) h = absurd (omega arith)
  drop-end (suc n) [] h = refl
  drop-end (suc n) (x ∷ xs) h = drop-end n xs (omega arith)

module _ (p : Platform) (fd : ℤ) (link : Link p fd) (started : ℕ) (buffer : Bytes) where
  open p use {Env, timer_us, send}

  abbrev limit : ℕ
  limit = started + http_send_timeout_s * 1000000

  by_case :
      (Q : Option SendEnd × Env → Type 0) (a b : Bool) (x y z : Option SendEnd × Env)
      → (a ≡ false → Q x)
      → (b ≡ true → Q y)
      → (a ≡ true → b ≡ false → Q z)
      → Q (if not a then x else if b then y else z)
  by_case Q false b x y z f g h = f refl
  by_case Q true true x y z f g h = g refl
  by_case Q true false x y z f g h = h refl refl

  -- Where everything is sent, the wire has the bytes that were left.
  abbrev Whole : Bytes → Bytes → Option SendEnd × Env → Type 0
  Whole before left o = o.0 ≡ some sent_all → link.wire o.1 ≡ before ++ left

  after_send-Whole :
      (k : ℕ → Option SendEnd × Env) (r : SendResult) (e : Env) (before left : Bytes)
      → Effect before left r (link.wire e)
      → ((n : ℕ) → Whole (link.wire e) (drop n left) (k n))
      → Whole before left (after_send p k r e)
  after_send-Whole k (wrote zero) e before left s h q = absurd (ground (arith, q))
  after_send-Whole k (wrote (suc n)) e before left s h q =
      h (suc n) q
      ∙ ap (λ t. t ++ drop (suc n) left) s
      ∙ append_assoc before (take (suc n) left) (drop (suc n) left)
      ∙ ap (before ++◌) (take-append-drop (suc n) left)
  after_send-Whole k interrupted e before left s h q = h 0 q ∙ ap (λ t. t ++ left) s
  after_send-Whole k (send_failed true) e before left s h q = absurd (ground (arith, q))
  after_send-Whole k (send_failed false) e before left s h q = absurd (ground (arith, q))

  send_loop-Whole :
      (rounds sent : ℕ) (e : Env)
      → Whole (link.wire e) (drop sent buffer) (send_loop p rounds started fd buffer sent e)
  unfolding send_loop
  send_loop-Whole zero sent e = λ q. absurd (ground (arith, q))
  send_loop-Whole (suc rounds) sent e =
      by_case (Whole (link.wire e) (drop sent buffer)) (ltb sent (length buffer))
        (leb limit (timer_us e).0) _ _ _
        (λ a q.
          sym
            (ap (link.wire e ++◌) (drop-end sent buffer (ground arith)) ∙ append-nil (link.wire e)))
        (λ b q. absurd (ground (arith, q)))
        (λ a b.
          let t = timer_us e in
          let left = drop sent buffer in
          let v = (send fd left t.1).1 in
          after_send-Whole (λ n. send_loop p rounds started fd buffer (sent + n) v)
            (send fd left t.1).0 v (link.wire e) left
            (subst (λ w. Effect w left (send fd left t.1).0 (link.wire v)) (link.timer_wire e)
              (link.sends left t.1))
            (λ n.
              subst (λ l. Whole (link.wire v) l (send_loop p rounds started fd buffer (sent + n) v))
                (drop-add sent n buffer) (send_loop-Whole rounds (sent + n) v)))

  finish-Whole :
      (o : Option SendEnd × Env) (before : Bytes) (n : ℕ) (e' : Env)
      → Whole before buffer o
      → finish p fd buffer o ≡ some (sent_bytes n, e')
      → (n ≡ length buffer) × (link.wire e' ≡ before ++ buffer)
  finish-Whole (some sent_all, e) before n e' h q =
      let same = some-injective _ _ q in
      (ground (arith, ap (λ r. r.0) same), ap (λ r. link.wire r.1) (sym same) ∙ h refl)
  finish-Whole (some timed_out, e) before n e' h q =
      absurd (ground (arith, ap (λ r. r.0) (some-injective _ _ q)))
  finish-Whole (some broken, e) before n e' h q =
      absurd (ground (arith, ap (λ r. r.0) (some-injective _ _ q)))
  finish-Whole (none, e) before n e' h q = absurd (ground (arith, q))

module _ (p : Platform) (fd : ℤ) (link : Link p fd) (buffer : Bytes) where
  open p use {Env, timer_us}

  -- On a connection whose wire reading the clock leaves alone, and where send puts as many bytes
  -- on the wire as it says, from the start of its data, an answer of n bytes, after however many
  -- rounds of the loop, means that n is the length of the buffer, and that the wire has the whole
  -- buffer once, after what it had.
  pub send_complete-Whole :
      (rounds : ℕ) (e e' : Env) (n : ℕ)
      → send_complete p rounds fd buffer e ≡ some (sent_bytes n, e')
      → (n ≡ length buffer) × (link.wire e' ≡ link.wire e ++ buffer)
  unfolding send_complete
  send_complete-Whole rounds e e' n = guarded (ltb (2 ^ 31 - 1) (length buffer))
    where
      o : Option SendEnd × Env
      o = send_loop p rounds (timer_us e).0 fd buffer 0 (timer_us e).1

      whole : Whole p fd link (timer_us e).0 buffer (link.wire e) buffer o
      whole q =
          send_loop-Whole p fd link (timer_us e).0 buffer rounds 0 (timer_us e).1 q
          ∙ ap (λ w. w ++ buffer) (link.timer_wire e)

      guarded :
          (b : Bool)
          → (if b then some (sock_err_invalid, e) else finish p fd buffer o)
            ≡ some (sent_bytes n, e')
          → (n ≡ length buffer) × (link.wire e' ≡ link.wire e ++ buffer)
      guarded true q = absurd (ground (arith, ap (λ r. r.0) (some-injective _ _ q)))
      guarded false q = finish-Whole p fd link (timer_us e).0 buffer o (link.wire e) n e' whole q
