-- ===== src/Http/Body.antt =====
-- Reading the body of a request ends, with all of it or with nothing.
use esp32_web_chat.Common.{
  ℕ, zero, suc, ◌+◌, ◌-◌, ◌≡◌, ◌≤◌, refl, sym, ap, ◌∙◌, Bool, true, false, Option, none, some, [],
  ◌++◌, Bytes, arith, ltb, length, length-append, Bool-cases, inl, inr, if◌then◌else◌,
}
use esp32_web_chat.Common.Int.{ℤ, pos, leb_ℤ}
use esp32_web_chat.Platform.{Platform, World, ◌>>=◌, done, call}
use esp32_web_chat.Http.{receive_body}

-- httpd_req_recv that answers a positive number has read that many bytes, and no more than asked for.
pub record Receives (p : Platform) : Type 0 where
  pub some_bytes :
      (size : ℕ) (e : p.Env)
      → leb_ℤ (p.request_recv size e).0.0 (pos 0) ≡ false
      → (1 ≤ length (p.request_recv size e).0.1) × (length (p.request_recv size e).0.1 ≤ size)

module _ {A B : Type 0} (m k : A → B) (w : A) where
  if-true : (b : Bool) → b ≡ true → (if b then m else k) w ≡ m w
  if-true true e = refl
  if-true false e = absurd (ground arith)

  if-false : (b : Bool) → b ≡ false → (if b then m else k) w ≡ k w
  if-false false e = refl
  if-false true e = absurd (ground arith)

module _ (p : Platform) (recv : Receives p) (len : ℕ) where
  open p use {Env}

  full : (body : Bytes) → len ≤ length body → ltb (length body) len ≡ false
  full body h = ground arith

  -- A body that is complete, and one that is not.
  complete :
      (rounds : ℕ) (body : Bytes) (w : World Env)
      → len ≤ length body
      → receive_body p len rounds body w ≡ (some body, w)
  unfolding receive_body done
  complete zero body w h = ap (λ b. ((if b then none else some body), w)) (full body h)
  complete (suc rounds) body w h = if-false _ _ w (ltb (length body) len) (full body h)

  abbrev next : Bytes → World Env → World Env
  next body w = record w { env = (p.request_recv (len - length body) w.env).1 }

  abbrev bytes_of : Bytes → World Env → ℤ × Bytes
  bytes_of body w = (p.request_recv (len - length body) w.env).0

  incomplete :
      (rounds : ℕ) (body : Bytes) (w : World Env)
      → ltb (length body) len ≡ true
      → receive_body p len (suc rounds) body w ≡ (
          if leb_ℤ (bytes_of body w).0 (pos 0)
          then (none, next body w)
          else receive_body p len rounds (body ++ (bytes_of body w).1) (next body w))
  unfolding receive_body ◌>>=◌ done call
  incomplete rounds body w h =
      if-true _ _ w (ltb (length body) len) h ∙ pushed (leb_ℤ (bytes_of body w).0 (pos 0))
    where
      pushed :
          (b : Bool)
          → ((if b then done none else receive_body p len rounds (body ++ (bytes_of body w).1))
              (next body w))
            ≡ (if b
                then (none, next body w)
                else receive_body p len rounds (body ++ (bytes_of body w).1) (next body w))
      pushed true = refl
      pushed false = refl

  module _ (rounds : ℕ) (body : Bytes) (w : World Env) (t : ltb (length body) len ≡ true) where
    stopped :
        leb_ℤ (bytes_of body w).0 (pos 0) ≡ true
        → receive_body p len (suc rounds) body w ≡ (none, next body w)
    stopped z = incomplete rounds body w t ∙ rw z refl

    goes_on :
        leb_ℤ (bytes_of body w).0 (pos 0) ≡ false
        → receive_body p len (suc rounds) body w
          ≡ receive_body p len rounds (body ++ (bytes_of body w).1) (next body w)
    goes_on z = incomplete rounds body w t ∙ rw z refl

  -- Rounds that bring the body to its length are enough: more of them change nothing.
  enough :
      (rounds more : ℕ) (body : Bytes) (w : World Env)
      → len ≤ length body + rounds
      → rounds ≤ more
      → receive_body p len more body w ≡ receive_body p len rounds body w
  enough zero more body w h k =
      complete more body w (omega arith) ∙ sym (complete zero body w (omega arith))
  enough (suc rounds) zero body w h k = absurd (omega arith)
  enough (suc rounds) (suc more) body w h k = elim (Bool-cases (ltb (length body) len)) [
    | inl t ↦ elim (Bool-cases (leb_ℤ (bytes_of body w).0 (pos 0))) [
      | inl z ↦ stopped more body w t z ∙ sym (stopped rounds body w t z)
      | inr z ↦
          let r = recv.some_bytes (len - length body) w.env z in
          goes_on more body w t z
          ∙ enough rounds more (body ++ (bytes_of body w).1) (next body w)
              (omega (arith, r.0, h, length-append {0} body (bytes_of body w).1)) (omega arith)
          ∙ sym (goes_on rounds body w t z)
    ]
    | inr f ↦
        complete (suc more) body w (ground arith)
        ∙ sym (complete (suc rounds) body w (ground arith))
  ]

  abbrev size : Option Bytes → ℕ
  size none = 0
  size (some b) = length b

  short :
      (body : Bytes) (w : World Env)
      → ltb (length body) len ≡ true
      → receive_body p len zero body w ≡ (none, w)
  unfolding receive_body done
  short body w t = ap (λ b. ((if b then none else some body), w)) t

  impossible : (b : Bytes) → none ≡ some b → ⊥
  impossible b e = absurd (ground (arith, e))

  whole_complete :
      (rounds : ℕ) (body b : Bytes) (w : World Env)
      → length body ≤ len
      → (receive_body p len rounds body w).0 ≡ some b
      → ltb (length body) len ≡ false
      → length b ≡ len
  whole_complete rounds body b w h e f = ground (
    arith,
    h,
    f,
    ap (λ (r : Option Bytes × World Env). size r.0) (complete rounds body w (ground arith)),
    ap size e,
  )

  -- What is read is the whole body.
  whole :
      (rounds : ℕ) (body b : Bytes) (w : World Env)
      → length body ≤ len
      → (receive_body p len rounds body w).0 ≡ some b
      → length b ≡ len
  whole zero body b w h e = elim (Bool-cases (ltb (length body) len)) [
    | inl t ↦ absurd (impossible b (sym (ap (λ r. r.0) (short body w t)) ∙ e))
    | inr f ↦ whole_complete zero body b w h e f
  ]
  whole (suc rounds) body b w h e = elim (Bool-cases (ltb (length body) len)) [
    | inl t ↦ elim (Bool-cases (leb_ℤ (bytes_of body w).0 (pos 0))) [
      | inl z ↦ absurd (impossible b (sym (ap (λ r. r.0) (stopped rounds body w t z)) ∙ e))
      | inr z ↦
          let r = recv.some_bytes (len - length body) w.env z in
          whole rounds (body ++ (bytes_of body w).1) b (next body w)
            (ground (arith, r.1, h, t, length-append {0} body (bytes_of body w).1))
            (sym (ap (λ r. r.0) (goes_on rounds body w t z)) ∙ e)
    ]
    | inr f ↦ whole_complete (suc rounds) body b w h e f
  ]

  -- Where a positive answer of httpd_req_recv means that it has read a byte at least and no more
  -- than asked for, as many rounds as the request has bytes are enough to read its body: more
  -- rounds give the same, and a body that is read has all its bytes.
  pub receive_body-enough :
      (more : ℕ) (w : World Env)
      → len ≤ more
      → (receive_body p len more [] w ≡ receive_body p len len [] w)
        × ((b : Bytes) → (receive_body p len len [] w).0 ≡ some b → length b ≡ len)
  receive_body-enough more w h =
      (enough len more [] w (omega arith) h, λ b e. whole len [] b w (omega arith) e)
