-- ===== src/System/Fate.antt =====
-- What a broadcast of main/src/server/websocket_server.c makes of the slot of each client.
use esp32_web_chat.Common.{
  ℕ, ◌≡◌, ap, subst, ◌∙◌, inl, inr, true, false, some, List, ◌∷◌, Bytes, Listed, get_elem?, arith,
  Bool-cases,
}
use esp32_web_chat.Common.Int.{ℤ, eqb_ℤ, eqb_ℤ→eq, eqb_ℤ_refl}
use esp32_web_chat.Config.{ClientSlot}
use esp32_web_chat.Slots.{Slots, is_open, has_fd}
use esp32_web_chat.Platform.{Frame, is_ok}
use esp32_web_chat.System.Closing.{taken}
use esp32_web_chat.System.Marking.{IsGone, Closes}

-- Where a client stands in a broadcast to the connections `fds` that are left, after the frames `new`:
-- it is waiting, or has been sent to and is as it was, or could not be sent to and is gone.
pub data Fate (payload : Bytes) (i : ℕ) (s : ClientSlot) (fds : List ℤ) (new : List Frame)
    (ss : Slots) : Type 0 where
  waiting :
      Listed s.fd fds
      → get_elem? ss i ≡ some s
      → (Listed (taken s.fd payload) new → ⊥)
      → Fate payload i s fds new ss
  served :
      (Listed s.fd fds → ⊥)
      → get_elem? ss i ≡ some s
      → Listed (taken s.fd payload) new
      → Fate payload i s fds new ss
  dropped :
      (Listed s.fd fds → ⊥)
      → (s' : ClientSlot) → get_elem? ss i ≡ some s'
      → IsGone s'
      → (Listed (taken s.fd payload) new → ⊥)
      → Fate payload i s fds new ss

module _ (payload : Bytes) (i : ℕ) (s : ClientSlot) (fd : ℤ) (fds : List ℤ) (new : List Frame)
    (apart : Listed fd fds → ⊥) where
  other : (s.fd ≡ fd → ⊥) → has_fd fd s ≡ false
  other n = elim (Bool-cases (eqb_ℤ s.fd fd)) [
    | inl t ↦ absurd (n (eqb_ℤ→eq s.fd fd t))
    | inr f ↦ ground (arith, f)
  ]

  -- The first connection is closed, with no frame.
  pub drop-Fate :
      (ss ss' : Slots)
      → is_open s ≡ true
      → Closes fd ss ss'
      → Fate payload i s (fd ∷ fds) new ss
      → Fate payload i s fds new ss'
  drop-Fate ss ss' o c (waiting (inl q) g unsent) =
      let (s', g', k) = c i s g in
      dropped (λ m. apart (subst (λ (x : ℤ). Listed x fds) q m)) s' g'
        (k.1 (subst (λ (x : ℤ). has_fd x s ≡ true) q (ground (arith, o, eqb_ℤ_refl s.fd)))) unsent
  drop-Fate ss ss' o c (waiting (inr m) g unsent) =
      let (s', g', k) = c i s g in
      waiting m (g' ∙ ap some (k.0 (other (λ q. apart (subst (λ (x : ℤ). Listed x fds) q m)))))
        unsent
  drop-Fate ss ss' o c (served n g y) =
      let (s', g', k) = c i s g in
      served (λ m. n (inr m)) (g' ∙ ap some (k.0 (other (λ q. n (inl q))))) y
  drop-Fate ss ss' o c (dropped n s' g h unsent) =
      let (s'', g', k) = c i s' g in dropped (λ m. n (inr m)) s'' g' (k.2 h) unsent

  -- The transport takes a frame for the first connection.
  pub serve-Fate :
      (ss : Slots)
      → Fate payload i s (fd ∷ fds) new ss
      → Fate payload i s fds (taken fd payload ∷ new) ss
  serve-Fate ss (waiting (inl q) g unsent) =
      served (λ m. apart (subst (λ (x : ℤ). Listed x fds) q m)) g
        (inl (ap (λ (x : ℤ). taken x payload) q))
  serve-Fate ss (waiting (inr m) g unsent) = waiting m g (λ l. elim l [
    | inl q ↦ apart (subst (λ (x : ℤ). Listed x fds) (ap (λ (f : Frame). f.fd) q) m)
    | inr l' ↦ unsent l'
  ])
  serve-Fate ss (served n g y) = served (λ m. n (inr m)) g (inr y)
  serve-Fate ss (dropped n s' g h unsent) =
      dropped (λ m. n (inr m)) s' g h
        (λ l. elim l [ inl q ↦ n (inl (ap (λ (f : Frame). f.fd) q)) | inr l' ↦ unsent l' ])

not_taken :
    (g : ℤ) (payload : Bytes) (new : List Frame) (f : Frame)
    → is_ok f.result ≡ false
    → (Listed (taken g payload) new → ⊥)
    → Listed (taken g payload) (f ∷ new)
    → ⊥
not_taken g payload new f h unsent (inl q) =
    absurd (ground (arith, h, ap (λ (x : Frame). is_ok x.result) q))
not_taken g payload new f h unsent (inr m) = unsent m

-- A frame that the transport has not taken.
pub fail-Fate :
    {payload : Bytes} {i : ℕ} {s : ClientSlot} {fds : List ℤ} {new : List Frame} {ss : Slots}
    (f : Frame)
    → is_ok f.result ≡ false
    → Fate payload i s fds new ss
    → Fate payload i s fds (f ∷ new) ss
fail-Fate f h (waiting m g unsent) = waiting m g (not_taken _ _ _ f h unsent)
fail-Fate f h (served n g y) = served n g (inr y)
fail-Fate f h (dropped n s' g k unsent) = dropped n s' g k (not_taken _ _ _ f h unsent)
