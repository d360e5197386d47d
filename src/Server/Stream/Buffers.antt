-- ===== src/Server/Stream/Buffers.antt =====
-- What holds of the send buffers, of the write in progress and of what was sent, at all times.
use webcrown.Base.{
  drop_add, drop-length, ℕ, ◌+◌, ◌≤◌, ◌<◌, ◌≡◌, refl, ap, ◌∙◌, sym, [], ◌++◌, append-nil,
  append_assoc, Bytes, true, false, none, some, arith, length, take, drop, take-append-drop,
  length-drop, ◌==◌, ==_iff, inl, inr, Bool-cases,
}
use webcrown.Server.Session.{WebSession, try_send, advance, swap_buffers}
use webcrown.Server.Session.Laws.{
  unsent, Bytes-cases, try_send_nothing, try_send_swapped, try_send_rest, waiting,
  buffer_text_empty, buffer_text_busy, advance-sending, advance-main, advance_end, advance_part,
}
use webcrown.Server.Stream.Socket.{Link, started, give, complete, after, give_lem, complete_lem}

-- Nothing waits, or the write in progress is of what is left of the flush buffer.
pub data Sound (l : Link) : Type 0 where
  idle :
      l.session.sending ≡ false
      → l.session.send_buffer_flush ≡ []
      → l.session.send_buffer_main ≡ []
      → l.writing ≡ none
      → l.wire ≡ l.given
      → Sound l
  busy :
      l.session.sending ≡ true
      → l.session.send_buffer_flush_offset < length l.session.send_buffer_flush
      → l.writing ≡ some (unsent l.session)
      → l.wire ++ (unsent l.session ++ l.session.send_buffer_main) ≡ l.given
      → Sound l

-- After a call with no write in progress and nothing left of the flush buffer.
Sound-swapped :
    (s : WebSession) (wire given : Bytes)
    → s.sending ≡ false
    → s.send_buffer_flush ≡ []
    → wire ++ s.send_buffer_main ≡ given
    → Sound (after (try_send s) none wire given)
unfolding started swap_buffers
Sound-swapped s wire given p e h = elim (Bytes-cases s.send_buffer_main) [
  | inl m ↦
      let w : wire ≡ given = sym (append-nil wire) ∙ ap (λ (t : Bytes). wire ++ t) (sym m) ∙ h in
      rw (try_send_nothing s p e m) (idle p m e refl w)
  | inr (c, t, m) ↦
      let lt : 0 < length s.send_buffer_main = omega (arith, ap length m) in
      let left : s.send_buffer_main ++ s.send_buffer_flush ≡ s.send_buffer_main =
        ap (λ (u : Bytes). s.send_buffer_main ++ u) e ∙ append-nil s.send_buffer_main in
      rw (try_send_swapped s c t p e m) (busy refl lt refl (ap (λ (u : Bytes). wire ++ u) left ∙ h))
]

-- After a call with no write in progress and some of the flush buffer left.
Sound-rest :
    (s : WebSession) (wire given : Bytes)
    → s.sending ≡ false
    → s.send_buffer_flush_offset < length s.send_buffer_flush
    → wire ++ (unsent s ++ s.send_buffer_main) ≡ given
    → Sound (after (try_send s) none wire given)
unfolding started
Sound-rest s wire given p lt h = elim (Bytes-cases s.send_buffer_flush) [
  | inl e ↦ absurd (omega (arith, ap length e))
  | inr (c, t, e) ↦ rw (try_send_rest s c t p e) (busy refl lt refl h)
]

-- Of the text that was written, the part taken and the part that is left.
taken-rest :
    (m n : ℕ) (wire flush main given : Bytes)
    → wire ++ (drop m flush ++ main) ≡ given
    → (wire ++ take n (drop m flush)) ++ (drop (m + n) flush ++ main) ≡ given
taken-rest m n wire flush main given h =
    let whole = take-append-drop n (drop m flush) in
    let rest = drop_add m n flush in
    rw (← rest, append_assoc, ← append_assoc (take n (drop m flush)), whole) h

behind : (a b c d g : Bytes) → a ++ (b ++ c) ≡ g → a ++ (b ++ (c ++ d)) ≡ g ++ d
behind a b c d g h = rw (← h, append_assoc, append_assoc)

pub Sound-gave : (l : Link) (text : Bytes) → 0 < length text → Sound l → Sound (give text l)
unfolding started
Sound-gave l text lt (idle p e m w g) =
    let main : l.session.send_buffer_main ++ text ≡ text = ap (λ (u : Bytes). u ++ text) m in
    rw (give_lem l text lt, buffer_text_empty text l.session m, w)
      (Sound-swapped (waiting text l.session) l.wire (l.given ++ text) p e
        (ap (λ (u : Bytes). l.wire ++ u) main ∙ ap (λ (u : Bytes). u ++ text) g))
Sound-gave l text lt (busy p o w g) =
    rw (give_lem l text lt, buffer_text_busy text l.session p)
      (busy p o w (behind l.wire (unsent l.session) l.session.send_buffer_main text l.given g))

-- What `try_send` does behind a write.
Sound-advance :
    (n : ℕ) (s : WebSession) (wire given : Bytes)
    → s.sending ≡ false
    → s.send_buffer_flush_offset + n ≤ length s.send_buffer_flush
    → wire ++ (drop (s.send_buffer_flush_offset + n) s.send_buffer_flush ++ s.send_buffer_main)
      ≡ given
    → Sound (after (try_send (advance n s)) none wire given)
Sound-advance n s wire given p le h =
    let q = advance-sending n s ∙ p in
    let m = advance-main n s in
    let end = s.send_buffer_flush_offset + n in
    elim (Bool-cases (end == length s.send_buffer_flush)) [
      | inl e ↦
          let e' = (==_iff _ _).0 e in
          let none_left : drop end s.send_buffer_flush ≡ [] =
            rw e' (drop-length s.send_buffer_flush) in
          Sound-swapped (advance n s) wire given q (advance_end n s e') (rw m (rw none_left at h))
      | inr e ↦
          let lt : end < length s.send_buffer_flush = ground arith in
          let (f, o) = advance_part n s lt in
          Sound-rest (advance n s) wire given q (rw (f, o) lt) (rw (f, o, m) h)
    ]

pub Sound-completed :
    (l : Link) (n : ℕ) (text : Bytes)
    → l.writing ≡ some text
    → 0 < n
    → n ≤ length text
    → Sound l
    → Sound (complete n text l)
Sound-completed l n text e lt le (idle p f m w g) = cc
Sound-completed l n text e lt le (busy p o w g) =
    let t : text ≡ unsent l.session = cc in
    let taken =
      taken-rest l.session.send_buffer_flush_offset n l.wire l.session.send_buffer_flush
        l.session.send_buffer_main l.given g in
    let room : l.session.send_buffer_flush_offset + n ≤ length l.session.send_buffer_flush = omega (
      arith,
      ap length t,
      length-drop l.session.send_buffer_flush_offset l.session.send_buffer_flush,
    ) in
    rw (complete_lem n text l lt, t)
      (Sound-advance n (record (l.session) { sending = false }) _ l.given refl room taken)
