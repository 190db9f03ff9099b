-- ===== src/Coalescer/Delivery.antt =====
-- What a reader of the connection sees: the bytes of the chunks, in order.
use termyard.Base.{
  ℕ, ◌≤◌, ◌==◌, if_rule, Bool, false, List, [], ◌∷◌, ◌++◌, length, append_assoc, append-nil, ◌≡◌,
  ◌⊎◌, inl, inr, refl, sym, ◌∙◌, ap, arith,
}
use termyard.Coalescer.Frames.{Bytes, Frame, binary, text, Connection, Output, write_frame, flush}
use termyard.Coalescer.{new_output_coalescer}
use termyard.Coalescer.History.{Action, run, submitted, bytes_of}
use termyard.Coalescer.Rule.{IsKept}
use termyard.Coalescer.Traces.{run-Sound, new-Sound}

-- A connection that has failed fails from then on, as a `websocket.Conn` does.
abbrev pub IsSticky : Connection → Type 0
IsSticky conn = (n m : ℕ) → n ≤ m → conn.accepts n ≡ false → conn.accepts m ≡ false

abbrev pub IsPrefix : Bytes → Bytes → Type 0
IsPrefix xs s = (rest : Bytes) × (xs ++ rest ≡ s)

abbrev pub HasFailed : Connection → ℕ → Type 0
HasFailed conn n = (m : ℕ) → n ≤ m → conn.accepts m ≡ false

-- All is delivered but what is buffered and `r`; or the connection has failed after a prefix.
abbrev pub Delivers : Connection → Bytes → Bytes → Output → Type 0
Delivers conn s r o =
    (bytes_of o.sent ++ (o.buffered ++ r) ≡ s)
    ⊎ (HasFailed conn o.writes × IsPrefix (bytes_of o.sent) s)

bytes_of-append :
    (fs : List Frame) (f : Frame) → bytes_of (fs ++ (f ∷ [])) ≡ bytes_of fs ++ bytes_of (f ∷ [])
bytes_of-append [] f = refl
bytes_of-append (binary p ∷ fs) f =
    rw (bytes_of-append fs f, append_assoc p (bytes_of fs) (bytes_of (f ∷ []))) refl
bytes_of-append (text p ∷ fs) f = bytes_of-append fs f

module _ (conn : Connection) (sticky : IsSticky conn) where
  -- A write: `r` is what the frame and the buffer leave.
  write_frame-Delivers :
      (f : Frame) (s r : Bytes) (o : Output)
      → (bytes_of o.sent ++ (bytes_of (f ∷ []) ++ (o.buffered ++ r)) ≡ s)
        ⊎ (HasFailed conn o.writes × IsPrefix (bytes_of o.sent) s)
      → Delivers conn s r (write_frame conn f o).0
  unfolding write_frame
  write_frame-Delivers f s r o h =
      if_rule (λ (x : Output × Bool). Delivers conn s r x.0) (conn.accepts o.writes)
        (λ a. elim h [
          | inl e ↦ inl (
              rw (bytes_of-append o.sent f)
                (append_assoc (bytes_of o.sent) (bytes_of (f ∷ [])) (o.buffered ++ r) ∙ e))
          | inr (b, p) ↦ absurd (cc (a, b o.writes (omega arith)))
        ])
        (λ a. elim h [
          | inl e ↦ inr (λ m l. sticky o.writes m (omega arith) a, (_, e))
          | inr (b, p) ↦ inr (λ m l. b m (omega arith), p)
        ])

  prefix_grow : (xs s t : Bytes) → IsPrefix xs s → IsPrefix xs (s ++ t)
  prefix_grow xs s t (r, e) = (r ++ t, sym (append_assoc xs r t) ∙ ap (λ z. z ++ t) e)

  flush-Delivers :
      (s r : Bytes) (o : Output) → Delivers conn s r o → Delivers conn s r (flush conn o).0
  unfolding flush
  flush-Delivers s r o h =
      if_rule (λ (x : Output × Bool). Delivers conn s r x.0) (length o.buffered == 0) (λ _. h)
        (λ _.
          write_frame-Delivers (binary o.buffered) s r (record o { buffered = [] })
            (rw (append-nil o.buffered) h))

  pub delivery : IsKept conn (Delivers conn) (HasFailed conn)
  delivery = record {
    texts = λ s r p o h. write_frame-Delivers (text p) s r o h;
    flushes = flush-Delivers;
    fills = λ s r part o l h. elim h [
      | inl e ↦ inl (rw (append_assoc o.buffered part r) e)
      | inr d ↦ inr d
    ];
    timers = λ s r t o h. h;
    acks = λ s r a o h. h;
    drops = λ s r q o b h. elim h [ inl e ↦ inr (b, (o.buffered ++ r, e)) | inr d ↦ inr d ];
    grows = λ s r t o h. elim h [
      | inl e ↦ inl (
          rw
            (← append_assoc o.buffered r t, ← append_assoc (bytes_of o.sent) (o.buffered ++ r) t, e)
            refl)
      | inr (b, p) ↦ inr (b, prefix_grow (bytes_of o.sent) s t p)
    ];
    fails = λ n e m l. sticky n m (omega arith) e;
    later = λ n m l b j i. b j (omega arith);
  }

  -- On a connection that fails from its first failed write on, the binary frames that it accepted
  -- after any history of a new coalescer carry, in order, a prefix of the submitted bytes.
  pub run-IsPrefix :
      (max_frame : ℕ) (es : List Action)
      → IsPrefix
          (bytes_of (run conn es (new_output_coalescer max_frame)).out.sent)
          (submitted conn es (new_output_coalescer max_frame))
  run-IsPrefix max_frame es =
      let h =
        run-Sound conn (Delivers conn) (HasFailed conn) delivery [] es _
          (new-Sound conn (Delivers conn) (HasFailed conn) delivery max_frame (inl refl)) in
      elim h.holds [ inl e ↦ (_, e) | inr (b, p) ↦ p ]
