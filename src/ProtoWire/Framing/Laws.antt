-- ===== src/ProtoWire/Framing/Laws.antt =====
-- Frames put on a stream and taken off it, in bebop2/proto-wire/src/framing.rs.
use open_bebop.Prelude.{
  ℕ, zero, suc, ◌+◌, ◌%◌, ◌^◌, ◌≤◌, ◌<◌, ◌≡◌, refl, ap, sym, ◌∙◌, inl, inr, true, not, none, some,
  [], ◌∷◌, ◌++◌, length, length-append, take, drop, ltb, ltb_false→le, lt→ltb, le→ltb, ==_iff,
  Result, ok, err, guard, guard-eq-ok, >>=-eq-ok, Bool-cases, arith, append_assoc,
}
use open_bebop.Prelude.Bytes.{Bytes, le_bytes, of_le_bytes, length-le_bytes, of_le_bytes-le_bytes}
use open_bebop.Prelude.Slices.{slice, slice-next, drop-next}
use open_bebop.ProtoWire.Framing.{
  Envelope, WireError, frame_too_large, envelope_version, Json, as_encode, from_bytes, encode,
  take_off, decode_body, decode_len, decode,
}

take-prefix : (xs ys : Bytes) (n : ℕ) → n ≤ length xs → take n (xs ++ ys) ≡ take n xs
take-prefix xs ys zero h = refl
take-prefix [] ys (suc n) h = absurd (omega arith)
take-prefix (x ∷ xs) ys (suc n) h = ap (◌∷◌ x) (take-prefix xs ys n (omega arith))

slice-prefix : (xs ys : Bytes) (n : ℕ) → n ≤ length xs → slice 0 n (xs ++ ys) ≡ slice 0 n xs
unfolding slice
slice-prefix xs ys n h = take-prefix xs ys n h

module _ (json : Json) where
  -- What the encoder has written: the body behind its length.
  record Written (envelope : Envelope) (frame : Bytes) : Type 0 where
    body : Bytes
    encoded : json.to_vec envelope ≡ ok body
    small : length body ≤ 1048576
    layout : frame ≡ le_bytes 4 (length body) ++ body

  as_encode-eq-ok : {A : Type 0} (r : Result Bytes A) {a : A} → as_encode r ≡ ok a → r ≡ ok a
  as_encode-eq-ok (ok b) h = ap ok (ok_inj h)
    where
      ok_inj : {A : Type 0} {x y : A} → ◌≡◌ {A = Result WireError A} (ok x) (ok y) → x ≡ y
      ok_inj e = cc e
  as_encode-eq-ok (err m) h = absurd (cc h)

  written :
      (envelope : Envelope) (frame : Bytes)
      → encode json envelope ≡ ok frame
      → Written envelope frame
  unfolding encode
  written envelope frame h =
      let (body, at, h₁) = >>=-eq-ok (as_encode (json.to_vec envelope)) _ h in
      let (u, fits, h₂) =
        >>=-eq-ok (guard (not (ltb 1048576 (length body))) (frame_too_large (length body))) _ h₁ in
      let small : length body ≤ 1048576 =
        not_above _ _ (guard-eq-ok _ (frame_too_large (length body)) fits) in
      let low : length body % 2 ^ 32 ≡ length body = omega (arith, small) in
      record {
        body = body;
        encoded = as_encode-eq-ok (json.to_vec envelope) at;
        small = small;
        layout = cc (h₂, ap (λ n. le_bytes 4 n ++ body) low);
      }
    where
      not_above : (a b : ℕ) → not (ltb a b) ≡ true → b ≤ a
      not_above a b e = ground arith

  body_read :
      (buf body : Bytes) (n : ℕ) (envelope : Envelope)
      → n ≤ 1048576
      → slice 4 n buf ≡ body
      → length body ≡ n
      → json.from_slice body ≡ ok envelope
      → envelope.version ≡ envelope_version
      → decode_body json n buf ≡ (drop (4 + n) buf, ok (some envelope))
  unfolding decode_body from_bytes take_off
  body_read buf body n envelope small here width reads v =
      let parsed : from_bytes json (slice 4 n buf) ≡ ok envelope =
        unfold from_bytes in
        (rw (here, le→ltb 1048576 (length body) (omega (arith, small, width))) reads) in
      ap (λ r. take_off json n buf (as_encode r)) parsed
      ∙ (rw ((==_iff envelope.version 1).1 v) refl)

  decode_whole :
      (buf body : Bytes) (n : ℕ) (envelope : Envelope)
      → of_le_bytes (slice 0 4 buf) ≡ n
      → n ≤ 1048576
      → 4 + n ≤ length buf
      → slice 4 n buf ≡ body
      → length body ≡ n
      → json.from_slice body ≡ ok envelope
      → envelope.version ≡ envelope_version
      → decode json buf ≡ (drop (4 + n) buf, ok (some envelope))
  unfolding decode decode_len
  decode_whole buf body n envelope size small long here width reads v =
      rw (le→ltb (length buf) 4 (omega (arith, long)), size)
        (rw (le→ltb 1048576 n small, le→ltb (length buf) (4 + n) long)
          (body_read buf body n envelope small here width reads v))

  decode_short :
      (buf : Bytes) (n : ℕ)
      → of_le_bytes (slice 0 4 buf) ≡ n
      → n ≤ 1048576
      → 4 ≤ length buf
      → length buf < 4 + n
      → decode json buf ≡ (buf, ok none)
  unfolding decode decode_len
  decode_short buf n size small has_len short =
      rw (le→ltb (length buf) 4 has_len, size)
        (rw (le→ltb 1048576 n small, lt→ltb (length buf) (4 + n) short) refl)

  -- A frame at the head of the buffer is taken off it: the envelope comes back and what follows
  -- stays, for an envelope of this version that the JSON decoder reads back.
  pub decode-encode :
      (envelope : Envelope) (frame rest : Bytes)
      → envelope.version ≡ envelope_version
      → ((body : Bytes) → json.to_vec envelope ≡ ok body → json.from_slice body ≡ ok envelope)
      → encode json envelope ≡ ok frame
      → decode json (frame ++ rest) ≡ (rest, ok (some envelope))
  decode-encode envelope frame rest v reads h =
      let w = written envelope frame h in
      let n = length w.body in
      let buf = frame ++ rest in
      let r₀ : drop 0 buf ≡ le_bytes 4 n ++ (w.body ++ rest) =
        ap (λ f. f ++ rest) w.layout ∙ append_assoc (le_bytes 4 n) w.body rest in
      let r₁ = drop-next buf (le_bytes 4 n) (w.body ++ rest) 0 4 r₀ (length-le_bytes 4 n) in
      let size : of_le_bytes (slice 0 4 buf) ≡ n =
        ap of_le_bytes (slice-next buf (le_bytes 4 n) (w.body ++ rest) 0 4 r₀ (length-le_bytes 4 n))
        ∙ of_le_bytes-le_bytes 4 n (omega (arith, w.small)) in
      let long : length buf ≡ 4 + n + length rest = omega (
        arith,
        ap length r₀,
        length-append (le_bytes 4 n) (w.body ++ rest),
        length-append w.body rest,
        length-le_bytes 4 n,
      ) in
      decode_whole buf w.body n envelope size w.small (omega (arith, long))
        (slice-next buf w.body rest 4 n r₁ refl) refl (reads w.body w.encoded) v
      ∙ ap (λ b. (b, ok (some envelope))) (drop-next buf w.body rest 4 n r₁ refl)

  -- A part of a frame is waited on: nothing is taken off the buffer.
  pub decode-part :
      (envelope : Envelope) (frame part missing : Bytes)
      → encode json envelope ≡ ok frame
      → part ++ missing ≡ frame
      → 1 ≤ length missing
      → decode json part ≡ (part, ok none)
  unfolding decode
  decode-part envelope frame part missing h e more = elim (Bool-cases (ltb (length part) 4)) [
    | inl t ↦ rw t refl
    | inr f ↦
        let w = written envelope frame h in
        let n = length w.body in
        let has_len : 4 ≤ length part = ltb_false→le (length part) 4 f in
        let whole : part ++ missing ≡ le_bytes 4 n ++ w.body = e ∙ w.layout in
        let size : of_le_bytes (slice 0 4 part) ≡ n =
          ap of_le_bytes (
            sym (slice-prefix part missing 4 has_len)
            ∙ slice-next (part ++ missing) (le_bytes 4 n) w.body 0 4 whole (length-le_bytes 4 n))
          ∙ of_le_bytes-le_bytes 4 n (omega (arith, w.small)) in
        let long : length part + length missing ≡ 4 + n = omega (
          arith,
          ap length whole,
          length-append part missing,
          length-append (le_bytes 4 n) w.body,
          length-le_bytes 4 n,
        ) in
        decode_short part n size w.small has_len (omega (arith, long, more))
  ]
