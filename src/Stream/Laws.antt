-- ===== src/Stream/Laws.antt =====
-- What one end of a connection sends, the other end's handler gets; and the receiver's bounds.
use phira_mp.Common.{
  ℕ, zero, suc, ◌+◌, ◌^◌, ◌≤◌, ◌<◌, ◌≡◌, ◌≢◌, refl, sym, ap, ◌∙◌, true, false, none, some, List, [],
  ◌∷◌, ◌++◌, length, All, append_assoc, append-nil, length-append, length-drop, length-take,
  take-append, drop-append, arith, ltb, leb, ◌⊎◌, inl, inr,
}
use phira_mp.Bin.Reader.{Error, Result, ok, err, Bytes}
use phira_mp.Bin.Faithful.{Faithful-new}
use phira_mp.Bin.Data.{BinaryData}
use phira_mp.Bin.Laws.{Sound}
use phira_mp.Stream.{
  Ending, eof, out_of_fuel, invalid_packet, Received, got, ended, max_packet, encode_packet,
  decode_packet, length_bytes, send_one, send_task, read_length, read_body, read_frame, recv_loop,
  recv_task, send_version, stream_version,
}
use phira_mp.Stream.Header.{
  read_length-length_bytes, read_length_takes, read_length-ne-fuel, length_bytes_pos,
}

read_frame_step :
    (socket : Bytes) (n : ℕ) (rest : Bytes)
    → read_length 0 0 socket ≡ got (n, rest)
    → read_frame socket ≡ read_body n rest
unfolding read_frame
read_frame_step socket n rest e = rw (e, read_frame)

read_body-append :
    (xs rest : Bytes) → length xs ≤ max_packet → read_body (length xs) (xs ++ rest) ≡ got (xs, rest)
unfolding read_body
read_body-append xs rest h =
    let small : ltb max_packet (length xs) ≡ false = ground arith in
    let whole : leb (length xs) (length (xs ++ rest)) ≡ true =
      ground (arith, length-append xs rest) in
    rw (small, whole, take-append xs rest, drop-append xs rest)

module _ {ℓ} {A : Type ℓ} (d : BinaryData A) where
  -- A packet is decoded to the value that it was encoded from.
  pub decode_packet-encode_packet :
      (a : A)
      → Sound d a
      → length (encode_packet d a []) < 2 ^ 64
      → decode_packet d (encode_packet d a []) ≡ ok a
  unfolding decode_packet encode_packet
  decode_packet-encode_packet a s fits = rw (Faithful-new _ _ a s.faithful fits, decode_packet)

  -- A payload that the receiving end accepts.
  pub record Sendable (a : A) : Type ℓ where
    pub sound : Sound d a
    pub small : length (encode_packet d a []) ≤ max_packet

  frame : A → Bytes
  frame a = length_bytes (length (encode_packet d a [])) ++ encode_packet d a []

  frames : List A → Bytes
  frames [] = []
  frames (a ∷ queue) = frame a ++ frames queue

  send_task-frames :
      (queue : List A) (socket : Bytes) → send_task d queue socket ≡ socket ++ frames queue
  unfolding send_task send_one frames frame
  send_task-frames [] socket = sym (append-nil socket)
  send_task-frames (a ∷ queue) socket = send_task-frames queue _ ∙ simp append_assoc

  read_frame-frame :
      (a : A) (rest : Bytes)
      → length (encode_packet d a []) ≤ max_packet
      → read_frame (frame a ++ rest) ≡ got (encode_packet d a [], rest)
  unfolding frame
  read_frame-frame a rest small = rw (append_assoc (length_bytes n) packet rest) (
      read_frame_step _ n (packet ++ rest)
        (read_length-length_bytes n (packet ++ rest) (omega arith))
      ∙ read_body-append packet rest small)
    where
      packet : Bytes
      packet = encode_packet d a []

      n : ℕ
      n = length packet

  recv_loop_step :
      (fuel : ℕ) (socket buffer rest : Bytes) (a : A)
      → read_frame socket ≡ got (buffer, rest)
      → decode_packet d buffer ≡ ok a
      → recv_loop d (suc fuel) socket ≡ (a ∷ (recv_loop d fuel rest).0, (recv_loop d fuel rest).1)
  unfolding recv_loop
  recv_loop_step fuel socket buffer rest a e f = rw (e, recv_loop) (rw (f, recv_loop))

  frames_longer : (a : A) (queue : List A) → length (frames queue) < length (frames (a ∷ queue))
  unfolding frames frame
  frames_longer a queue =
      let n = length (encode_packet d a []) in
      omega (
        arith,
        length_bytes_pos n,
        length-append (frame a) (frames queue),
        length-append (length_bytes n) (encode_packet d a []),
      )

  recv_loop-frames :
      (queue : List A) (fuel : ℕ)
      → All Sendable queue
      → length (frames queue) < fuel
      → recv_loop d fuel (frames queue) ≡ (queue, eof)
  unfolding frames
  recv_loop-frames queue zero h enough = absurd (omega arith)
  recv_loop-frames [] (suc fuel) h enough = unfold recv_loop read_frame read_length in refl
  recv_loop-frames (a ∷ queue) (suc fuel) h enough =
      recv_loop_step fuel _ (encode_packet d a []) (frames queue) a
        (read_frame-frame a (frames queue) (h.0).small)
        (decode_packet-encode_packet a (h.0).sound (omega (arith, (h.0).small)))
      ∙ rw (recv_loop-frames queue fuel h.1 (omega (arith, frames_longer a queue)))

  -- The handler gets the payloads that the other end sent, in order, and then the socket's end.
  pub recv_task-send_task :
      (queue : List A) → All Sendable queue → recv_task d (send_task d queue []) ≡ (queue, eof)
  unfolding recv_task
  recv_task-send_task queue h =
      rw (send_task-frames queue [])
        (recv_loop-frames queue (suc (length (frames queue))) h (omega arith))

  -- The side that gives a version sends it first, and the other side learns it and reads on behind it.
  pub stream_version-send_version :
      (version : ℕ) (queue : List A)
      → All Sendable queue
      → (incoming : Bytes) × (stream_version none
            (send_task d queue (send_version (some version) []))
          ≡ got (version, incoming))
        × (recv_task d incoming ≡ (queue, eof))
  unfolding stream_version send_version recv_task
  stream_version-send_version version queue h = (
    frames queue,
    rw (send_task-frames queue (version ∷ [])),
    recv_loop-frames queue (suc (length (frames queue))) h (omega arith),
  )

-- A frame that is read is no longer than 2 MiB and takes at least one byte off the socket.
read_body_bounds :
    (len : ℕ) (rest buffer after : Bytes)
    → read_body len rest ≡ got (buffer, after)
    → (length buffer ≤ max_packet) × (length buffer + length after ≡ length rest)
unfolding read_body
read_body_bounds len rest buffer after e =
    ground (arith, length-take len rest, length-drop len rest)

Received-cases {ℓ} :
    {A : Type ℓ} (r : Received A) → ((a : A) × (r ≡ got a)) ⊎ ((e : Ending) × (r ≡ ended e))
Received-cases (got a) = inl (a, refl)
Received-cases (ended e) = inr (e, refl)

read_frame_end :
    (socket : Bytes) (e : Ending) → read_length 0 0 socket ≡ ended e → read_frame socket ≡ ended e
unfolding read_frame
read_frame_end socket e h = rw (h, read_frame)

-- A packet that is handed on has at most 2 MiB, and with its length it took the bytes that are gone
-- from the socket: one to five for the length, and its own.
pub read_frame_bounds :
    (socket buffer rest : Bytes)
    → read_frame socket ≡ got (buffer, rest)
    → (length buffer ≤ max_packet)
      × (length buffer + length rest < length socket)
      × (length socket ≤ length buffer + length rest + 5)
read_frame_bounds socket buffer rest e = elim (Received-cases (read_length 0 0 socket)) [
  | inl ((n, after), h) ↦
      let parts =
        read_body_bounds n after buffer rest (sym (read_frame_step socket n after h) ∙ e) in
      omega (arith, parts, read_length_takes socket 0 0 n after (omega arith) h)
  | inr (x, h) ↦ cc (read_frame_end socket x h)
]

read_frame-ne-fuel : (socket : Bytes) → read_frame socket ≢ ended out_of_fuel
read_frame-ne-fuel socket e = elim (Received-cases (read_length 0 0 socket)) [
  | inl ((n, after), h) ↦ body n after (sym (read_frame_step socket n after h) ∙ e)
  | inr (x, h) ↦
      let same : x ≡ out_of_fuel = cc (read_frame_end socket x h) in
      read_length-ne-fuel socket 0 0 (h ∙ ap ended same)
]
  where
    body : (n : ℕ) (after : Bytes) → read_body n after ≢ ended out_of_fuel
    body n after = unfold read_body in ground arith

Result-cases {ℓ} :
    {A : Type ℓ} (r : Result A) → ((a : A) × (r ≡ ok a)) ⊎ ((e : Error) × (r ≡ err e))
Result-cases (ok a) = inl (a, refl)
Result-cases (err e) = inr (e, refl)

module _ {ℓ} {R : Type ℓ} (d : BinaryData R) where
  recv_loop_end :
      (fuel : ℕ) (socket : Bytes) (x : Ending)
      → read_frame socket ≡ ended x
      → recv_loop d (suc fuel) socket ≡ ([], x)
  unfolding recv_loop
  recv_loop_end fuel socket x e = rw (e, recv_loop)

  recv_loop_invalid :
      (fuel : ℕ) (socket buffer rest : Bytes) (x : Error)
      → read_frame socket ≡ got (buffer, rest)
      → decode_packet d buffer ≡ err x
      → recv_loop d (suc fuel) socket ≡ ([], invalid_packet x)
  unfolding recv_loop
  recv_loop_invalid fuel socket buffer rest x e f = rw (e, recv_loop) (rw (f, recv_loop))

  recv_loop-ne-fuel :
      (fuel : ℕ) (socket : Bytes) → length socket < fuel → (recv_loop d fuel socket).1 ≢ out_of_fuel
  recv_loop-ne-fuel zero socket h = absurd (omega arith)
  recv_loop-ne-fuel (suc fuel) socket h = elim (Received-cases (read_frame socket)) [
    | inr (x, e) ↦ λ q.
        let same : x ≡ out_of_fuel = sym (ap (λ p. p.1) (recv_loop_end fuel socket x e)) ∙ q in
        read_frame-ne-fuel socket (e ∙ ap ended same)
    | inl ((buffer, rest), e) ↦ elim (Result-cases (decode_packet d buffer)) [
      | inr (x, f) ↦ rw (recv_loop_invalid fuel socket buffer rest x e f) (λ q. cc)
      | inl (a, f) ↦
          rw (recv_loop_step d fuel socket buffer rest a e f)
            (recv_loop-ne-fuel fuel rest (omega (arith, read_frame_bounds socket buffer rest e)))
    ]
  ]

  -- On every socket the receive task comes to an end of its own, and not out of fuel: one round for
  -- each byte, and one more, are enough.
  pub recv_task-ne-fuel : (socket : Bytes) → (recv_task d socket).1 ≢ out_of_fuel
  unfolding recv_task
  recv_task-ne-fuel socket = recv_loop-ne-fuel (suc (length socket)) socket (omega arith)
