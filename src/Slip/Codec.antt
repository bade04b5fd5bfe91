-- ===== src/Slip/Codec.antt =====
-- The receiver of main/slip_handle.c undoes the framing of its sender.
use mathlib.Core.List.{append-nil, append_assoc, flatten}
use esp32_template.Base.{
  ℕ, ◌≡◌, ◌≤◌, ◌<◌, ◌⊎◌, inl, inr, refl, sym, ap, ◌∙◌, arith, List, [], ◌∷◌, ◌++◌,
}
use esp32_template.Base.{◌==◌, if◌then◌else◌, length, length-append}
use esp32_template.Slip.{
  slip_end, wifi_slip_max_ip_packet, escape, frame_payload, frame_chain, slip_frame,
}
use esp32_template.Slip.Receive.{Receiver, normal, recv_bytes, recv_chunk}

-- The bytes of a packet between the delimiters of its frame
escape_all : List ℕ → List ℕ
escape_all [] = []
escape_all (c ∷ cs) = escape c ++ escape_all cs

escape_all-append : (xs ys : List ℕ) → escape_all (xs ++ ys) ≡ escape_all xs ++ escape_all ys
unfolding escape_all
escape_all-append [] ys = refl
escape_all-append (x ∷ xs) ys =
    ap (λ t. escape x ++ t) (escape_all-append xs ys)
    ∙ sym (append_assoc (escape x) (escape_all xs) (escape_all ys))

frame_payload-grows : (q out : List ℕ) → length out ≤ length (frame_payload q out)
unfolding frame_payload
frame_payload-grows [] out = omega arith
frame_payload-grows (c ∷ q) out =
    ground (arith, frame_payload-grows q (out ++ escape c), length-append out (escape c))

-- A buffer is framed whole, or it is cut where the output is nearly full.
frame_payload_cases :
    (q out : List ℕ)
    → (frame_payload q out ≡ out ++ escape_all q) ⊎ (1325 ≤ length (frame_payload q out))
unfolding frame_payload escape_all
frame_payload_cases [] out = inl (sym (append-nil out))
frame_payload_cases (c ∷ q) out =
    ground
      (arith, frame_payload_cases q (out ++ escape c), append_assoc out (escape c) (escape_all q))

frame_chain-grows : (p : List (List ℕ)) (out : List ℕ) → length out ≤ length (frame_chain p out)
unfolding frame_chain
frame_chain-grows [] out = omega arith
frame_chain-grows (q ∷ p) out =
    omega (arith, frame_payload-grows q out, frame_chain-grows p (frame_payload q out))

frame_chain_cases :
    (p : List (List ℕ)) (out : List ℕ)
    → (frame_chain p out ≡ out ++ escape_all (flatten p)) ⊎ (1325 ≤ length (frame_chain p out))
unfolding frame_chain flatten escape_all
frame_chain_cases [] out = inl (sym (append-nil out))
frame_chain_cases (q ∷ p) out =
    joined (frame_payload_cases q out) (frame_chain_cases p (frame_payload q out))
  where
    joined :
        (frame_payload q out ≡ out ++ escape_all q) ⊎ (1325 ≤ length (frame_payload q out))
        → (frame_chain p (frame_payload q out) ≡ frame_payload q out ++ escape_all (flatten p))
          ⊎ (1325 ≤ length (frame_chain p (frame_payload q out)))
        → (frame_chain p (frame_payload q out) ≡ out ++ escape_all (q ++ flatten p))
          ⊎ (1325 ≤ length (frame_chain p (frame_payload q out)))
    joined (inr long) rest = inr (omega (arith, frame_chain-grows p (frame_payload q out)))
    joined (inl e) (inr long) = inr long
    joined (inl e) (inl f) = inl (
        f
        ∙ ap (λ t. t ++ escape_all (flatten p)) e
        ∙ append_assoc out (escape_all q) (escape_all (flatten p))
        ∙ ap (λ t. out ++ t) (sym (escape_all-append q (flatten p))))

-- A frame that is short enough for the send queue holds the whole packet.
slip_frame_whole :
    (p : List (List ℕ))
    → length (slip_frame p) < wifi_slip_max_ip_packet
    → slip_frame p ≡ slip_end ∷ (escape_all (flatten p) ++ slip_end ∷ [])
unfolding slip_frame
slip_frame_whole p short = whole (frame_chain_cases p (slip_end ∷ []))
  where
    whole :
        (frame_chain p (slip_end ∷ []) ≡ slip_end ∷ escape_all (flatten p))
          ⊎ (1325 ≤ length (frame_chain p (slip_end ∷ [])))
        → frame_chain p (slip_end ∷ []) ++ slip_end ∷ []
          ≡ slip_end ∷ (escape_all (flatten p) ++ slip_end ∷ [])
    whole (inl e) = ap (λ t. t ++ slip_end ∷ []) e
    whole (inr long) =
        absurd (omega (arith, length-append (frame_chain p (slip_end ∷ [])) (slip_end ∷ [])))

-- A receiver between two bytes of a frame, with `buf` received so far
abbrev pub receiving : List ℕ → Receiver
receiving buf = record { recv_state = normal; rx_buffer = buf }

-- An escaped byte is received as the byte itself.
recv_bytes-escape :
    (c : ℕ) (buf rest : List ℕ)
    → recv_bytes (receiving buf) (escape c ++ rest) ≡ recv_bytes (receiving (buf ++ c ∷ [])) rest
unfolding recv_bytes escape
recv_bytes-escape c buf rest = ground arith

recv_bytes-escape_all :
    (cs buf rest : List ℕ)
    → recv_bytes (receiving buf) (escape_all cs ++ rest) ≡ recv_bytes (receiving (buf ++ cs)) rest
unfolding escape_all
recv_bytes-escape_all [] buf rest = ap (λ b. recv_bytes (receiving b) rest) (sym (append-nil buf))
recv_bytes-escape_all (c ∷ cs) buf rest =
    ap (recv_bytes (receiving buf)) (append_assoc (escape c) (escape_all cs) rest)
    ∙ recv_bytes-escape c buf (escape_all cs ++ rest)
    ∙ recv_bytes-escape_all cs (buf ++ c ∷ []) rest
    ∙ ap (λ b. recv_bytes (receiving b) rest) (append_assoc buf (c ∷ []) cs)

-- An empty packet is not handed on.
abbrev pub delivered : List ℕ → List (List ℕ)
delivered packet = if length packet == 0 then [] else packet ∷ []

recv_bytes-frame :
    (packet : List ℕ)
    → recv_bytes (receiving []) (slip_end ∷ (escape_all packet ++ slip_end ∷ []))
      ≡ (receiving [], delivered packet)
unfolding recv_bytes
recv_bytes-frame packet =
    rw (recv_bytes-escape_all packet [] (slip_end ∷ []))
      (ap (λ (out : List (List ℕ)). (receiving [], out)) (append-nil (delivered packet)))

-- A packet, whatever its bytes and however it is cut into buffers, whose frame is short enough for
-- the send queue comes out of an idle receiver that reads the frame: that packet and nothing else,
-- and the receiver is idle again.
pub recv_chunk-slip_frame :
    (p : List (List ℕ))
    → length (slip_frame p) < wifi_slip_max_ip_packet
    → recv_chunk (receiving []) (slip_frame p) ≡ (receiving [], delivered (flatten p))
unfolding recv_chunk
recv_chunk-slip_frame p short =
    let e = slip_frame_whole p short in
    let short' = rw e at short in rw e (ground (arith, recv_bytes-frame (flatten p)))
