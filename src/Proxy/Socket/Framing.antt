-- ===== src/Proxy/Socket/Framing.antt =====
-- A frame is read whole, however its bytes arrive.
use neutron_local_services_p.Base.{
  ℕ, zero, suc, ◌+◌, ◌-◌, ◌≤◌, ◌<◌, ◌≡◌, refl, ◌∙◌, ap, sym, true, false, some, List, [], ◌∷◌, ◌++◌,
  leb, if◌then◌else◌, length, length-append, Bool-cases, inl, inr, arith,
}
use Prim.Native.Nat.{◌^◌}
use mathlib.Core.List.{append-nil, append_assoc}
use neutron_local_services_p.Proxy.Socket.{
  take, drop, Received, received, eof, chunk_size, recv_loop, recv_exactly, pack, unpack, frame,
  read_body, read_answer,
}

take-take : (m k j : ℕ) (xs : List ℕ) → m + k ≡ j → take m xs ++ take k (drop m xs) ≡ take j xs
take-take zero k j xs h = ap (λ i. take i xs) (omega arith)
take-take (suc m) k zero xs h = absurd (omega arith)
take-take (suc m) zero (suc j) [] h = refl
take-take (suc m) (suc k) (suc j) [] h = refl
take-take (suc m) k (suc j) (x ∷ xs) h = ap (λ ys. x ∷ ys) (take-take m k j xs (omega arith))

drop-drop : (m k j : ℕ) (xs : List ℕ) → m + k ≡ j → drop k (drop m xs) ≡ drop j xs
drop-drop zero k j xs h = ap (λ i. drop i xs) (omega arith)
drop-drop (suc m) k zero xs h = absurd (omega arith)
drop-drop (suc m) zero (suc j) [] h = refl
drop-drop (suc m) (suc k) (suc j) [] h = refl
drop-drop (suc m) k (suc j) (x ∷ xs) h = drop-drop m k j xs (omega arith)

length_split : (m : ℕ) (xs : List ℕ) → length (take m xs) + length (drop m xs) ≡ length xs
length_split zero xs = omega arith
length_split (suc m) [] = omega arith
length_split (suc m) (x ∷ xs) = omega (arith, length_split m xs)

length-take :
    (m : ℕ) (xs : List ℕ) → length (take m xs) ≡ (if leb m (length xs) then m else length xs)
length-take zero xs = ground arith
length-take (suc m) [] = ground arith
length-take (suc m) (x ∷ xs) = ground (arith, length-take m xs)

unfoldable whole : ℕ → List ℕ → List ℕ → Received
whole n out coming =
    if leb n (length out + length coming)
    then received (out ++ take (n - length out) coming) (drop (n - length out) coming)
    else eof

whole-received :
    (n k : ℕ) (out coming : List ℕ)
    → n ≤ length out + length coming
    → n - length out ≡ k
    → whole n out coming ≡ received (out ++ take k coming) (drop k coming)
unfolding whole
whole-received n k out coming h e =
    let enough : leb n (length out + length coming) ≡ true = ground arith in
    rw enough (ap (λ i. received (out ++ take i coming) (drop i coming)) e)

whole-eof :
    (n : ℕ) (out coming : List ℕ) → length out + length coming < n → whole n out coming ≡ eof
unfolding whole
whole-eof n out coming h =
    let short : leb n (length out + length coming) ≡ false = ground arith in rw short refl

done_whole :
    (n : ℕ) (out coming : List ℕ)
    → length out ≤ n
    → leb n (length out) ≡ true
    → received out coming ≡ whole n out coming
done_whole n out coming h e =
    ap (λ bytes. received bytes coming) (sym (append-nil out))
    ∙ sym (whole-received n 0 out coming (ground arith) (ground arith))

next_whole :
    (n size : ℕ) (out coming : List ℕ)
    → length out ≤ n
    → size ≤ n - length out
    → whole n (out ++ take size coming) (drop size coming) ≡ whole n out coming
next_whole n size out coming h small = elim (Bool-cases (leb n (length out + length coming))) [
  | inl e ↦
      let k : ℕ = (n - length out) - size in
      whole-received n k (out ++ take size coming) (drop size coming)
        (ground (arith, length-append out (take size coming), length_split size coming))
        (ground (arith, length-append out (take size coming), length-take size coming))
      ∙ ap (λ bytes. received bytes (drop k (drop size coming)))
          (append_assoc out (take size coming) (take k (drop size coming))
            ∙ ap (λ bytes. out ++ bytes) (take-take size k (n - length out) coming (ground arith)))
      ∙ ap (λ bytes. received (out ++ take (n - length out) coming) bytes)
          (drop-drop size k (n - length out) coming (ground arith))
      ∙ sym (whole-received n (n - length out) out coming (ground arith) refl)
  | inr e ↦
      whole-eof n (out ++ take size coming) (drop size coming)
        (ground (arith, length-append out (take size coming), length_split size coming))
      ∙ sym (whole-eof n out coming (ground arith))
]

recv_loop-lem :
    (fuel : ℕ) (arrivals : ℕ → ℕ) (n : ℕ) (out coming : List ℕ)
    → length out ≤ n
    → n ≤ fuel + length out
    → recv_loop fuel arrivals n out coming ≡ whole n out coming
unfolding recv_loop
recv_loop-lem zero arrivals n out coming h enough =
    let full : leb n (length out) ≡ true = ground arith in rw full (done_whole n out coming h full)
recv_loop-lem (suc fuel) arrivals n out [] h enough = elim (Bool-cases (leb n (length out))) [
  | inl e ↦ rw e (done_whole n out [] h e)
  | inr e ↦ rw e (sym (whole-eof n out [] (ground arith)))
]
recv_loop-lem (suc fuel) arrivals n out (b ∷ coming) h enough =
    elim (Bool-cases (leb n (length out))) [
      | inl e ↦ rw e (done_whole n out (b ∷ coming) h e)
      | inr e ↦ rw e (
          let size : ℕ = chunk_size (n - length out) (arrivals fuel) in
          recv_loop-lem fuel arrivals n (out ++ take size (b ∷ coming)) (drop size (b ∷ coming))
            (ground
              (arith, length-append out (take size (b ∷ coming)), length-take size (b ∷ coming)))
            (ground
              (arith, length-append out (take size (b ∷ coming)), length-take size (b ∷ coming)))
          ∙ next_whole n size out (b ∷ coming) h (ground arith))
    ]

recv_exactly_whole :
    (arrivals : ℕ → ℕ) (n : ℕ) (coming : List ℕ)
    → n ≤ length coming
    → recv_exactly arrivals n coming ≡ received (take n coming) (drop n coming)
unfolding recv_exactly
recv_exactly_whole arrivals n coming h =
    recv_loop-lem n arrivals n [] coming (ground arith) (ground arith)
    ∙ whole-received n n [] coming (ground arith) (ground arith)

take-append : (xs ys : List ℕ) → take (length xs) (xs ++ ys) ≡ xs
take-append [] ys = refl
take-append (x ∷ xs) ys = ap (λ zs. x ∷ zs) (take-append xs ys)

drop-append : (xs ys : List ℕ) → drop (length xs) (xs ++ ys) ≡ ys
drop-append [] ys = refl
drop-append (x ∷ xs) ys = drop-append xs ys

recv_exactly-append :
    (arrivals : ℕ → ℕ) (xs ys : List ℕ)
    → recv_exactly arrivals (length xs) (xs ++ ys) ≡ received xs ys
recv_exactly-append arrivals xs ys =
    recv_exactly_whole arrivals (length xs) (xs ++ ys) (ground (arith, length-append xs ys))
    ∙ ap (λ bytes. received bytes (drop (length xs) (xs ++ ys))) (take-append xs ys)
    ∙ ap (λ bytes. received xs bytes) (drop-append xs ys)

unpack-pack : (n : ℕ) → n < 4294967296 → unpack (pack n) ≡ n
unfolding pack unpack
unpack-pack n h = omega arith

read_header :
    (early : ℕ → ℕ) (n : ℕ) (body rest : List ℕ)
    → recv_exactly early 4 ((pack n ++ body) ++ rest) ≡ received (pack n) (body ++ rest)
unfolding pack
read_header early n body rest = recv_exactly-append early (pack n) (body ++ rest)

framed_body :
    (body framed : List ℕ)
    → frame body ≡ some framed
    → (length body < 4294967296) × (framed ≡ pack (length body) ++ body)
unfolding frame
framed_body body framed h = elim (Bool-cases (leb (2 ^ 32) (length body))) [
  | inl e ↦ absurd (ground arith)
  | inr e ↦ (ground arith, ground arith)
]

-- However the bytes of an answer arrive, if they are the frame of a body and whatever comes after it,
-- then both reads return, and give the body and leave what comes after it.
pub read_answer-frame :
    (early late : ℕ → ℕ) (body framed rest : List ℕ)
    → frame body ≡ some framed
    → read_answer early late (framed ++ rest) ≡ received body rest
unfolding read_answer
read_answer-frame early late body framed rest h =
    let (short, is_frame) = framed_body body framed h in
    ap (λ bytes. read_answer early late (bytes ++ rest)) is_frame
    ∙ ap (read_body late) (read_header early (length body) body rest)
    ∙ ap (λ n. recv_exactly late n (body ++ rest)) (unpack-pack (length body) short)
    ∙ recv_exactly-append late body rest
